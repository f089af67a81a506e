-- ===== src/Sched/Sleep/Wake.antt =====
-- WakeSleepers: who is woken, who stays, and that the walk ends.
use micro_nt.Base.{
  ℕ, zero, suc, ◌<◌, ◌≡◌, refl, sym, ap, subst, ◌∙◌, ◌≢◌, inl, inr, true, false, List, [], ◌∷◌,
  length, ◌==◌, leb, arith, update, update_self, update_ne, Bool-cases,
}
use micro_nt.Sched.{add_thread}
use micro_nt.Sched.Ring.{Off, Distinct}
use micro_nt.Sched.Sleep.{Sleepers, read_link, write_link, wake_one, wake_sleepers}
use micro_nt.Sched.Sleep.Line.{
  Line, still_asleep, due, add_all, Line-update, Off-zero, still_asleep-update,
}

-- What the walk from the link `p` does with the sleepers `ts` behind it.
pub record Wakes (now p : ℕ) (ts : List ℕ) (s r : Sleepers) : Type 0 where
  pub line : Line r.sleep_next (read_link p r) (still_asleep now s.sleep_until ts)
  pub links : (a : ℕ) → Off a ts → a ≢ p → r.sleep_next a ≡ s.sleep_next a
  pub head : p ≢ 0 → r.sleep_head ≡ s.sleep_head
  pub sched : r.sched ≡ add_all (due now s.sleep_until ts) s.sched
  pub until : (a : ℕ) → leb (s.sleep_until a) now ≡ false → r.sleep_until a ≡ s.sleep_until a

-- A thread that is woken leaves the list, and the rest of the list hangs on the link.
module _ (p t : ℕ) (ts : List ℕ) (s : Sleepers) (ne : p ≢ t)
    (rest : Line s.sleep_next (s.sleep_next t) ts) (off_p : Off p ts) (off_t : Off t ts) where
  wake_one-Line :
      (read_link p (wake_one p t s) ≡ s.sleep_next t)
      × Line (wake_one p t s).sleep_next (s.sleep_next t) ts
  unfolding wake_one write_link read_link
  wake_one-Line = elim (Bool-cases (p == 0)) [
    | inl first ↦ rw first (refl, Line-update s.sleep_next (s.sleep_next t) ts t 0 off_t rest)
    | inr later ↦ rw later (
      update_ne (update s.sleep_next p (s.sleep_next t)) t p 0 ne
          ∙ update_self s.sleep_next p (s.sleep_next t),
      Line-update (update s.sleep_next p (s.sleep_next t)) (s.sleep_next t) ts t 0 off_t
          (Line-update s.sleep_next (s.sleep_next t) ts p (s.sleep_next t) off_p rest),
    )
  ]

wake_one_others :
    (p t : ℕ) (s : Sleepers)
    → ((a : ℕ) → a ≢ t → a ≢ p → (wake_one p t s).sleep_next a ≡ s.sleep_next a)
      × (p ≢ 0 → (wake_one p t s).sleep_head ≡ s.sleep_head)
      × ((wake_one p t s).sleep_until ≡ update s.sleep_until t 0)
      × ((wake_one p t s).sched ≡ add_thread t s.sched)
unfolding wake_one write_link
wake_one_others p t s = elim (Bool-cases (p == 0)) [
  | inl first ↦
      rw first
        (λ a na np. update_ne s.sleep_next t a 0 na, λ e. absurd (ground (arith, e)), refl, refl)
  | inr later ↦ rw later (
    λ a na np.
        update_ne (update s.sleep_next p (s.sleep_next t)) t a 0 na
        ∙ update_ne s.sleep_next p a (s.sleep_next t) np,
    λ _. refl,
    refl,
    refl,
  )
]

read_link-thread : (t : ℕ) (s : Sleepers) → t ≢ 0 → read_link t s ≡ s.sleep_next t
unfolding read_link
read_link-thread t s ne = ground (arith, ne)

-- The thread at the link sleeps on, and the walk goes on at its own link.
Wakes-skip :
    (now p t : ℕ) (ts : List ℕ) (s r : Sleepers)
    → read_link p s ≡ t
    → t ≢ 0
    → p ≢ t
    → Off p ts
    → leb (s.sleep_until t) now ≡ false
    → Wakes now t ts s r
    → Wakes now p (t ∷ ts) s r
unfolding Line Off still_asleep due read_link
Wakes-skip now p t ts s r at some_thread ne off waits w =
    let kept : read_link p r ≡ t = elim (Bool-cases (p == 0)) [
      | inl first ↦ rw first (w.head some_thread ∙ ground (arith, at, first))
      | inr later ↦ rw later (w.links p off ne ∙ ground (arith, at, later))
    ] in
    let tail : Line r.sleep_next (r.sleep_next t) (still_asleep now s.sleep_until ts) =
      subst (λ h. Line r.sleep_next h (still_asleep now s.sleep_until ts))
        (read_link-thread t r some_thread) w.line in
    record {
      line = rw waits (kept, some_thread, tail);
      links = λ a (na, out) np. w.links a out na;
      head = λ nz. w.head some_thread;
      sched = rw waits w.sched;
      until = w.until;
    }

-- The thread at the link is woken, and the walk goes on at the same link.
Wakes-due :
    (now p t : ℕ) (ts : List ℕ) (s r : Sleepers)
    → Off t ts
    → leb (s.sleep_until t) now ≡ true
    → Wakes now p ts (wake_one p t s) r
    → Wakes now p (t ∷ ts) s r
unfolding Off still_asleep due add_all
Wakes-due now p t ts s r off wakes w =
    let (links, head, until, sched) = wake_one_others p t s in
    let (still, woken) = still_asleep-update now s.sleep_until t 0 ts off in
    record {
      line = rw wakes (
          subst (λ l. Line r.sleep_next (read_link p r) l)
            (ap (λ u. still_asleep now u ts) until ∙ still) w.line);
      links = λ a (na, out) np. w.links a out np ∙ links a na np;
      head = λ nz. w.head nz ∙ head nz;
      sched = rw wakes (
          w.sched
          ∙ ap (λ q. add_all (due now (wake_one p t s).sleep_until ts) q) sched
          ∙ ap (λ l. add_all l (add_thread t s.sched)) (ap (λ u. due now u ts) until ∙ woken));
      until = λ a later.
          let ne : a ≢ t = λ e. absurd (ground (arith, later, wakes, ap s.sleep_until e)) in
          let same : (wake_one p t s).sleep_until a ≡ s.sleep_until a =
            ap (λ u. u a) until ∙ update_ne s.sleep_until t a 0 ne in
          w.until a (subst (λ x. leb x now ≡ false) (sym same) later) ∙ same;
    }

pub wake_sleepers-Wakes :
    (ts : List ℕ) (fuel now p : ℕ) (s : Sleepers)
    → length ts < fuel
    → Line s.sleep_next (read_link p s) ts
    → Distinct ts
    → Off p ts
    → Wakes now p ts s (wake_sleepers fuel now p s)
unfolding Line Off Distinct wake_sleepers still_asleep due add_all
wake_sleepers-Wakes ts zero now p s lt line apart off = absurd (omega (arith, lt))
wake_sleepers-Wakes [] (suc fuel) now p s lt line apart off =
    rw (wake_sleepers, line)
      (record {
        line = line;
        links = λ a _ _. refl;
        head = λ _. refl;
        sched = refl;
        until = λ a _. refl;
      })
wake_sleepers-Wakes (t ∷ ts) (suc fuel) now p s lt (at, some_thread, rest) (off_t, apart)
      (ne, off_p) =
    let here : read_link p s == 0 ≡ false = ground (arith, at, some_thread) in
    let (read, line) = wake_one-Line p t ts s ne rest off_p off_t in
    rw (wake_sleepers, here)
      (subst
        (λ u. Wakes now p (t ∷ ts) s (elim (leb (s.sleep_until u) now) [
          | true ↦ wake_sleepers fuel now p (wake_one p u s)
          | false ↦ wake_sleepers fuel now u s
        ]))
        (sym at)
        (elim (Bool-cases (leb (s.sleep_until t) now)) [
          | inr waits ↦ rw waits (
              Wakes-skip now p t ts s (wake_sleepers fuel now t s) at some_thread ne off_p waits (
                wake_sleepers-Wakes ts fuel now t s (omega (arith, lt))
                  (subst (λ h. Line s.sleep_next h ts) (sym (read_link-thread t s some_thread))
                    rest)
                  apart off_t))
          | inl wakes ↦ rw wakes (
              Wakes-due now p t ts s (wake_sleepers fuel now p (wake_one p t s)) off_t wakes (
                wake_sleepers-Wakes ts fuel now p (wake_one p t s) (omega (arith, lt))
                  (subst (λ h. Line (wake_one p t s).sleep_next h ts) (sym read) line) apart off_p))
        ]))

-- If s_sleep_head leads over SleepNext to a list of distinct threads and the fuel exceeds their
-- number, WakeSleepers ends by its test: the list then holds the threads whose time has not come,
-- in their order and with their times, and the others were added to the ready queues, in the
-- order of the list.
pub wake_sleepers_lem :
    (ts : List ℕ) (fuel now : ℕ) (s : Sleepers)
    → length ts < fuel
    → Line s.sleep_next s.sleep_head ts
    → Distinct ts
    → let r = wake_sleepers fuel now 0 s in
      Line r.sleep_next r.sleep_head (still_asleep now s.sleep_until ts)
      × (r.sched ≡ add_all (due now s.sleep_until ts) s.sched)
      × ((a : ℕ) → leb (s.sleep_until a) now ≡ false → r.sleep_until a ≡ s.sleep_until a)
unfolding read_link
wake_sleepers_lem ts fuel now s lt line apart =
    let w =
      wake_sleepers-Wakes ts fuel now 0 s lt line apart
        (Off-zero s.sleep_next s.sleep_head ts line) in
    (w.line, w.sched, w.until)
