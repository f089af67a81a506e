-- ===== src/Ps/Waiters.antt =====
-- The threads that wait for a process to end.
use micro_nt.Base.{
  ◌||◌, ℕ, zero, suc, ◌<◌, ◌≡◌, refl, sym, ap, subst, ◌∙◌, ◌≢◌, inl, inr, true, false, List, [],
  ◌∷◌, ◌++◌, length, ◌==◌, if◌then◌else◌, arith, update, update_self, update_ne, get_elem?, some,
  Bool-cases,
}
use micro_nt.Sched.{Sched, is_terminated, unblock_thread, ready, clamp_pri}
use micro_nt.Sched.Ring.{Off, Distinct}
use micro_nt.Sched.Queues.{Idle, IsThread, clamped}
use micro_nt.Sched.Switch.{
  Inv, Idle-update, add_thread-Inv, unblock_thread-add_thread, unblock_thread-ended,
  unblock_thread-current, unblock_thread-state, unblock_thread-wait_next,
}
use micro_nt.Sched.Sleep.Tick.{Rests, Rests-map}
use micro_nt.Sched.Sleep.Line.{Line, Line-update}
use micro_nt.Ps.{wake_waiters}

-- A thread that leaves the list of waiters and, if it has not ended, becomes ready.
unfoldable pub release : ℕ → Sched → Sched
release w s = unblock_thread w (record s { wait_next = update s.wait_next w 0 })

unfoldable pub release_all : List ℕ → Sched → Sched
release_all [] s = s
release_all (w ∷ ws) s = release_all ws (release w s)

pub release-wait_next : (w : ℕ) (s : Sched) → (release w s).wait_next ≡ update s.wait_next w 0
unfolding release
release-wait_next w s = unblock_thread-wait_next w (record s { wait_next = update s.wait_next w 0 })

release-state :
    (w : ℕ) (s : Sched)
    → (release w s).state
      ≡ (if w == 0 || is_terminated (s.state w) then s.state else update s.state w ready)
unfolding release
release-state w s = unblock_thread-state w (record s { wait_next = update s.wait_next w 0 })

pub release-terminated :
    (w : ℕ) (s : Sched) (a : ℕ)
    → is_terminated (s.state a) ≡ true
    → is_terminated ((release w s).state a) ≡ true
release-terminated w s a e =
    ap (λ f. is_terminated (f a)) (release-state w s)
    ∙ elim (Bool-cases (w == 0 || is_terminated (s.state w))) [
      | inl kept ↦ rw kept e
      | inr woken ↦
          let ne : a ≢ w = λ same. absurd (ground (arith, woken, e, ap s.state same)) in
          rw woken (ap is_terminated (update_ne s.state w a ready ne) ∙ e)
    ]

-- A thread that is released and has not ended is READY, and a READY one stays so.
pub release-ready :
    (w : ℕ) (s : Sched) → w ≢ 0 → is_terminated (s.state w) ≡ false → (release w s).state w ≡ ready
release-ready w s nz live =
    let woken : (w == 0 || is_terminated (s.state w)) ≡ false = ground (arith, nz, live) in
    ap (λ f. f w) (release-state w s) ∙ rw woken (update_self s.state w ready)

release-keeps_ready :
    (w : ℕ) (s : Sched) (a : ℕ) → s.state a ≡ ready → (release w s).state a ≡ ready
release-keeps_ready w s a e =
    ap (λ f. f a) (release-state w s) ∙ elim (Bool-cases (w == 0 || is_terminated (s.state w))) [
      | inl kept ↦ rw kept e
      | inr woken ↦ elim (Bool-cases (a == w)) [
        | inl same ↦
            let at : a ≡ w = ground (arith, same) in rw (woken, at) (update_self s.state w ready)
        | inr other ↦ rw woken (update_ne s.state w a ready (ground (arith, other)) ∙ e)
      ]
    ]

release_all-keeps_ready :
    (ws : List ℕ) (s : Sched) (a : ℕ) → s.state a ≡ ready → (release_all ws s).state a ≡ ready
unfolding release_all
release_all-keeps_ready [] s a e = e
release_all-keeps_ready (w ∷ ws) s a e =
    release_all-keeps_ready ws (release w s) a (release-keeps_ready w s a e)

release-live :
    (w : ℕ) (s : Sched) (a : ℕ)
    → is_terminated (s.state a) ≡ false
    → is_terminated ((release w s).state a) ≡ false
release-live w s a live =
    ap (λ f. is_terminated (f a)) (release-state w s)
    ∙ elim (Bool-cases (w == 0 || is_terminated (s.state w))) [
      | inl kept ↦ rw kept live
      | inr woken ↦ elim (Bool-cases (a == w)) [
        | inl same ↦
            let at : a ≡ w = ground (arith, same) in
            rw (woken, at) (ap is_terminated (update_self s.state w ready))
        | inr other ↦
            rw woken (ap is_terminated (update_ne s.state w a ready (ground (arith, other))) ∙ live)
      ]
    ]

-- Each thread of the list that has not ended is READY after the release.
pub release_all-ready :
    (ws : List ℕ) (s : Sched) (i a : ℕ)
    → get_elem? ws i ≡ some a
    → a ≢ 0
    → is_terminated (s.state a) ≡ false
    → (release_all ws s).state a ≡ ready
unfolding release_all
release_all-ready [] s i a at nz live = absurd (cc)
release_all-ready (w ∷ ws) s zero a at nz live =
    let same : w ≡ a = cc in
    release_all-keeps_ready ws (release w s) a
      (subst (λ u. (release u s).state a ≡ ready) (sym same) (release-ready a s nz live))
release_all-ready (w ∷ ws) s (suc i) a at nz live =
    release_all-ready ws (release w s) i a at nz (release-live w s a live)

-- The walk ends
pub wake_waiters-release_all :
    (ws : List ℕ) (fuel w : ℕ) (s : Sched)
    → length ws < fuel
    → Line s.wait_next w ws
    → Distinct ws
    → wake_waiters fuel w s ≡ release_all ws s
unfolding wake_waiters release release_all Line Distinct
wake_waiters-release_all ws zero w s lt line apart = absurd (omega (arith, lt))
wake_waiters-release_all [] (suc fuel) w s lt line apart = rw (line, wake_waiters) refl
wake_waiters-release_all (t ∷ ws) (suc fuel) w s lt (at, some_thread, rest) (off, apart) =
    let here : t == 0 ≡ false = ground (arith, some_thread) in
    subst (λ u. wake_waiters (suc fuel) u s ≡ release_all ws (release t s)) (sym at)
      (rw (here, wake_waiters)
        (wake_waiters-release_all ws fuel (s.wait_next t) (release t s) (omega (arith, lt))
          (subst (λ f. Line f (s.wait_next t) ws) (sym (release-wait_next t s))
            (Line-update s.wait_next (s.wait_next t) ws t 0 off rest))
          apart))

-- A waiter that has ended stays so, another one is READY; no other thread changes.
pub release_all-state :
    (ws : List ℕ) (s : Sched) (a : ℕ)
    → is_terminated (s.state a) ≡ true
    → is_terminated ((release_all ws s).state a) ≡ true
unfolding release_all
release_all-state [] s a e = e
release_all-state (w ∷ ws) s a e = release_all-state ws (release w s) a (release-terminated w s a e)

pub release_all-others :
    (ws : List ℕ) (s : Sched) (a : ℕ) → Off a ws → (release_all ws s).state a ≡ s.state a
unfolding release_all Off
release_all-others [] s a off = refl
release_all-others (w ∷ ws) s a (ne, off) =
    release_all-others ws (release w s) a off
    ∙ ap (λ f. f a) (release-state w s)
    ∙ elim (Bool-cases (w == 0 || is_terminated (s.state w))) [
      | inl kept ↦ rw kept refl
      | inr woken ↦ rw woken (update_ne s.state w a ready ne)
    ]

-- The scheduler after threads were released, with the queues before and after.
pub record Released (ws : List ℕ) (s s' : Sched) (qs qs' : ℕ → List ℕ) : Type 0 where
  pub inv : Inv s' qs'
  pub current : s'.current ≡ s.current
  pub active : s'.active ≡ s.active
  pub kept : (u : ℕ) → Off u ws → Idle u qs → Idle u qs'
  pub first : (pri t : ℕ) (xs : List ℕ) → qs pri ≡ t ∷ xs → (xs' : List ℕ) × (qs' pri ≡ t ∷ xs')

append-first :
    (xs ys : List ℕ) (t : ℕ) (rest : List ℕ) → xs ≡ t ∷ rest → xs ++ ys ≡ t ∷ (rest ++ ys)
append-first xs ys t rest e = ap (λ l. l ++ ys) e

release-Released :
    (w : ℕ) (s : Sched) (qs : ℕ → List ℕ)
    → Inv s qs
    → Idle w qs
    → w ≢ s.current
    → (qs' : ℕ → List ℕ) × Released (w ∷ []) s (release w s) qs qs'
unfolding release IsThread Off
release-Released w s qs v idle ne =
    let cut : Sched = record s { wait_next = update s.wait_next w 0 } in
    let inv : Inv cut qs = record { holds = v.holds; idle = v.idle } in
    let (current, active) = unblock_thread-current w cut in
    elim (Bool-cases (is_terminated (s.state w))) [
      | inl over ↦ (
        qs,
        record {
          inv = subst (λ q. Inv q qs) (sym (unblock_thread-ended w cut over)) inv;
          current = current;
          active = active;
          kept = λ u _ i. i;
          first = λ pri t xs e. (xs, e);
        },
      )
      | inr live ↦
          let pri = clamp_pri (s.priority w) in
          let woken = unblock_thread-add_thread w cut (omega (arith, idle.thread)) live in
          (
            update qs pri (qs pri ++ w ∷ []),
            record {
              inv =
                  subst (λ q. Inv q (update qs pri (qs pri ++ w ∷ []))) (sym woken)
                    (add_thread-Inv w cut qs inv idle ne).0;
              current = current;
              active = active;
              kept = λ u (nu, _) i. Idle-update u w qs pri i nu (clamped (s.priority w));
              first = λ j t xs e. elim (Bool-cases (j == pri)) [
                | inl same ↦
                    let at : j ≡ pri = ground arith in
                    rw same (xs ++ w ∷ [], append-first (qs pri) (w ∷ []) t xs (sym (ap qs at) ∙ e))
                | inr other ↦ rw other (xs, e)
              ];
            },
          )
    ]

pub release_all-Released :
    (ws : List ℕ) (s : Sched) (qs : ℕ → List ℕ)
    → Inv s qs
    → Distinct ws
    → Rests ws s.current qs
    → (qs' : ℕ → List ℕ) × Released ws s (release_all ws s) qs qs'
unfolding release_all Distinct Rests Off
release_all-Released [] s qs v d rests = (
  qs,
  record {
    inv = v;
    current = refl;
    active = refl;
    kept = λ u _ i. i;
    first = λ pri t xs e. (xs, e);
  },
)
release_all-Released (w ∷ ws) s qs v (off, d) (idle, ne, rests) =
    let (qs1, one) = release-Released w s qs v idle ne in
    let still : Rests ws (release w s).current qs1 =
      Rests-map ws s.current (release w s).current qs qs1 w
        (λ u nu i other. (one.kept u (nu, _) i, λ e. other (e ∙ one.current))) off rests in
    let (qs2, all) = release_all-Released ws (release w s) qs1 one.inv d still in
    (
      qs2,
      record {
        inv = all.inv;
        current = all.current ∙ one.current;
        active = all.active ∙ one.active;
        kept = λ u (nu, out) i. all.kept u out (one.kept u (nu, _) i);
        first = λ pri t xs e. let (xs1, e1) = one.first pri t xs e in all.first pri t xs1 e1;
      },
    )
