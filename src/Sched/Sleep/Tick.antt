-- ===== src/Sched/Sleep/Tick.antt =====
-- Tick: what holds between two ticks.
use micro_nt.Base.{
  ℕ, ◌-◌, ◌<◌, ◌≡◌, refl, sym, ap, subst, ◌∙◌, ◌≢◌, inl, inr, true, false, not, ◌||◌, List, [], ◌∷◌,
  ◌++◌, length, ◌==◌, leb, arith, update, Bool-cases,
}
use Prim.{Unit}
use micro_nt.Sched.{Sched, add_thread, queue_push_back, clamp_pri, is_running}
use micro_nt.Sched.Ring.{Off, Distinct}
use micro_nt.Sched.Queues.{Idle, IsThread, clamped}
use micro_nt.Sched.Switch.{
  Inv, Switch, stays, runs, schedule_internal-Switch, Idle-tail, Idle-update, add_thread-Inv,
}
use micro_nt.Sched.Sleep.{Sleepers, wake_sleepers, tick}
use micro_nt.Sched.Sleep.Line.{Line, still_asleep, due, add_all, Off-zero}
use micro_nt.Sched.Sleep.Wake.{wake_sleepers_lem}

-- Each thread of the list is in no ready queue and does not run.
unfoldable pub Rests : List ℕ → ℕ → (ℕ → List ℕ) → Type 0
Rests [] current qs = Unit
Rests (t ∷ ts) current qs = Idle t qs × (t ≢ current) × Rests ts current qs

-- What holds between ticks, with the sleepers and the ready queues.
pub record Resting (s : Sleepers) (ts : List ℕ) (qs : ℕ → List ℕ) : Type 0 where
  pub inv : Inv s.sched qs
  pub line : Line s.sleep_next s.sleep_head ts
  pub distinct : Distinct ts
  pub rests : Rests ts s.sched.current qs

-- Rests is kept by what keeps each thread of the list.
pub Rests-map :
    (ts : List ℕ) (current current' : ℕ) (qs qs' : ℕ → List ℕ) (a : ℕ)
    → ((t : ℕ) → t ≢ a → Idle t qs → t ≢ current → Idle t qs' × (t ≢ current'))
    → Off a ts
    → Rests ts current qs
    → Rests ts current' qs'
unfolding Rests Off
Rests-map [] current current' qs qs' a keep off rests = _
Rests-map (t ∷ ts) current current' qs qs' a keep (ne, off) (idle, other, rests) =
    let (idle', other') = keep t (λ e. ne (sym e)) idle other in
    (idle', other', Rests-map ts current current' qs qs' a keep off rests)

Off-still : (a now : ℕ) (until : ℕ → ℕ) (ts : List ℕ) → Off a ts → Off a (still_asleep now until ts)
unfolding Off still_asleep
Off-still a now until [] off = _
Off-still a now until (t ∷ ts) (ne, off) = elim (Bool-cases (leb (until t) now)) [
  | inl wakes ↦ rw wakes (Off-still a now until ts off)
  | inr waits ↦ rw waits (ne, Off-still a now until ts off)
]

Distinct-still :
    (now : ℕ) (until : ℕ → ℕ) (ts : List ℕ) → Distinct ts → Distinct (still_asleep now until ts)
unfolding Distinct still_asleep
Distinct-still now until [] d = _
Distinct-still now until (t ∷ ts) (off, d) = elim (Bool-cases (leb (until t) now)) [
  | inl wakes ↦ rw wakes (Distinct-still now until ts d)
  | inr waits ↦ rw waits (Off-still t now until ts off, Distinct-still now until ts d)
]

-- The scheduler after the sleepers whose time has come were added.
record Woken (now : ℕ) (until : ℕ → ℕ) (ts : List ℕ) (s : Sched) (qs qs' : ℕ → List ℕ)
    : Type 0 where
  inv : Inv (add_all (due now until ts) s) qs'
  same : (add_all (due now until ts) s).current ≡ s.current
  active : (add_all (due now until ts) s).active ≡ s.active
  rests : Rests (still_asleep now until ts) s.current qs'
  kept : (u : ℕ) → Off u ts → Idle u qs → Idle u qs'

add_all-Woken :
    (now : ℕ) (until : ℕ → ℕ) (ts : List ℕ) (s : Sched) (qs : ℕ → List ℕ)
    → Inv s qs
    → Distinct ts
    → Rests ts s.current qs
    → (qs' : ℕ → List ℕ) × Woken now until ts s qs qs'
unfolding Rests Distinct Off still_asleep due add_all add_thread queue_push_back
add_all-Woken now until [] s qs v d rests =
    (qs, record { inv = v; same = refl; active = refl; rests = _; kept = λ u off idle. idle })
add_all-Woken now until (t ∷ ts) s qs v (off, d) (idle, other, rests) =
    elim (Bool-cases (leb (until t) now)) [
      | inr waits ↦
          let (qs', w) = add_all-Woken now until ts s qs v d rests in
          (
            qs',
            record {
              inv = rw waits w.inv;
              same = rw waits w.same;
              active = rw waits w.active;
              rests = rw waits (w.kept t off idle, other, w.rests);
              kept = λ u (_, out) i. w.kept u out i;
            },
          )
      | inl wakes ↦
          let pri = clamp_pri (s.priority t) in
          let lt = clamped (s.priority t) in
          let qs1 : ℕ → List ℕ = update qs pri (qs pri ++ t ∷ []) in
          let still : Rests ts s.current qs1 =
            Rests-map ts s.current s.current qs qs1 t
              (λ u ne i o. (Idle-update u t qs pri i ne lt, o)) off rests in
          let (qs', w) =
            add_all-Woken now until ts (add_thread t s) qs1 (add_thread-Inv t s qs v idle other).0 d
              still in
          (
            qs',
            record {
              inv = rw wakes w.inv;
              same = rw wakes w.same;
              active = rw wakes w.active;
              rests = rw wakes w.rests;
              kept = λ u (ne, out) i. w.kept u out (Idle-update u t qs pri i ne lt);
            },
          )
    ]

-- A switch runs a thread that was ready, so none of the sleepers.
Switch-Rests :
    (ts : List ℕ) (s s' : Sched) (qs qs' : ℕ → List ℕ)
    → Off 0 ts
    → Switch s qs s' qs'
    → Rests ts s.current qs
    → Rests ts s'.current qs'
Switch-Rests ts s s' qs qs' off (stays all) rests = rests
Switch-Rests ts s s' qs qs' off (runs pri u xs s'' lt at higher current quantum state) rests =
    Rests-map ts s.current s'.current qs qs' 0
      (λ t _ idle other.
        let (rest, ne) = Idle-tail t u qs pri xs lt at idle in
        (
          elim (Bool-cases (is_running (s.state s.current))) [
            | inl still ↦ rw still (
                Idle-update t s.current (update qs pri xs) (clamp_pri (s.priority s.current)) rest
                  other (clamped (s.priority s.current)))
            | inr gone ↦ rw gone rest
          ],
          λ e. ne (e ∙ current),
        ))
      off rests

-- If the scheduler is active, the links of the ready queues hold, the sleepers are a list of
-- distinct threads, none of which is in a ready queue or current, and the fuel exceeds their
-- number, then after Tick there are ready queues of which all this holds again, and the sleepers
-- are the old ones whose time has not come, in their order. It covers the tick at which the
-- quantum ends and ScheduleInternal runs.
pub tick-Resting :
    (ts : List ℕ) (fuel now : ℕ) (s : Sleepers) (qs : ℕ → List ℕ)
    → length ts < fuel
    → s.sched.active ≡ true
    → Resting s ts qs
    → (qs' : ℕ → List ℕ) × Resting (tick fuel now s) (still_asleep now s.sleep_until ts) qs'
unfolding tick IsThread
tick-Resting ts fuel now s qs enough active v =
    let (line, sch, _) = wake_sleepers_lem ts fuel now s enough v.line v.distinct in
    let (qs1, w) = add_all-Woken now s.sleep_until ts s.sched qs v.inv v.distinct v.rests in
    let m : Sleepers = wake_sleepers fuel now 0 s in
    let spent : Sched = record m.sched { quantum = m.sched.quantum - 1 } in
    let inv : Inv m.sched qs1 = subst (λ q. Inv q qs1) (sym sch) w.inv in
    let rests : Rests (still_asleep now s.sleep_until ts) m.sched.current qs1 =
      subst (λ c. Rests (still_asleep now s.sleep_until ts) c qs1)
        (sym (ap (λ q. q.current) sch ∙ w.same)) w.rests in
    let distinct = Distinct-still now s.sleep_until ts v.distinct in
    let inv' : Inv spent qs1 = record { holds = inv.holds; idle = inv.idle } in
    let on : spent.active ≡ true = ap (λ q. q.active) sch ∙ w.active ∙ active in
    let runs_on : (not s.sched.active || s.sched.current == 0) ≡ false =
      ground (arith, active, v.inv.idle.thread) in
    rw (tick, runs_on)
      ((elim (Bool-cases (m.sched.quantum == 0)) [
        | inl out ↦
            rw out (qs1, record { inv = inv; line = line; distinct = distinct; rests = rests })
        | inr left ↦ rw left (elim (Bool-cases (spent.quantum == 0)) [
          | inr more ↦
              rw more (qs1, record { inv = inv'; line = line; distinct = distinct; rests = rests })
          | inl over ↦
              let (qs2, switch, after) = schedule_internal-Switch spent qs1 on inv' in
              let zero_off =
                Off-zero m.sleep_next m.sleep_head (still_asleep now s.sleep_until ts) line in
              rw over (
                qs2,
                record {
                  inv = after;
                  line = line;
                  distinct = distinct;
                  rests =
                      Switch-Rests (still_asleep now s.sleep_until ts) spent _ qs1 qs2 zero_off
                        switch rests;
                },
              )
        ])
      ]))
