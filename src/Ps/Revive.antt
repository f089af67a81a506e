-- ===== src/Ps/Revive.antt =====
-- KillProcess leaves the threads that it ends in their ready queues, so they run again.
use micro_nt.Base.{
  ℕ, zero, suc, ◌<◌, ◌≡◌, refl, sym, ap, subst, ◌∙◌, ◌≢◌, inl, inr, true, List, [], ◌∷◌, get_elem?,
  some, ltb, if◌then◌else◌, arith, update, update_self, Bool-cases,
}
use micro_nt.Sched.{Sched, ready, running, is_terminated, is_running, schedule_internal}
use micro_nt.Sched.Queues.{Holds, Idle}
use micro_nt.Sched.Switch.{Inv, Switch, stays, runs, schedule_internal-Switch}
use micro_nt.Ps.{Ps, find_live, terminate_threads, wake_waiters, kill_process}
use micro_nt.Ps.Kill.{terminate_threads-links, terminate_threads-ends}

-- The switch is to the first thread of the highest queue.
Switch-first :
    (s s' : Sched) (qs qs' : ℕ → List ℕ) (pri t : ℕ) (xs : List ℕ)
    → pri < 3
    → qs pri ≡ t ∷ xs
    → ((j : ℕ) → pri < j → j < 3 → qs j ≡ [])
    → Switch s qs s' qs'
    → (s'.current ≡ t) × (s'.state t ≡ running)
Switch-first s s' qs qs' pri t xs lt at higher (stays all) = absurd (ground (arith, at, all pri lt))
Switch-first s s' qs qs' pri t xs lt at higher
      (runs k u ys s'' lk at' higher' current quantum state) =
    let below : k ≡ pri = elim (Bool-cases (ltb k pri)) [
      | inl less ↦ absurd (ground (arith, at, higher' pri (ground (arith, less)) lt))
      | inr not_less ↦ elim (Bool-cases (ltb pri k)) [
        | inl more ↦ absurd (ground (arith, at', higher k (ground (arith, more)) lk))
        | inr not_more ↦ ground (arith, not_less, not_more)
      ]
    ] in
    let same : u ≡ t = ground (arith, sym at' ∙ ap qs below ∙ at) in
    (
      current ∙ same,
      ap (λ f. f t) state
          ∙ ap
              (λ x.
                update
                  (if is_running (s.state s.current)
                    then update s.state s.current ready
                    else s.state)
                  x running t)
              same
          ∙ update_self
              (if is_running (s.state s.current) then update s.state s.current ready else s.state) t
              running,
    )

wake_waiters-zero : (fuel : ℕ) (s : Sched) → wake_waiters fuel 0 s ≡ s
unfolding wake_waiters
wake_waiters-zero zero s = refl
wake_waiters-zero (suc fuel) s = refl

-- If the scheduler is active with its invariant true, and a registered thread of the process that
-- KillProcess ends, for which no thread waits, is the first of the highest ready queue, then
-- KillProcess makes it TERMINATED, and the next ScheduleInternal makes it current and RUNNING.
pub schedule_internal-kill_process :
    (fuel pid target : ℕ) (s : Ps) (qs : ℕ → List ℕ) (pri t : ℕ) (xs : List ℕ) (i : ℕ)
    → find_live pid s.proc_reg s.process ≡ some target
    → (s.process target).exit_waiters ≡ 0
    → get_elem? s.thread_reg i ≡ some t
    → t ≢ 0
    → s.thread_process t ≡ target
    → s.sched.active ≡ true
    → Inv s.sched qs
    → pri < 3
    → qs pri ≡ t ∷ xs
    → ((j : ℕ) → pri < j → j < 3 → qs j ≡ [])
    → let q = (kill_process fuel pid s).1 in
      (is_terminated (q.sched.state t) ≡ true)
      × ((schedule_internal q.sched).current ≡ t)
      × ((schedule_internal q.sched).state t ≡ running)
unfolding kill_process
schedule_internal-kill_process fuel pid target s qs pri t xs i e nobody at nz own active v lt queue
      higher =
    let ended : Sched = terminate_threads target s.thread_process s.thread_reg s.sched in
    let (l, c, a) = terminate_threads-links target s.thread_process s.thread_reg s.sched in
    let inv : Inv ended qs = record {
      holds = subst (λ k. Holds k qs) (sym l) v.holds;
      idle = subst (λ x. Idle x qs) (sym c) v.idle;
    } in
    let (qs', switch, _) = schedule_internal-Switch ended qs (a ∙ active) inv in
    rw (e, kill_process)
      (rw (nobody, wake_waiters-zero fuel ended)
        (
          terminate_threads-ends target s.thread_process s.thread_reg s.sched i t at nz own,
          (Switch-first ended _ qs qs' pri t xs lt queue higher switch).0,
          (Switch-first ended _ qs qs' pri t xs lt queue higher switch).1,
        ))
