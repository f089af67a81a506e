-- ===== src/Ps/Exit.antt =====
-- TerminateCurrentThread: the thread never runs again, and its process counts it out.
use micro_nt.Base.{
  ℕ, ◌-◌, ◌<◌, ◌≡◌, refl, ap, subst, ◌∙◌, ◌≢◌, inl, inr, true, false, List, [], ◌∷◌, ◌==◌,
  if◌then◌else◌, arith, update, update_self, Bool-cases,
}
use micro_nt.Sched.{Sched, terminated, is_terminated, is_running, schedule_internal}
use micro_nt.Sched.Queues.{Idle, IsThread}
use micro_nt.Sched.Switch.{Inv, schedule_internal-Switch}
use micro_nt.Sched.Block.{Switch-leaves}
use micro_nt.Sched.Sleep.Tick.{Rests}
use micro_nt.Ps.{Process, Ps, leave_process, terminate_current_thread}
use micro_nt.Ps.Waiters.{
  Released, release_all-Released, release_all-state, wake_waiters-release_all,
}
use micro_nt.Ps.Kill.{Waiting}

-- The scheduler after the thread left its process.
record Left (s s' : Sched) (qs qs' : ℕ → List ℕ) : Type 0 where
  released : (ws : List ℕ) × Released ws s s' qs qs'
  over : (a : ℕ) → is_terminated (s.state a) ≡ true → is_terminated (s'.state a) ≡ true

same_sched : (s : Sched) (qs : ℕ → List ℕ) → Inv s qs → Left s s qs qs
same_sched s qs v = record {
  released = (
    [],
    record {
      inv = v;
      current = refl;
      active = refl;
      kept = λ u _ i. i;
      first = λ pri t xs e. (xs, e);
    },
  );
  over = λ a e. e;
}

-- The process of a thread that left it.
pub IsCounted : Process → Process → Type 0
IsCounted p q =
    (q.thread_count ≡ p.thread_count - 1)
    × (q.exited ≡ (if p.thread_count == 1 then true else p.exited))

leave_process-Left :
    (fuel p : ℕ) (s : Ps) (qs : ℕ → List ℕ) (waiters : ℕ → List ℕ)
    → Waiting fuel s waiters
    → Rests (waiters p) s.sched.current qs
    → Inv s.sched qs
    → ((qs' : ℕ → List ℕ) × Left s.sched (leave_process fuel p s).sched qs qs')
      × (p ≢ 0 → IsCounted (s.process p) ((leave_process fuel p s).process p))
unfolding leave_process IsCounted
leave_process-Left fuel p s qs waiters v rests inv =
    let c : ℕ = (s.process p).thread_count in
    elim (Bool-cases (p == 0)) [
      | inl null ↦
          rw (null, leave_process)
            ((qs, same_sched s.sched qs inv), λ ne. absurd (ne (ground arith)))
      | inr some_process ↦ elim (Bool-cases (c == 0)) [
        | inl none_left ↦
            let zero_left : c ≡ 0 = ground arith in
            rw (some_process, none_left, leave_process)
              (
                (qs, same_sched s.sched qs inv),
                λ _. (omega (arith, zero_left), ground (arith, zero_left)),
              )
        | inr some_left ↦ elim (Bool-cases (c - 1 == 0)) [
          | inl last ↦
              let woken =
                wake_waiters-release_all (waiters p) fuel (s.process p).exit_waiters s.sched
                  (v.enough p) (v.line p) (v.distinct p) in
              let (qs', r) = release_all-Released (waiters p) s.sched qs inv (v.distinct p) rests in
              rw (some_process, some_left, last, leave_process, woken)
                (
                  (
                    qs',
                    record {
                      released = (waiters p, r);
                      over = λ a e. release_all-state (waiters p) s.sched a e;
                    },
                  ),
                  λ _. (
                    ap (λ q. q.thread_count) (update_self s.process p _),
                    ap (λ q. q.exited) (update_self s.process p _)
                        ∙ ground (arith, some_left, last),
                  ),
                )
          | inr more ↦
              rw (some_process, some_left, more, leave_process)
                (
                  (qs, same_sched s.sched qs inv),
                  λ _. (
                    ap (λ q. q.thread_count) (update_self s.process p _),
                    ap (λ q. q.exited) (update_self s.process p _) ∙ ground (arith, more),
                  ),
                )
        ]
      ]
    ]

-- A thread that has ended: another one runs, it is in no ready queue, and the queues are right.
pub record Gone (t : ℕ) (s : Sched) (qs : ℕ → List ℕ) : Type 0 where
  pub state : is_terminated (s.state t) ≡ true
  pub other : t ≢ s.current
  pub idle : Idle t qs
  pub inv : Inv s qs

not_running :
    (s : Sched) (t : ℕ) → is_terminated (s.state t) ≡ true → is_running (s.state t) ≡ false
not_running s t ended = ground (arith, ended)

-- If the scheduler is active, its invariant true and another thread ready, each process's
-- exit_waiters lead to a list of distinct threads, fewer than the fuel, the waiters of the
-- current thread's process, which is not null, are in no ready queue and not current, then after
-- TerminateCurrentThread the thread is TERMINATED, in no ready queue and not current, the
-- scheduler's invariant holds, and its process counts one thread less and has exited exactly if
-- it had before or this was the last one.
pub terminate_current_thread-Gone :
    (fuel : ℕ) (s : Ps) (qs : ℕ → List ℕ) (waiters : ℕ → List ℕ) (pri t : ℕ) (xs : List ℕ)
    → Waiting fuel s waiters
    → Rests (waiters (s.thread_process s.sched.current)) s.sched.current qs
    → s.thread_process s.sched.current ≢ 0
    → s.sched.active ≡ true
    → Inv s.sched qs
    → pri < 3
    → qs pri ≡ t ∷ xs
    → let p = s.thread_process s.sched.current in
      let q = terminate_current_thread fuel s in
      ((qs' : ℕ → List ℕ) × Gone s.sched.current q.sched qs')
      × IsCounted (s.process p) (q.process p)
unfolding terminate_current_thread IsThread
terminate_current_thread-Gone fuel s qs waiters pri t xs v rests nz active inv lt queue =
    let cur : ℕ = s.sched.current in
    let p : ℕ = s.thread_process cur in
    let ended : Ps = record s {
      sched = record s.sched { state = update s.sched.state cur terminated };
    } in
    let v' : Waiting fuel ended waiters = record {
      line = v.line;
      distinct = v.distinct;
      enough = v.enough;
    } in
    let inv' : Inv ended.sched qs = record { holds = inv.holds; idle = inv.idle } in
    let ((qs1, l), counted) = leave_process-Left fuel p ended qs waiters v' rests inv' in
    let left : Sched = (leave_process fuel p ended).sched in
    let (ws, r) = l.released in
    let over : is_terminated (left.state cur) ≡ true =
      l.over cur (ap is_terminated (update_self s.sched.state cur terminated)) in
    let over' : is_terminated (left.state left.current) ≡ true =
      ap (λ c. is_terminated (left.state c)) r.current ∙ over in
    let (ys, first) = r.first pri t xs queue in
    let (qs2, switch, after) = schedule_internal-Switch left qs1 (r.active ∙ active) r.inv in
    let (idle, state, other) =
      Switch-leaves left _ qs1 qs2 pri t ys (not_running left left.current over') r.inv lt first
        switch in
    let some_thread : cur == 0 ≡ false = ground (arith, inv.idle.thread) in
    rw (terminate_current_thread, some_thread)
      (
        (
          qs2,
          subst (λ c. Gone c (schedule_internal left) qs2) r.current
              (record {
                state = ap is_terminated state ∙ over';
                other = other;
                idle = idle;
                inv = after;
              }),
        ),
        counted nz,
      )
