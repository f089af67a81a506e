-- ===== src/Sched/Switch.antt =====
-- ScheduleInternal: which thread runs next, and where the one before goes.
use micro_nt.Base.{
  ◌||◌, ℕ, ◌<◌, ◌≡◌, refl, sym, ap, subst, ◌≢◌, inl, inr, true, false, List, [], ◌∷◌, ◌++◌, ◌==◌,
  if◌then◌else◌, arith, update, Bool-cases,
}
use micro_nt.Sched.{
  Links, Sched, ready, running, is_running, quantum_ticks, queue_remove, queue_pop, queue_push_back,
  clamp_pri, requeue, switch_to, schedule_internal, init, add_thread, unblock_thread, is_terminated,
}
use micro_nt.Sched.Ring.{Off, Chain, Distinct}
use micro_nt.Sched.Queues.{
  Apart, Holds, Idle, IsThread, Pop, none_ready, taken, queue_pop-Pop, queue_remove-Holds,
  first-Idle, queue_push_back-Holds, clamped, Off-append,
}

-- The queues after the thread that ran went back, if it was running still.
abbrev pub requeued : Sched → (ℕ → List ℕ) → ℕ → List ℕ
requeued s qs =
    let pri = clamp_pri (s.priority s.current) in
    if is_running (s.state s.current) then update qs pri (qs pri ++ s.current ∷ []) else qs

-- What one call does, with the queues before and after.
pub data Switch (s : Sched) (qs : ℕ → List ℕ) : Sched → (ℕ → List ℕ) → Type 0 where
  stays : ((j : ℕ) → j < 3 → qs j ≡ []) → Switch s qs s qs
  runs :
      (pri t : ℕ) (xs : List ℕ) (s' : Sched)
      → pri < 3
      → qs pri ≡ t ∷ xs
      → ((j : ℕ) → pri < j → j < 3 → qs j ≡ [])
      → s'.current ≡ t
      → s'.quantum ≡ quantum_ticks
      → s'.state
        ≡ update
            (if is_running (s.state s.current) then update s.state s.current ready else s.state)
            t
            running
      → Switch s qs s' (requeued s (update qs pri xs))

-- The invariant between calls: the links hold the queues, and the thread that runs is in none.
pub record Inv (s : Sched) (qs : ℕ → List ℕ) : Type 0 where
  pub holds : Holds s.links qs
  pub idle : Idle s.current qs

-- An idle thread that another one does not displace stays idle.
pub Idle-update :
    (t u : ℕ) (qs : ℕ → List ℕ) (pri : ℕ)
    → Idle t qs
    → t ≢ u
    → pri < 3
    → Idle t (update qs pri (qs pri ++ u ∷ []))
Idle-update t u qs pri i ne lt = record {
  thread = i.thread;
  off = λ j lj. elim (Bool-cases (j == pri)) [
    | inl hit ↦ rw hit (Off-append t u (qs pri) (i.off pri lt) ne)
    | inr miss ↦ rw miss (i.off j lj)
  ];
}

-- A queue that loses its first thread.
pub Idle-tail :
    (t u : ℕ) (qs : ℕ → List ℕ) (pri : ℕ) (xs : List ℕ)
    → pri < 3
    → qs pri ≡ u ∷ xs
    → Idle t qs
    → Idle t (update qs pri xs) × (t ≢ u)
unfolding Off
Idle-tail t u qs pri xs lt queue i = (
  record {
    thread = i.thread;
    off = λ j lj. elim (Bool-cases (j == pri)) [
      | inl hit ↦ rw hit (all.1)
      | inr miss ↦ rw miss (i.off j lj)
    ];
  },
  all.0,
)
  where
    all : Off t (u ∷ xs)
    all = subst (Off t) queue (i.off pri lt)

requeue-Inv :
    (s : Sched) (qs : ℕ → List ℕ) (next : ℕ)
    → Inv s qs
    → Idle next qs
    → next ≢ s.current
    → Holds (requeue s.current s).links (requeued s qs) × Idle next (requeued s qs)
unfolding requeue
requeue-Inv s qs next v i ne = elim (Bool-cases (is_running (s.state s.current))) [
  | inl still ↦
      rw (still, requeue)
        (
          queue_push_back-Holds s.current _ qs v.holds v.idle,
          Idle-update next s.current qs (clamp_pri (s.priority s.current)) i ne
              (clamped (s.priority s.current)),
        )
  | inr stopped ↦ rw (stopped, requeue) (v.holds, i)
]

requeue-state :
    (s : Sched)
    → (requeue s.current s).state
      ≡ (if is_running (s.state s.current) then update s.state s.current ready else s.state)
unfolding requeue queue_push_back
requeue-state s = ground arith

schedule_internal-none :
    (s : Sched)
    → s.active ≡ true
    → s.current ≢ 0
    → queue_pop 3 s.links ≡ (0, s.links)
    → schedule_internal s ≡ s
unfolding schedule_internal
schedule_internal-none s active some_current e =
    let ne : s.current == 0 ≡ false = ground arith in rw (active, ne, schedule_internal) (rw e refl)

schedule_internal-some :
    (s : Sched) (t : ℕ) (l : Links)
    → s.active ≡ true
    → s.current ≢ 0
    → queue_pop 3 s.links ≡ (t, l)
    → t ≢ 0
    → t ≢ s.current
    → schedule_internal s ≡ switch_to t (record s { links = l })
unfolding schedule_internal
schedule_internal-some s t l active some_current e some_next other =
    let ne : s.current == 0 ≡ false = ground arith in
    let next : t == 0 ≡ false = ground arith in
    let not_same : t == s.current ≡ false = ground arith in
    rw (active, ne, schedule_internal) (rw e (rw (next, not_same) refl))

-- The outcome of a call, with the queues that are left.
Outcome : Sched → (ℕ → List ℕ) → Sched → Type 0
Outcome s qs s' = (qs' : ℕ → List ℕ) × Switch s qs s' qs' × Inv s' qs'

-- The switch to a thread that left the queue of its priority.
switch_to-Outcome :
    (s : Sched) (qs : ℕ → List ℕ) (pri t : ℕ) (xs : List ℕ)
    → Inv s qs
    → pri < 3
    → qs pri ≡ t ∷ xs
    → ((j : ℕ) → pri < j → j < 3 → qs j ≡ [])
    → Outcome s qs (switch_to t (record s { links = queue_remove t s.links }))
unfolding switch_to Outcome
switch_to-Outcome s qs pri t xs v lt queue higher =
    let (idle, other) = Idle-tail s.current t qs pri xs lt queue v.idle in
    let popped : Sched = record s { links = queue_remove t s.links } in
    let left : Inv popped (update qs pri xs) = record {
      holds = queue_remove-Holds s.links qs v.holds pri lt t xs queue;
      idle = idle;
    } in
    let (holds, free) =
      requeue-Inv popped (update qs pri xs) t left (first-Idle s.links qs v.holds pri lt t xs queue)
        (λ e. other (sym e)) in
    (
      requeued s (update qs pri xs),
      runs pri t xs _ lt queue higher refl refl
          (ap (λ f. update f t running) (requeue-state popped)),
      record { holds = holds; idle = free },
    )

Pop-Outcome :
    (s : Sched) (qs : ℕ → List ℕ) (r : ℕ × Links)
    → Inv s qs
    → Pop 3 s.links qs r
    → queue_pop 3 s.links ≡ r
    → s.active ≡ true
    → Outcome s qs (schedule_internal s)
unfolding Outcome IsThread
Pop-Outcome s qs r v (none_ready all) e active =
    rw (schedule_internal-none s active (omega (arith, v.idle.thread)) e) (qs, stays all, v)
Pop-Outcome s qs r v (taken pri t xs lt queue higher) e active =
    let (_, other) = Idle-tail s.current t qs pri xs lt queue v.idle in
    let thread = (first-Idle s.links qs v.holds pri lt t xs queue).thread in
    rw
      (schedule_internal-some s t _ active (omega (arith, v.idle.thread)) e (omega (arith, thread))
        (λ e. other (sym e)))
      (switch_to-Outcome s qs pri t xs v lt queue higher)

-- If the scheduler is active, the links hold the queues and the current thread is in none,
-- ScheduleInternal runs the first thread of the highest priority that has one: it becomes current
-- and RUNNING with a whole quantum, and the old thread goes to the end of the queue of its own
-- priority, READY, if it was RUNNING, and to no queue otherwise. With no thread ready nothing
-- changes. The links hold the queues after the call too, and the new current thread is in none.
pub schedule_internal-Switch :
    (s : Sched) (qs : ℕ → List ℕ)
    → s.active ≡ true
    → Inv s qs
    → (qs' : ℕ → List ℕ) × Switch s qs (schedule_internal s) qs' × Inv (schedule_internal s) qs'
unfolding Outcome
schedule_internal-Switch s qs active v =
    Pop-Outcome s qs (queue_pop 3 s.links) v (queue_pop-Pop 3 s.links qs (omega arith) v.holds) refl
      active

-- Init leaves three empty queues.
pub init-Holds : (s : Sched) → Holds (init s).links (λ pri. [])
unfolding init Chain Off Distinct Apart
init-Holds s = record {
  ring =
      λ pri lt. record { chain = (ground arith, ground arith); distinct = _; threads = λ i le. _ };
  apart = λ i j li lj ne. _;
}

-- AddThread, for a thread that no queue holds and that is not current, puts it at the end of the
-- queue of its priority, makes it READY and no other thread, and the invariant stays.
pub add_thread-Inv :
    (t : ℕ) (s : Sched) (qs : ℕ → List ℕ)
    → Inv s qs
    → Idle t qs
    → t ≢ s.current
    → let pri = clamp_pri (s.priority t) in
      Inv (add_thread t s) (update qs pri (qs pri ++ t ∷ []))
      × ((add_thread t s).state ≡ update s.state t ready)
unfolding add_thread queue_push_back
add_thread-Inv t s qs v i ne =
    let pri = clamp_pri (s.priority t) in
    (
      record {
        holds = queue_push_back-Holds t (record s { state = update s.state t ready }) qs v.holds i;
        idle = Idle-update s.current t qs pri v.idle (λ e. ne (sym e)) (clamped (s.priority t));
      },
      refl,
    )

pub schedule_internal-wait_next : (s : Sched) → (schedule_internal s).wait_next ≡ s.wait_next
unfolding schedule_internal switch_to requeue queue_push_back
schedule_internal-wait_next s = ground arith

-- UnblockThread is AddThread for a thread that has not ended.
pub unblock_thread-add_thread :
    (t : ℕ) (s : Sched)
    → t ≢ 0
    → is_terminated (s.state t) ≡ false
    → unblock_thread t s ≡ add_thread t s
unfolding unblock_thread add_thread
unblock_thread-add_thread t s nt live =
    let some_thread : t == 0 ≡ false = ground arith in
    rw (some_thread, unblock_thread) (rw live refl)

-- What UnblockThread changes of a thread.
pub unblock_thread-state :
    (t : ℕ) (s : Sched)
    → (unblock_thread t s).state
      ≡ (if t == 0 || is_terminated (s.state t) then s.state else update s.state t ready)
unfolding unblock_thread queue_push_back
unblock_thread-state t s = ground arith

pub unblock_thread-wait_next : (t : ℕ) (s : Sched) → (unblock_thread t s).wait_next ≡ s.wait_next
unfolding unblock_thread queue_push_back
unblock_thread-wait_next t s = ground arith

pub unblock_thread-ended :
    (t : ℕ) (s : Sched) → is_terminated (s.state t) ≡ true → unblock_thread t s ≡ s
unfolding unblock_thread
unblock_thread-ended t s ended = ground (arith, ended)

pub unblock_thread-current :
    (t : ℕ) (s : Sched)
    → ((unblock_thread t s).current ≡ s.current) × ((unblock_thread t s).active ≡ s.active)
unfolding unblock_thread queue_push_back
unblock_thread-current t s = (ground arith, ground arith)
