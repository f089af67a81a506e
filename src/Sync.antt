-- ===== src/Sync.antt =====
-- kernel/sync/event.cpp: events over the scheduler. The waiters of an event form a stack through the
-- threads' WaitNext. A wait that blocks ends here where the thread is switched away from; the status
-- is the one that it returns when it runs again. Interrupts are off inside each call.
pub mod Waiters
mod Tests
use micro_nt.Base.{ℕ, Bool, true, false, not, ◌||◌, ◌==◌, if◌then◌else◌, update}
use micro_nt.KernelHeap.{Heap, Memory, alloc_zeroed}
use micro_nt.Sched.{Sched, ThreadState, ready, blocked, schedule_internal, unblock_thread}

pub data WaitStatus : Type 0 where
  success timeout unsuccessful : WaitStatus

pub record Event : Type 0 where
  pub signaled : Bool
  pub auto_reset : Bool
  pub waiters : ℕ

event_init : Bool → Bool → Event
event_init auto_reset signaled = record {
  signaled = signaled;
  auto_reset = auto_reset;
  waiters = 0;
}

-- EventAlloc: the address of the event, 0 if the heap has no room, with the events at their addresses.
pub event_alloc : Bool → Bool → Heap → Memory → (ℕ → Event) → ℕ × Heap × Memory × (ℕ → Event)
event_alloc auto_reset initially_signaled h m events =
    let (ev, h', m') = alloc_zeroed h m 64 8 in
    (
      ev,
      h',
      m',
      if ev == 0 then events else update events ev (event_init auto_reset initially_signaled),
    )

pub event_set : Event → Sched → Event × Sched
event_set ev s =
    let t = ev.waiters in
    if t == 0 then (record ev { signaled = true }, s) else (
      record ev { waiters = s.wait_next t; signaled = not ev.auto_reset || ev.signaled },
      unblock_thread t
          (record s { wait_next = update s.wait_next t 0; state = update s.state t ready }),
    )

pub event_reset : Event → Event
event_reset ev = record ev { signaled = false }

-- The thread that runs joins the waiters.
abbrev pub join : Event → Sched → Sched
join ev s = record s {
  wait_next = update s.wait_next s.current ev.waiters;
  state = update s.state s.current blocked;
}

pub event_wait : ℕ → Event → Sched → WaitStatus × Event × Sched
event_wait timeout_ms ev s =
    if ev.signaled
    then (success, record ev { signaled = not ev.auto_reset }, s)
    else if timeout_ms == 0
    then (timeout, ev, s)
    else if s.current == 0
    then (unsuccessful, ev, s)
    else (success, record ev { waiters = s.current }, schedule_internal (join ev s))
