-- ===== src/Sync/Tests.antt =====
-- Thread 9 waits on an event while thread 10 is ready, and the event is set.
use micro_nt.Base.{ℕ, ◌≡◌, refl, true, false, List, [], ◌∷◌, arith, update_self}
use micro_nt.Sched.{Sched, add_thread, clamp_pri}
use micro_nt.Sched.Queues.{clamped}
use micro_nt.Sched.Machine.{machine, no_queues, one_ready, one_ready-Inv, still_active}
use micro_nt.Sync.{Event, event_wait}
use micro_nt.Sync.Waiters.{event_wait-Blocked}
use micro_nt.Sched.Block.{Blocked}

abbrev quiet : Event
quiet = record { signaled = false; auto_reset = true; waiters = 0 }

abbrev before : Sched
before = add_thread 10 machine

head_ready : one_ready (clamp_pri 1) ≡ 10 ∷ []
head_ready = update_self no_queues (clamp_pri 1) (10 ∷ [])

-- The event and the threads while thread 9 waits.
abbrev after : Sched
after = (event_wait 100 quiet before).2

abbrev waited_on : Event
waited_on = record quiet { waiters = before.current }

waiting : (qs' : ℕ → List ℕ) × Blocked before.current after qs'
waiting =
    (event_wait-Blocked 100 quiet before one_ready (clamp_pri 1) 10 [] refl (omega arith)
      still_active one_ready-Inv (clamped 1) head_ready).2
