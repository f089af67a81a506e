-- ===== src/Sched/Machine.antt =====
-- A machine for the tests: thread 9 runs and, after AddThread, thread 10 is ready.
use micro_nt.Base.{ℕ, ◌*◌, ◌<◌, ◌≡◌, refl, true, false, List, [], ◌∷◌, ◌++◌, arith, update}
use micro_nt.Sched.{Sched, running, init, add_thread, queue_push_back, clamp_pri}
use micro_nt.Sched.Ring.{Off}
use micro_nt.Sched.Queues.{Idle, IsThread}
use micro_nt.Sched.Switch.{Inv, init-Holds, add_thread-Inv}

abbrev pub power_on : Sched
power_on = record {
  links = record { next = λ _. 0; prev = λ _. 0 };
  priority = λ _. 1;
  state = λ _. running;
  wait_next = λ _. 0;
  has_process = λ _. false;
  process_cr3 = λ _. 0;
  stack_top = λ t. t * 0x10000;
  teb_va = λ _. 0;
  current = 9;
  active = true;
  quantum = 5;
  cpu = record { cr3 = 0x1000; rsp0 = 0; gs_base = 0 };
}

abbrev pub machine : Sched
machine = record power_on { links = (init power_on).links }

abbrev pub no_queues : ℕ → List ℕ
no_queues = λ _. []

pub all-Idle : (t : ℕ) → 3 < t → Idle t no_queues
unfolding Off IsThread
all-Idle t lt = record { thread = lt; off = λ pri le. _ }

pub machine-Inv : Inv machine no_queues
machine-Inv = record { holds = init-Holds power_on; idle = all-Idle 9 (omega arith) }

abbrev pub one_ready : ℕ → List ℕ
one_ready = update no_queues (clamp_pri 1) ([] ++ 10 ∷ [])

pub one_ready-Inv : Inv (add_thread 10 machine) one_ready
one_ready-Inv =
    (add_thread-Inv 10 machine no_queues machine-Inv (all-Idle 10 (omega arith)) (omega arith)).0

pub still_active : (add_thread 10 machine).active ≡ true
unfolding add_thread queue_push_back
still_active = refl

pub normal_queue : one_ready 1 ≡ 10 ∷ []
unfolding clamp_pri
normal_queue = refl

pub high_queue : (j : ℕ) → 1 < j → one_ready j ≡ []
unfolding clamp_pri
high_queue j lt = ground arith

pub no_waiters : (add_thread 10 machine).wait_next 11 ≡ 0
unfolding add_thread queue_push_back
no_waiters = refl

pub still_current : (add_thread 10 machine).current ≡ 9
unfolding add_thread queue_push_back
still_current = refl
