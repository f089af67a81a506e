-- ===== src/Sched/Tests.antt =====
-- The scheduler on the machine of two threads.
use micro_nt.Base.{ℕ, List}
use micro_nt.Sched.{add_thread, schedule_internal}
use micro_nt.Sched.Switch.{Inv, Switch, schedule_internal-Switch}
use micro_nt.Sched.Machine.{machine, one_ready, one_ready-Inv, still_active}

schedule_internal-Switch_example :
    (qs' : ℕ → List ℕ) × Switch
      (add_thread 10 machine)
      one_ready
      (schedule_internal (add_thread 10 machine))
      qs'
    × Inv (schedule_internal (add_thread 10 machine)) qs'
schedule_internal-Switch_example =
    schedule_internal-Switch (add_thread 10 machine) one_ready still_active one_ready-Inv
