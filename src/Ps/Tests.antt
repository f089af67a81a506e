-- ===== src/Ps/Tests.antt =====
-- A process with one thread, which is ready, and with one thread that waits for its end.
use micro_nt.Base.{not, ◌||◌, ◌==◌, ℕ, ◌≡◌, refl, false, List, [], ◌∷◌, some, arith}
use micro_nt.Sched.{clamp_pri, add_thread, schedule_internal}
use micro_nt.Sched.Machine.{
  no_queues, all-Idle, machine, one_ready, one_ready-Inv, still_active, normal_queue, high_queue,
  no_waiters, still_current,
}
use micro_nt.Sched.Ring.{Off, Distinct}
use micro_nt.Sched.Sleep.Line.{Line}
use micro_nt.Pmm.{Pmm, bitmap_test, free_page}
use micro_nt.Pmm.Alloc.{Inv, free_page-Inv, free_page_lem}
use micro_nt.Pmm.Boot.{all_reserved}
use micro_nt.Pmm.Tests.{full, full-Inv}
use micro_nt.Sched.Queues.{clamped}
use micro_nt.Sched.Switch.{Idle-update}
use micro_nt.Sched.Sleep.Tick.{Rests}
use micro_nt.Ps.Exit.{Gone, terminate_current_thread-Gone}
use micro_nt.Ps.{Process, Ps, find_live, kill_process, terminate_current_thread}
use micro_nt.Ps.Kill.{Kills, Waiting, kill_process-Kills}
use micro_nt.Ps.Revive.{schedule_internal-kill_process}

abbrev pub process_4 : Process
process_4 = record {
  pid = 4;
  cr3 = 0x1000;
  user_heap_cursor = 0x500000000;
  exit_status = 0;
  thread_count = 1;
  exited = false;
  exit_waiters = 0;
  peb_va = 0;
  image_base = 0;
}

-- Thread 10 is ready, and thread 9 runs.
abbrev pub two_threads : Ps
two_threads = record {
  sched = add_thread 10 machine;
  process = λ _. process_4;
  thread_process = λ _. 0x8000;
  proc_reg = 0x8000 ∷ [];
  thread_reg = 10 ∷ [];
  next_pid = 5;
}

found : find_live 4 two_threads.proc_reg two_threads.process ≡ some 0x8000
unfolding find_live
found = refl

schedule_internal-kill_process_example :
    (schedule_internal (kill_process 1 4 two_threads).1.sched).current ≡ 10
schedule_internal-kill_process_example =
    (schedule_internal-kill_process 1 4 0x8000 two_threads one_ready 1 10 [] 0 found refl refl
      (omega arith) refl still_active one_ready-Inv (omega arith) normal_queue
      (λ j lt _. high_queue j lt)).1

-- Thread 11 waits for the process.
abbrev waited : Ps
waited = record two_threads {
  process = λ _. record process_4 { exit_waiters = 11 };
  sched = machine;
}

waited-Waiting : Waiting 2 waited (λ _. 11 ∷ [])
unfolding Line Distinct Off
waited-Waiting = record {
  line = λ p. (refl, omega arith, refl);
  distinct = λ p. _;
  enough = λ p. omega arith;
}

kill_process-Kills_example : Kills 4 waited (λ _. 11 ∷ []) (kill_process 2 4 waited)
kill_process-Kills_example = kill_process-Kills 2 4 waited (λ _. 11 ∷ []) waited-Waiting

-- Pages 5 and 6 are free, or 5 and 7.
abbrev run_free : Pmm
run_free = free_page (free_page full 0x5000) 0x6000

abbrev scattered : Pmm
scattered = free_page (free_page full 0x5000) 0x7000

run_free-Inv : Inv run_free
run_free-Inv = free_page-Inv (free_page full 0x5000) 0x6000 (free_page-Inv full 0x5000 full-Inv)

scattered-Inv : Inv scattered
scattered-Inv = free_page-Inv (free_page full 0x5000) 0x7000 (free_page-Inv full 0x5000 full-Inv)

run_free-tests : (k : ℕ) → bitmap_test run_free.bitmap k ≡ not (k == 5 || k == 6)
run_free-tests k = ground (
  arith,
  free_page_lem (free_page full 0x5000) 0x6000 k,
  free_page_lem full 0x5000 k,
  all_reserved k,
)

scattered-tests : (k : ℕ) → bitmap_test scattered.bitmap k ≡ not (k == 5 || k == 7)
scattered-tests k = ground (
  arith,
  free_page_lem (free_page full 0x5000) 0x7000 k,
  free_page_lem full 0x5000 k,
  all_reserved k,
)

-- Thread 9 is the last of its process, which thread 11 waits for.
abbrev leaving : Ps
leaving = record waited { sched = add_thread 10 machine }

leaving-Waiting : Waiting 2 leaving (λ _. 11 ∷ [])
unfolding Line Distinct Off
leaving-Waiting = record {
  line = λ p. (refl, omega arith, no_waiters);
  distinct = λ p. _;
  enough = λ p. omega arith;
}

waiter-Rests : Rests (11 ∷ []) leaving.sched.current one_ready
unfolding Rests
waiter-Rests = (
  Idle-update 11 10 no_queues (clamp_pri 1) (all-Idle 11 (omega arith)) (omega arith) (clamped 1),
  λ e. absurd (omega (arith, e, still_current)),
  _,
)

terminate_current_thread-Gone_example :
    (qs : ℕ → List ℕ) × Gone leaving.sched.current (terminate_current_thread 2 leaving).sched qs
terminate_current_thread-Gone_example =
    (terminate_current_thread-Gone 2 leaving one_ready (λ _. 11 ∷ []) 1 10 [] leaving-Waiting
      waiter-Rests (omega arith) still_active one_ready-Inv (omega arith) normal_queue).0
