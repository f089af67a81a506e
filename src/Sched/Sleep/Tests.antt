-- ===== src/Sched/Sleep/Tests.antt =====
-- Thread 9 runs, thread 10 is ready and thread 11 sleeps until tick 50.
use micro_nt.Base.{ℕ, ◌+◌, ◌^◌, ◌<◌, ◌≡◌, refl, List, [], ◌∷◌, arith, update}
use micro_nt.Sched.{queue_push_back, add_thread, clamp_pri}
use micro_nt.Sched.Ring.{Off, Distinct}
use micro_nt.Sched.Queues.{clamped}
use micro_nt.Sched.Switch.{Idle-update}
use micro_nt.Sched.Machine.{
  machine, no_queues, one_ready, one_ready-Inv, all-Idle, still_active, normal_queue,
}
use micro_nt.Sched.Sleep.{Sleepers, wake_sleepers, sleep, tick, ticks_needed}
use micro_nt.Sched.Sleep.Line.{Line, due, add_all, still_asleep}
use micro_nt.Sched.Sleep.Wake.{wake_sleepers_lem}
use micro_nt.Sched.Sleep.Slept.{Slept, sleep-Slept}
use micro_nt.Sched.Sleep.Tick.{Rests, Resting, tick-Resting}

abbrev sleeper : Sleepers
sleeper = record {
  sched = add_thread 10 machine;
  sleep_until = update (λ _. 0) 11 50;
  sleep_next = λ _. 0;
  sleep_head = 11;
}

one-Line : Line sleeper.sleep_next 11 (11 ∷ [])
unfolding Line
one-Line = (refl, omega arith, refl)

one-Distinct : Distinct (11 ∷ [])
unfolding Distinct Off
one-Distinct = _

wake_sleepers_lem_example :
    (wake_sleepers 2 60 0 sleeper).sched
    ≡ add_all (due 60 sleeper.sleep_until (11 ∷ [])) (add_thread 10 machine)
wake_sleepers_lem_example =
    (wake_sleepers_lem (11 ∷ []) 2 60 sleeper (omega arith) one-Line one-Distinct).1

soon : 40 + ticks_needed 25 < 2 ^ 64
unfolding ticks_needed
soon = omega arith

Off-11 : Off 9 (11 ∷ [])
unfolding Off
Off-11 = (omega arith, _)

sleep-Slept_example : Slept 9 (11 ∷ []) 25 40 (sleep 25 40 sleeper)
unfolding add_thread queue_push_back
sleep-Slept_example =
    sleep-Slept (11 ∷ []) 25 40 sleeper one_ready 1 10 [] (omega arith) soon still_active
      one_ready-Inv (omega arith) normal_queue one-Line Off-11

sleeper-Resting : Resting sleeper (11 ∷ []) one_ready
unfolding Rests add_thread queue_push_back
sleeper-Resting = record {
  inv = one_ready-Inv;
  line = one-Line;
  distinct = one-Distinct;
  rests = (
    Idle-update 11 10 no_queues (clamp_pri 1) (all-Idle 11 (omega arith)) (omega arith) (clamped 1),
    omega arith,
    _,
  );
}

tick-Resting_example :
    (qs : ℕ → List ℕ) × Resting
      (tick 2 60 sleeper)
      (still_asleep 60 sleeper.sleep_until (11 ∷ []))
      qs
tick-Resting_example =
    tick-Resting (11 ∷ []) 2 60 sleeper one_ready (omega arith) still_active sleeper-Resting
