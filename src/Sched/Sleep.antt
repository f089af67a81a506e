-- ===== src/Sched/Sleep.antt =====
-- Sleep, WakeSleepers and Tick of kernel/ps/scheduler.cpp. The list of sleepers runs through the
-- threads' SleepNext from s_sleep_head; `now` is what HAL::PitTicks returns.
pub mod Line
pub mod Wake
pub mod Slept
pub mod Tick
mod Tests
use micro_nt.Base.{
  ℕ, zero, suc, ◌+◌, ◌-◌, ◌*◌, ◌/◌, ◌%◌, ◌^◌, Bool, true, false, not, ◌||◌, ◌==◌, leb,
  if◌then◌else◌, update,
}
use micro_nt.Ntdef.{word_mod}
use micro_nt.Sched.{Sched, blocked, add_thread, schedule_internal}

pub record Sleepers : Type 0 where
  pub sched : Sched
  pub sleep_until : ℕ → ℕ
  pub sleep_next : ℕ → ℕ
  pub sleep_head : ℕ

-- A pointer to a link of the list: 0 for s_sleep_head, else the SleepNext of a thread.
pub read_link : ℕ → Sleepers → ℕ
read_link p s = if p == 0 then s.sleep_head else s.sleep_next p

pub write_link : ℕ → ℕ → Sleepers → Sleepers
write_link p t s =
    if p == 0
    then record s { sleep_head = t }
    else record s { sleep_next = update s.sleep_next p t }

-- The thread leaves the list for its ready queue.
pub wake_one : ℕ → ℕ → Sleepers → Sleepers
unfolding write_link
wake_one p t s =
    let out = write_link p (s.sleep_next t) s in
    record out {
      sleep_next = update out.sleep_next t 0;
      sleep_until = update out.sleep_until t 0;
      sched = add_thread t out.sched;
    }

-- The rounds of WakeSleepers from the link `p` on.
pub wake_sleepers : ℕ → ℕ → ℕ → Sleepers → Sleepers
wake_sleepers zero now p s = s
wake_sleepers (suc fuel) now p s = elim (read_link p s == 0) [
  | true ↦ s
  | false ↦ elim (leb (s.sleep_until (read_link p s)) now) [
    | true ↦ wake_sleepers fuel now p (wake_one p (read_link p s) s)
    | false ↦ wake_sleepers fuel now (read_link p s) s
  ]
]

pub tick : ℕ → ℕ → Sleepers → Sleepers
tick fuel now s =
    let woken = wake_sleepers fuel now 0 s in
    let spent = record woken.sched { quantum = woken.sched.quantum - 1 } in
    if not s.sched.active || s.sched.current == 0
    then s
    else if woken.sched.quantum == 0
    then woken
    else record woken { sched = if spent.quantum == 0 then schedule_internal spent else spent }

-- 100 ticks in a second, rounded up.
pub ticks_needed : ℕ → ℕ
ticks_needed ms = let n = (ms * 100 + 999) / 1000 in if n == 0 then 1 else n

-- The current thread joins the sleepers.
pub fall_asleep : ℕ → ℕ → Sleepers → Sleepers
fall_asleep ms now s =
    let t = s.sched.current in
    record s {
      sleep_until = update s.sleep_until t ((now + ticks_needed ms) % word_mod);
      sleep_next = update s.sleep_next t s.sleep_head;
      sleep_head = t;
      sched = record s.sched { state = update s.sched.state t blocked };
    }

pub sleep : ℕ → ℕ → Sleepers → Sleepers
unfolding fall_asleep
sleep ms now s =
    let asleep = fall_asleep ms now s in
    if ms == 0
    then s
    else if s.sched.current == 0
    then s
    else record asleep { sched = schedule_internal asleep.sched }
