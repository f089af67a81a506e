-- ===== src/Sched/Sleep/Slept.antt =====
-- Sleep: the thread joins the sleepers, and until when.
use micro_nt.Base.{
  ℕ, ◌+◌, ◌*◌, ◌%◌, ◌≤◌, ◌<◌, ◌≡◌, refl, sym, subst, ◌∙◌, ◌≢◌, true, false, List, ◌∷◌, ◌==◌, arith,
  update, update_self,
}
use micro_nt.Ntdef.{word_mod}
use micro_nt.Sched.{blocked}
use micro_nt.Sched.Queues.{IsThread}
use micro_nt.Sched.Switch.{Inv, schedule_internal-Switch}
use micro_nt.Sched.Block.{Blocked, Switch-Blocked}
use micro_nt.Sched.Ring.{Off}
use micro_nt.Sched.Sleep.{Sleepers, ticks_needed, fall_asleep, sleep}
use micro_nt.Sched.Sleep.Line.{Line, Line-update}

-- 10 ms each, rounded up.
ticks_needed_bounds :
    (ms : ℕ) → ms ≢ 0 → (ms ≤ ticks_needed ms * 10) × (ticks_needed ms * 10 < ms + 10)
unfolding ticks_needed
ticks_needed_bounds ms some_time = ground arith

-- The thread `t` sleeps, before the sleepers `ts`, for `ms` at least and less than 10 ms more.
pub record Slept (t : ℕ) (ts : List ℕ) (ms now : ℕ) (r : Sleepers) : Type 0 where
  pub line : Line r.sleep_next r.sleep_head (t ∷ ts)
  pub least : now * 10 + ms ≤ r.sleep_until t * 10
  pub most : r.sleep_until t * 10 < now * 10 + ms + 10
  pub away : (qs : ℕ → List ℕ) × Blocked t r.sched qs

fall_asleep-Line :
    (ts : List ℕ) (ms now : ℕ) (s : Sleepers)
    → s.sched.current ≢ 0
    → Line s.sleep_next s.sleep_head ts
    → Off s.sched.current ts
    → Line
        (fall_asleep ms now s).sleep_next
        (fall_asleep ms now s).sleep_head
        (s.sched.current ∷ ts)
unfolding fall_asleep Line
fall_asleep-Line ts ms now s thread line off =
    let cur : ℕ = s.sched.current in
    (
      refl,
      thread,
      subst (λ h. Line (update s.sleep_next cur s.sleep_head) h ts)
          (sym (update_self s.sleep_next cur s.sleep_head))
          (Line-update s.sleep_next s.sleep_head ts cur s.sleep_head off line),
    )

-- For a time other than 0 that does not pass 2^64 ticks, with the scheduler active, its invariant
-- true, another thread ready and the current thread not among the sleepers, Sleep puts the
-- current thread before the other sleepers, BLOCKED, in no ready queue and off the processor,
-- with the invariant kept. Its wake-up tick, at 10 ms each, is at least the time asked for from
-- now and less than 10 ms more.
pub sleep-Slept :
    (ts : List ℕ) (ms now : ℕ) (s : Sleepers) (qs : ℕ → List ℕ) (pri t : ℕ) (xs : List ℕ)
    → ms ≢ 0
    → now + ticks_needed ms < word_mod
    → s.sched.active ≡ true
    → Inv s.sched qs
    → pri < 3
    → qs pri ≡ t ∷ xs
    → Line s.sleep_next s.sleep_head ts
    → Off s.sched.current ts
    → Slept s.sched.current ts ms now (sleep ms now s)
unfolding sleep fall_asleep IsThread
sleep-Slept ts ms now s qs pri t xs some_time small active v lt queue line off =
    let asleep : Sleepers = fall_asleep ms now s in
    let cur : ℕ = s.sched.current in
    let thread : cur ≢ 0 = omega (arith, v.idle.thread) in
    let here : asleep.sched.state cur ≡ blocked = update_self s.sched.state cur blocked in
    let still : Inv asleep.sched qs = record { holds = v.holds; idle = v.idle } in
    let (qs', switch, after) = schedule_internal-Switch asleep.sched qs active still in
    let (least, most) = ticks_needed_bounds ms some_time in
    let until : update s.sleep_until cur ((now + ticks_needed ms) % word_mod) cur
        ≡ now + ticks_needed ms =
      update_self s.sleep_until cur ((now + ticks_needed ms) % word_mod) ∙ omega (arith, small) in
    let m0 : ms == 0 ≡ false = ground (arith, some_time) in
    let c0 : s.sched.current == 0 ≡ false = ground (arith, thread) in
    rw (m0, sleep)
      (rw c0 (record {
        line = fall_asleep-Line ts ms now s thread line off;
        least = omega (arith, until, least);
        most = omega (arith, until, most);
        away =
            (qs', Switch-Blocked asleep.sched _ qs qs' pri t xs here still lt queue switch after);
      }))
