-- ===== src/Syscall/Wait/Blocking.antt =====
-- A thread that blocks and gives up the processor.
use micro_nt.Base.{
  ℕ, ◌<◌, ◌≡◌, ◌≢◌, sym, subst, List, [], ◌∷◌, ◌++◌, ◌==◌, true, false, arith, update, update_self,
}
use micro_nt.Sched.{Sched, blocked, block_current_thread}
use micro_nt.Sched.Queues.{IsThread}
use micro_nt.Sched.Switch.{Inv, schedule_internal-Switch, schedule_internal-wait_next}
use micro_nt.Sched.Block.{Blocked, Switch-Blocked}
use micro_nt.Sched.Ring.{Off}
use micro_nt.Syscall.Wait.{Waiting, enqueue, block}
use micro_nt.Syscall.Wait.Fifo.{Holds, enqueue-Holds}

-- The current thread is BLOCKED, in no queue, and another thread runs.
pub block-Blocked :
    (s : Sched) (qs : ℕ → List ℕ) (pri t : ℕ) (xs : List ℕ)
    → s.active ≡ true
    → Inv s qs
    → pri < 3
    → qs pri ≡ t ∷ xs
    → ((qs' : ℕ → List ℕ) × Blocked s.current (block s) qs') × ((block s).wait_next ≡ s.wait_next)
unfolding block block_current_thread IsThread
block-Blocked s qs pri t xs active v lt queue =
    let waits : Sched = record s { state = update s.state s.current blocked } in
    let some_thread : s.current == 0 ≡ false = ground (arith, v.idle.thread) in
    let joined : Inv waits qs = record { holds = v.holds; idle = v.idle } in
    let (qs', switch, after) = schedule_internal-Switch waits qs active joined in
    rw some_thread (
      (
        qs',
        Switch-Blocked waits _ qs qs' pri t xs (update_self s.state s.current blocked) joined lt
            queue switch after,
      ),
      schedule_internal-wait_next waits,
    )

-- The current thread joins the threads that wait, and blocks.
pub block-enqueue :
    (w : Waiting) (s : Sched) (ws : List ℕ) (qs : ℕ → List ℕ) (pri t : ℕ) (xs : List ℕ)
    → Holds s.wait_next w ws
    → Off s.current ws
    → s.active ≡ true
    → Inv s qs
    → pri < 3
    → qs pri ≡ t ∷ xs
    → let (w', linked) = enqueue s.current w s in
      ((qs' : ℕ → List ℕ) × Blocked s.current (block linked) qs')
      × Holds (block linked).wait_next w' (ws ++ s.current ∷ [])
unfolding enqueue IsThread
block-enqueue w s ws qs pri t xs v off active inv lt queue =
    let linked = (enqueue s.current w s).1 in
    let joined : Inv linked qs = record { holds = inv.holds; idle = inv.idle } in
    let (off_cpu, links) = block-Blocked linked qs pri t xs active joined lt queue in
    let some_thread : s.current ≢ 0 = omega (arith, inv.idle.thread) in
    (
      off_cpu,
      subst (λ f. Holds f (enqueue s.current w s).0 (ws ++ s.current ∷ [])) (sym links)
          (enqueue-Holds s.current w s ws some_thread off v),
    )
