-- ===== src/Sync/Waiters.antt =====
-- What a wait does to the thread that waits, and what a set does to the thread that it wakes.
use micro_nt.Base.{
  ℕ, ◌<◌, ◌≡◌, refl, ap, ◌∙◌, ◌≢◌, true, false, not, ◌||◌, List, [], ◌∷◌, ◌++◌, ◌==◌, arith, update,
  update_self,
}
use micro_nt.Sched.{Sched, ready, blocked, is_terminated, schedule_internal, clamp_pri}
use micro_nt.Sched.Queues.{IsThread}
use micro_nt.Sched.Switch.{
  Inv, schedule_internal-Switch, add_thread-Inv, schedule_internal-wait_next,
  unblock_thread-add_thread,
}
use micro_nt.Sched.Block.{Blocked, Switch-Blocked}
use micro_nt.Sync.{Event, event_set, event_wait, join}

-- A wait on an event that is not signaled, with a timeout other than 0, the scheduler active and
-- its invariant true, and another thread ready, makes the thread the event's first waiter, before
-- the old ones; it is BLOCKED, in no ready queue, another thread runs, and the invariant stays.
pub event_wait-Blocked :
    (ms : ℕ) (ev : Event) (s : Sched) (qs : ℕ → List ℕ) (pri t : ℕ) (xs : List ℕ)
    → ev.signaled ≡ false
    → ms ≢ 0
    → s.active ≡ true
    → Inv s qs
    → pri < 3
    → qs pri ≡ t ∷ xs
    → let (status, ev', s') = event_wait ms ev s in
      (ev' ≡ record ev { waiters = s.current })
      × (s'.wait_next s.current ≡ ev.waiters)
      × ((qs' : ℕ → List ℕ) × Blocked s.current s' qs')
unfolding event_wait IsThread
event_wait-Blocked ms ev s qs pri t xs quiet some_time active v lt queue =
    let waits : Sched = join ev s in
    let here : waits.state waits.current ≡ blocked = update_self s.state s.current blocked in
    let joined : Inv waits qs = record { holds = v.holds; idle = v.idle } in
    let (qs', switch, after) = schedule_internal-Switch waits qs active joined in
    let ne : s.current == 0 ≡ false = ground (arith, v.idle.thread) in
    let waits_on : ms == 0 ≡ false = ground arith in
    let link : (schedule_internal waits).wait_next s.current ≡ ev.waiters =
      ap (λ f. f s.current) (schedule_internal-wait_next waits)
      ∙ update_self s.wait_next s.current ev.waiters in
    rw (quiet, event_wait)
      (rw (waits_on, ne)
        (
          refl,
          link,
          (qs', Switch-Blocked waits _ qs qs' pri t xs here joined lt queue switch after),
        ))

-- If the event's first waiter is BLOCKED, in no ready queue and not current, a set takes it off
-- the waiters, makes it READY and puts it at the end of the queue of its priority. A manual event
-- is signaled, an auto-reset one keeps its signal as it was, and the scheduler's invariant stays.
pub event_set-Blocked :
    (ev : Event) (s : Sched) (qs : ℕ → List ℕ)
    → Blocked ev.waiters s qs
    → let (ev', s') = event_set ev s in
      let pri = clamp_pri (s.priority ev.waiters) in
      (ev'.waiters ≡ s.wait_next ev.waiters)
      × (ev'.signaled ≡ (not ev.auto_reset || ev.signaled))
      × (s'.state ev.waiters ≡ ready)
      × Inv s' (update qs pri (qs pri ++ ev.waiters ∷ []))
unfolding event_set IsThread
event_set-Blocked ev s qs b =
    let t = ev.waiters in
    let ne : t ≢ 0 = omega (arith, b.idle.thread) in
    let woken : Sched = record s {
      wait_next = update s.wait_next t 0;
      state = update s.state t ready;
    } in
    let here : woken.state t ≡ ready = update_self s.state t ready in
    let some_waiter : ev.waiters == 0 ≡ false = ground arith in
    let inv : Inv woken qs = record { holds = b.inv.holds; idle = b.inv.idle } in
    let (done, state) = add_thread-Inv t woken qs inv b.idle b.other in
    rw (some_waiter, event_set)
      (rw (unblock_thread-add_thread t woken ne (ap is_terminated here))
        (refl, refl, ap (λ f. f t) state ∙ update_self woken.state t ready, done))
