-- ===== src/Syscall/Wait/Semaphore.antt =====
-- Semaphores: what a wait and a release do to the count and to the threads that wait.
use micro_nt.Base.{
  ℕ, zero, suc, ◌+◌, ◌-◌, ◌%◌, ◌^◌, ◌≤◌, ◌<◌, ◌≡◌, refl, ap, ◌∙◌, ◌≢◌, inl, inr, true, false, not,
  ◌||◌, List, [], ◌∷◌, ◌++◌, length, get_elem?, some, take, drop, ltb, leb, ◌==◌, if◌then◌else◌,
  arith, update_self, update_ne, Bool-cases,
}
use micro_nt.Base.Int.{pos}
use micro_nt.Sched.Ring.{Off}
use micro_nt.Sched.Queues.{IsThread}
use micro_nt.Sched.Switch.{Inv}
use micro_nt.Sched.Block.{Blocked}
use micro_nt.Sched.{is_terminated, ready}
use micro_nt.Ps.Waiters.{release_all, release_all-ready}
use micro_nt.Syscall.{Status, success, timeout}
use micro_nt.Syscall.Wait.{
  Kernel, Sema, sema_handle_base, sema_max, wake_first, released, enqueue, signed, add_count,
  is_above, one_less, release_semaphore, wait_semaphore,
}
use micro_nt.Syscall.Wait.Fifo.{Holds, wake_first-release_all}
use micro_nt.Syscall.Wait.Blocking.{block-enqueue}

-- The semaphore of a slot, with its count and the threads that wait for it.
pub record SemaHolds (i : ℕ) (k : Kernel) (ws : List ℕ) (c : ℕ) : Type 0 where
  pub slot : i < sema_max
  pub used : (k.semas i).in_use ≡ true
  pub count : (k.semas i).count ≡ pos c
  pub most : c ≤ (k.semas i).max_count
  pub small : (k.semas i).max_count < 2 ^ 31
  pub busy : 0 < c → ws ≡ []
  pub waiting : Holds k.ps.sched.wait_next (k.semas i).waiting ws

drop-all : (n : ℕ) (xs : List ℕ) → length xs ≤ n → drop n xs ≡ []
drop-all zero [] le = refl
drop-all zero (x ∷ xs) le = absurd (omega (arith, le))
drop-all (suc n) [] le = refl
drop-all (suc n) (x ∷ xs) le = drop-all n xs (omega (arith, le))

abbrev at_most : ℕ → ℕ → ℕ
at_most most n = if ltb most n then most else n

-- The count after a release.
counted :
    (c rel most : ℕ)
    → c + rel < 2 ^ 31
    → (if is_above (add_count (pos c) rel) most then pos most else add_count (pos c) rel)
      ≡ pos (at_most most (c + rel))
unfolding add_count signed is_above
counted c rel most lt =
    let same : (c + rel) % 2 ^ 32 ≡ c + rel = omega (arith, lt) in
    let low : ltb (c + rel) (2 ^ 31) ≡ true = ground (arith, lt) in
    rw (same, low)
      (elim (Bool-cases (ltb most (c + rel))) [ inl e ↦ rw e refl | inr e ↦ rw e refl ])

-- If a semaphore's slot is in use, its waiters are distinct threads linked from head to tail, its
-- count is at most its maximum, below 2^31, and more than 0 only without waiters, and count and
-- release together stay below 2^31, NtReleaseSemaphore succeeds: it unblocks the first waiters,
-- in order and as many as it releases, so that each of them that is not TERMINATED is READY, adds
-- what is left to the count up to the maximum, keeps all of this true of the semaphore, and
-- changes no other semaphore and no mutant.
pub release_semaphore_lem :
    (i a2 : ℕ) (k : Kernel) (ws : List ℕ) (c : ℕ)
    → SemaHolds i k ws c
    → c + released a2 < 2 ^ 31
    → let (status, k') = release_semaphore (sema_handle_base + i) a2 k in
      let n = released a2 in
      (status ≡ success)
      × (k'.ps.sched ≡ release_all (take n ws) k.ps.sched)
      × SemaHolds i k' (drop n ws) (at_most (k.semas i).max_count (c + (n - length ws)))
      × ((j a : ℕ)
          → get_elem? (take n ws) j ≡ some a
          → a ≢ 0
          → is_terminated (k.ps.sched.state a) ≡ false
          → k'.ps.sched.state a ≡ ready)
      × ((j : ℕ) → j ≢ i → k'.semas j ≡ k.semas j)
      × (k'.mutants ≡ k.mutants)
unfolding release_semaphore
release_semaphore_lem i a2 k ws c v lt =
    let s : Sema = k.semas i in
    let n = released a2 in
    let index : sema_handle_base + i - sema_handle_base ≡ i = omega arith in
    let valid : (ltb (sema_handle_base + i) sema_handle_base || leb sema_max i || not s.in_use)
        ≡ false =
      ground (arith, v.slot, v.used) in
    let (left, sched, holds) = wake_first-release_all n s.waiting k.ps.sched ws v.waiting in
    let sum =
      counted c (wake_first n s.waiting k.ps.sched).0 s.max_count (omega (arith, left, lt)) in
    let r = wake_first n s.waiting k.ps.sched in
    let next : Sema = record s { count = pos (at_most s.max_count (c + r.0)); waiting = r.1 } in
    rw (index, valid, v.count, sum)
      (
        refl,
        sched,
        record {
          slot = v.slot;
          used = ap (λ x. x.in_use) (update_self k.semas i next) ∙ v.used;
          count =
              ap (λ x. x.count) (update_self k.semas i next)
              ∙ ap (λ x. pos (at_most s.max_count (c + x))) left;
          most = rw (update_self k.semas i next) (ground arith);
          small = rw (update_self k.semas i next) v.small;
          busy = λ some_left. drop-all n ws (elim (Bool-cases (ltb 0 c)) [
            | inl free ↦ omega (arith, ap length (v.busy (ground arith)))
            | inr full ↦ ground (arith, some_left, full)
          ]);
          waiting = rw (update_self k.semas i next) holds;
        },
        λ j a at nz live.
            ap (λ q. q.state a) sched ∙ release_all-ready (take n ws) k.ps.sched j a at nz live,
        λ j ne. update_ne k.semas i j next ne,
        refl,
      )

-- What a wait does.
pub data SemaWait (i a2 : ℕ) (ws : List ℕ) (c : ℕ) (k : Kernel) : Status × Kernel → Type 0 where
  took :
      (k' : Kernel)
      → 0 < c
      → SemaHolds i k' ws (c - 1)
      → k'.ps ≡ k.ps
      → SemaWait i a2 ws c k (success, k')
  gave_up : c ≡ 0 → a2 ≡ 0 → SemaWait i a2 ws c k (timeout, k)
  queued :
      (k' : Kernel) (qs : ℕ → List ℕ)
      → c ≡ 0
      → a2 ≢ 0
      → SemaHolds i k' (ws ++ k.ps.sched.current ∷ []) 0
      → Blocked k.ps.sched.current k'.ps.sched qs
      → SemaWait i a2 ws c k (success, k')

-- If a semaphore's slot is in use, its waiters are distinct threads linked from head to tail, and
-- its count is at most its maximum, below 2^31, and more than 0 only without waiters, then, with
-- the scheduler active, its invariant true, another thread ready, and the current thread not a
-- waiter, NtWaitForSingleObject on a semaphore takes one from a count above 0; at 0 it returns
-- STATUS_TIMEOUT and changes nothing if the timeout is 0, and otherwise puts the thread behind
-- the waiters, BLOCKED and in no ready queue, while another thread runs. All of this stays true
-- of the semaphore.
pub wait_semaphore-SemaWait :
    (i a2 : ℕ) (k : Kernel) (ws : List ℕ) (c : ℕ) (qs : ℕ → List ℕ) (pri t : ℕ) (xs : List ℕ)
    → SemaHolds i k ws c
    → Off k.ps.sched.current ws
    → k.ps.sched.active ≡ true
    → Inv k.ps.sched qs
    → pri < 3
    → qs pri ≡ t ∷ xs
    → SemaWait i a2 ws c k (wait_semaphore i a2 k)
unfolding wait_semaphore one_less IsThread
wait_semaphore-SemaWait i a2 k ws zero qs pri t xs v off active inv lt queue =
    let s : Sema = k.semas i in
    let valid : (leb sema_max i || not s.in_use) ≡ false = ground (arith, v.slot, v.used) in
    elim (Bool-cases (a2 == 0)) [
      | inl now ↦ rw (valid, v.count, now) (gave_up refl (ground (arith, now)))
      | inr later ↦
          let cur = k.ps.sched.current in
          let ((qs', blocked), holds) =
            block-enqueue s.waiting k.ps.sched ws qs pri t xs v.waiting off active inv lt queue in
          let next : Sema = record s {
            count = pos 0;
            waiting = (enqueue cur s.waiting k.ps.sched).0;
          } in
          rw (valid, v.count, later)
            (queued _ qs' refl (ground (arith, later))
              (record {
                slot = v.slot;
                used = ap (λ x. x.in_use) (update_self k.semas i next) ∙ v.used;
                count = ap (λ x. x.count) (update_self k.semas i next);
                most = omega arith;
                small = rw (update_self k.semas i next) v.small;
                busy = λ some_left. absurd (omega (arith, some_left));
                waiting = rw (update_self k.semas i next) holds;
              })
              blocked)
    ]
wait_semaphore-SemaWait i a2 k ws (suc c) qs pri t xs v off active inv lt queue =
    let s : Sema = k.semas i in
    let valid : (leb sema_max i || not s.in_use) ≡ false = ground (arith, v.slot, v.used) in
    let next : Sema = record s { count = pos (suc c - 1) } in
    rw (valid, v.count)
      (took _ (omega arith)
        (record {
          slot = v.slot;
          used = ap (λ x. x.in_use) (update_self k.semas i next) ∙ v.used;
          count = ap (λ x. x.count) (update_self k.semas i next);
          most = rw (update_self k.semas i next) (omega (arith, v.most));
          small = rw (update_self k.semas i next) v.small;
          busy = λ some_left. v.busy (omega arith);
          waiting = rw (update_self k.semas i next) v.waiting;
        })
        refl)
