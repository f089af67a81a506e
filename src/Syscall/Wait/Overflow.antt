-- ===== src/Syscall/Wait/Overflow.antt =====
-- A release that brings the count of a semaphore past the largest i32.
use micro_nt.Base.{
  ℕ, ◌+◌, ◌-◌, ◌%◌, ◌^◌, ◌≤◌, ◌<◌, ◌≡◌, refl, ap, ◌∙◌, true, false, not, ◌||◌, [], ltb, leb,
  if◌then◌else◌, arith, update_self,
}
use micro_nt.Base.Int.{pos, negsuc, is_nonpos}
use micro_nt.Syscall.{success, timeout}
use micro_nt.Syscall.Wait.{
  Kernel, Sema, sema_handle_base, sema_max, released, signed, add_count, is_above, wake_first,
  release_semaphore, wait_semaphore,
}
use micro_nt.Syscall.Wait.Fifo.{wake_first-release_all}
use micro_nt.Syscall.Wait.Semaphore.{SemaHolds}

overflows :
    (c rel most : ℕ)
    → 2 ^ 31 ≤ c + rel
    → c + rel < 2 ^ 32
    → (if is_above (add_count (pos c) rel) most then pos most else add_count (pos c) rel)
      ≡ negsuc (2 ^ 32 - 1 - (c + rel))
unfolding add_count signed is_above
overflows c rel most ge lt =
    let same : (c + rel) % 2 ^ 32 ≡ c + rel = omega (arith, lt) in
    let high : ltb (c + rel) (2 ^ 31) ≡ false = ground (arith, ge) in rw (same, high) refl

-- A wait that finds no count and does not wait.
wait_semaphore_exhausted :
    (i : ℕ) (k : Kernel) (s : Sema)
    → i < sema_max
    → k.semas i ≡ s
    → s.in_use ≡ true
    → is_nonpos s.count ≡ true
    → wait_semaphore i 0 k ≡ (timeout, k)
unfolding wait_semaphore
wait_semaphore_exhausted i k s slot at used low =
    let valid : (leb sema_max i || not (k.semas i).in_use) ≡ false =
      ground (arith, slot, ap (λ x. x.in_use) at ∙ used) in
    let none_left : is_nonpos (k.semas i).count ≡ true = ap (λ x. is_nonpos x.count) at ∙ low in
    rw (valid, none_left) refl

-- If a semaphore's slot is in use, no thread waits for it, its count is at most its maximum,
-- below 2^31, and its count and the release together reach 2^31, then, with i32 sums that wrap,
-- NtReleaseSemaphore succeeds, and a wait with timeout 0 after it returns STATUS_TIMEOUT.
pub wait_semaphore-release_semaphore :
    (i a2 : ℕ) (k : Kernel) (c : ℕ)
    → SemaHolds i k [] c
    → 2 ^ 31 ≤ c + released a2
    → let (status, k') = release_semaphore (sema_handle_base + i) a2 k in
      (status ≡ success) × (wait_semaphore i 0 k' ≡ (timeout, k'))
unfolding release_semaphore released
wait_semaphore-release_semaphore i a2 k c v ge =
    let s : Sema = k.semas i in
    let n = released a2 in
    let index : sema_handle_base + i - sema_handle_base ≡ i = omega arith in
    let valid : (ltb (sema_handle_base + i) sema_handle_base || leb sema_max i || not s.in_use)
        ≡ false =
      ground (arith, v.slot, v.used) in
    let (left, sched, holds) = wake_first-release_all n s.waiting k.ps.sched [] v.waiting in
    let small : released a2 < 2 ^ 31 = ground arith in
    let sum =
      overflows c (wake_first n s.waiting k.ps.sched).0 s.max_count (omega (arith, left, ge))
        (omega (arith, left, small, v.most, v.small)) in
    let next : Sema = record s {
      count = negsuc (2 ^ 32 - 1 - (c + (wake_first n s.waiting k.ps.sched).0));
      waiting = (wake_first n s.waiting k.ps.sched).1;
    } in
    rw (index, valid, v.count, sum)
      (refl, wait_semaphore_exhausted i _ next v.slot (update_self k.semas i next) v.used refl)
