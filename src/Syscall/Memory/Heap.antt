-- ===== src/Syscall/Memory/Heap.antt =====
-- The heap of a process: its cursor, and sizes that wrap.
use micro_nt.Base.{
  ℕ, ◌+◌, ◌-◌, ◌*◌, ◌%◌, ◌/◌, ◌^◌, ◌≤◌, ◌<◌, ◌≡◌, ap, ◌∙◌, false, some, ltb, ◌==◌, arith,
  update_self,
}
use micro_nt.Ntdef.{page_size, word_mod}
use micro_nt.Syscall.Memory.{Services, caller, heap_max, bump, alloc_vm}

abbrev pub cursor : ℕ → Services → ℕ
cursor p s = (s.ps.process p).user_heap_cursor

pub cursor-bump :
    (p pages : ℕ) (s : Services)
    → cursor p (bump p pages s) ≡ (cursor p s + pages * page_size) % word_mod
unfolding bump
cursor-bump p pages s =
    ap (λ x. x.user_heap_cursor)
      (update_self s.ps.process p (record (s.ps.process p) {
        user_heap_cursor = (cursor p s + pages * page_size) % word_mod;
      }))

-- The pages that a size takes.
abbrev pub pages_of : ℕ → ℕ
pages_of size = (size + page_size - 1) % word_mod / page_size

-- For a size of 2^64 less k pages, with k above 0, and a caller whose cursor is within the heap's
-- limit and at k pages or more, NtAllocVM moves the cursor back by k pages.
pub alloc_vm_moves_back :
    (k p : ℕ) (s : Services)
    → 0 < k
    → k * page_size ≤ cursor p s
    → cursor p s ≤ heap_max
    → caller s.ps ≡ some p
    → cursor p (alloc_vm (2 ^ 64 - k * page_size) s).1 ≡ cursor p s - k * page_size
unfolding alloc_vm
alloc_vm_moves_back k p s pos low high is =
    let size = 2 ^ 64 - k * page_size in
    let n = (size + page_size - 1) % word_mod / page_size in
    let pages : n ≡ 2 ^ 52 - k = omega (arith, pos, low, high) in
    let va = cursor p s in
    let wraps : (va + n * page_size) % word_mod ≡ va - k * page_size =
      omega (arith, pages, low, high) in
    let asked : size == 0 ≡ false = ground (arith, low, high) in
    let fits : ltb heap_max (va - k * page_size) ≡ false = ground (arith, high) in
    rw (asked, is, wraps, fits, alloc_vm) (cursor-bump p n s ∙ wraps)
