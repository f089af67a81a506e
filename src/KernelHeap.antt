-- ===== src/KernelHeap.antt =====
-- kernel/mm/heap.cpp: the bump allocator of the kernel heap, over 64-bit words and a byte memory.
-- A null pointer is 0.
pub mod Alloc
pub mod Blocks
mod Tests
use micro_nt.Base.{
  ℕ, zero, suc, ◌+◌, ◌-◌, ◌%◌, Bool, true, false, ltb, ◌==◌, if◌then◌else◌, update, List, [], ◌∷◌,
}
use micro_nt.Ntdef.{word_mod, align_up}

-- s_base, s_size and s_used
pub record Heap : Type 0 where
  pub base : ℕ
  pub size : ℕ
  pub used : ℕ

abbrev pub Memory : Type 0
Memory = ℕ → ℕ

-- for (i = 0; i < n; ++i) p[i] = 0
pub zero_bytes : ℕ → ℕ → Memory → Memory
zero_bytes zero p m = m
zero_bytes (suc n) p m = zero_bytes n (suc p) (update m p 0)

init : ℕ → ℕ → Memory → Heap × Memory
init base size m = (record { base = base; size = size; used = 0 }, zero_bytes size base m)

-- The offset at which the next block starts.
unfoldable pub next_offset : Heap → ℕ → ℕ
next_offset h align = (align_up ((h.base + h.used) % word_mod) align + word_mod - h.base) % word_mod

unfoldable pub alloc : Heap → ℕ → ℕ → ℕ × Heap
alloc h size align =
    let cur = next_offset h align in
    if ltb h.size ((cur + size) % word_mod)
    then (0, h)
    else ((h.base + cur) % word_mod, record h { used = (cur + size) % word_mod })

pub alloc_zeroed : Heap → Memory → ℕ → ℕ → ℕ × Heap × Memory
alloc_zeroed h m size align =
    let (p, h') = alloc h size align in (p, h', if p == 0 then m else zero_bytes size p m)

-- Free does nothing.
free : Heap → ℕ → Heap
free h p = h

-- operator new, at the default alignment of Alloc, and operator delete.
operator_new : Heap → ℕ → ℕ × Heap
operator_new h size = alloc h size 16

operator_delete : Heap → ℕ → Heap
operator_delete h p = free h p

used : Heap → ℕ
used h = h.used

remaining : Heap → ℕ
remaining h = (h.size + word_mod - h.used) % word_mod

-- A client's requests in order, with the blocks that were granted.
pub record Block : Type 0 where
  pub start : ℕ
  pub bytes : ℕ

pub granted : ℕ → ℕ → List Block → List Block
granted p n bs = if p == 0 then bs else (record { start = p; bytes = n }) ∷ bs

-- A request is a size and the exponent of its alignment.
pub alloc_all : Heap → List (ℕ × ℕ) → List Block × Heap
alloc_all h [] = ([], h)
alloc_all h ((n, align) ∷ rs) =
    let (p, h') = alloc h n align in let (bs, last) = alloc_all h' rs in (granted p n bs, last)
