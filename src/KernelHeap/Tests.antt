-- ===== src/KernelHeap/Tests.antt =====
-- The kernel heap on an arena of a page.
use micro_nt.Base.{ℕ, ◌+◌, ◌-◌, ◌^◌, ◌≡◌, refl, List, [], ◌∷◌, arith}
use micro_nt.Ntdef.Laws.{align_up_bounds}
use micro_nt.KernelHeap.{Heap, next_offset, alloc_all}
use micro_nt.KernelHeap.Alloc.{Inv, next_offset_lem}
use micro_nt.KernelHeap.Blocks.{Apart, Modest, alloc_all-Apart}

abbrev arena : Heap
arena = record { base = 0x100000; size = 4096; used = 256 }

arena-Inv : Inv 4096 arena
arena-Inv = record { above_null = omega arith; room = omega arith; within = omega arith }

wrapped : next_offset arena (2 ^ 4) + (2 ^ 64 - 240) ≡ 2 ^ 64 + 16
wrapped = omega (
  arith,
  next_offset_lem 4 4096 (omega arith) (omega arith) arena arena-Inv,
  align_up_bounds 4 (omega arith) 0x100100 (omega arith),
)

abbrev requests : List (ℕ × ℕ)
requests = (64, 16) ∷ (100, 8) ∷ []

requests-Modest : Modest 4096 4096 requests
requests-Modest = (
  4,
  omega arith,
  refl,
  omega arith,
  omega arith,
  (3, omega arith, refl, omega arith, omega arith, _),
)

alloc_all-Apart_example : Apart 0x100100 0x101000 (alloc_all arena requests).0
alloc_all-Apart_example = alloc_all-Apart 4096 requests arena arena-Inv requests-Modest
