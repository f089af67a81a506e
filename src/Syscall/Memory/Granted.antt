-- ===== src/Syscall/Memory/Granted.antt =====
-- NtAllocVM: when it grants a block, and what it grants.
use micro_nt.Base.{ℕ, suc, ◌+◌, ◌*◌, ◌/◌, ◌≤◌, ◌<◌, ◌≡◌, false}
use micro_nt.Ntdef.{page_size}
use micro_nt.Pmm.{alloc_page}
use micro_nt.Vmm.{Vmm}
use micro_nt.Syscall.Memory.{Services, heap_max}
use micro_nt.Syscall.Memory.Heap.{cursor, pages_of}
use micro_nt.Syscall.Memory.Backed.{entered, Backed}

-- AllocPage has no page for one of the block's pages, or MapPageInto refuses one.
pub data Stops (pml4 va : ℕ) : ℕ → ℕ → Vmm → Type 0 where
  no_page : {n i : ℕ} {s : Vmm} → (alloc_page s.pmm).0 ≡ 0 → Stops pml4 va (suc n) i s
  no_entry : {n i : ℕ} {s : Vmm} → (entered i pml4 va s).0 ≡ false → Stops pml4 va (suc n) i s
  later :
      {n i : ℕ} {s : Vmm}
      → Stops pml4 va n (i + 1) (entered i pml4 va s).1
      → Stops pml4 va (suc n) i s

-- What an allocation does.
pub data Block (size p : ℕ) (s : Services) : ℕ × Services → Type 0 where
  none_asked : size ≡ 0 → Block size p s (0, s)
  over : heap_max < cursor p s + pages_of size * page_size → Block size p s (0, s)
  partly :
      (s' : Services)
      → Stops (s.ps.process p).cr3 (cursor p s) (pages_of size) 0 s.vmm
      → cursor p s' ≡ cursor p s + pages_of size * page_size
      → Block size p s (0, s')
  granted :
      (s' : Services)
      → cursor p s + size ≤ cursor p s'
      → cursor p s' < cursor p s + size + page_size
      → cursor p s' ≤ heap_max
      → Backed (s.ps.process p).cr3 (cursor p s / 4096) (pages_of size) s.vmm s'.vmm
      → Block size p s (cursor p s, s')
