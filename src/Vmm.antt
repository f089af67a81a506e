-- ===== src/Vmm.antt =====
-- kernel/mm/virtual_memory.cpp: four-level page tables in physical memory. Memory is a function from
-- the addresses of 64-bit words; it is mapped to itself, so a table's address is where it is read. The
-- processor's cache of translations is not modelled.
pub mod Entry
pub mod Walk
pub mod Write
pub mod Zero
pub mod Grow
pub mod Alloc
pub mod Page
pub mod Map
pub mod Edit
pub mod User
pub mod Tests
use micro_nt.Base.{
  ℕ, zero, suc, ◌+◌, ◌*◌, ◌/◌, ◌%◌, ◌^◌, Bool, true, false, not, ◌&&◌, ◌||◌, ltb, ◌==◌,
  if◌then◌else◌, update, bit_and, bit_or,
}
use micro_nt.Ntdef.{page_size, word_mod}
use micro_nt.Pmm.{Pmm, alloc_page, free_page}

abbrev pub pte_present : ℕ
pte_present = 1

abbrev pub pte_writable : ℕ
pte_writable = 2

abbrev pub pte_user : ℕ
pte_user = 4

abbrev pub pte_ps : ℕ
pte_ps = 0x80

abbrev pub pte_addr_mask : ℕ
pte_addr_mask = 0x000FFFFFFFFFF000

abbrev pub Words : Type 0
Words = ℕ → ℕ

-- s_pml4_phys and s_kvirt_next, with the memory and the allocator that the calls use.
pub record Vmm : Type 0 where
  pub mem : Words
  pub pmm : Pmm
  pub pml4_phys : ℕ
  pub kvirt_next : ℕ

-- `(v >> 39) & 0x1FF` and so on, for the levels from 3 down to 0.
abbrev pub pml4_idx : ℕ → ℕ
pml4_idx v = v / 2 ^ 39 % 512

abbrev pub pdpt_idx : ℕ → ℕ
pdpt_idx v = v / 2 ^ 30 % 512

abbrev pub pd_idx : ℕ → ℕ
pd_idx v = v / 2 ^ 21 % 512

abbrev pub pt_idx : ℕ → ℕ
pt_idx v = v / 2 ^ 12 % 512

-- &table[i]
abbrev pub slot : ℕ → ℕ → ℕ
slot table i = table + i * 8

pub is_present : ℕ → Bool
is_present e = not (bit_and e pte_present == 0)

pub is_huge : ℕ → Bool
is_huge e = not (bit_and e pte_ps == 0)

pub address : ℕ → ℕ
address e = bit_and e pte_addr_mask

-- for (i = 0; i < 512; ++i) tbl[i] = 0
pub zero_words : ℕ → ℕ → Words → Words
zero_words zero p mem = mem
zero_words (suc n) p mem = zero_words n (p + 8) (update mem p 0)

-- The child table of an entry, 0 for null.
pub get_or_alloc : ℕ → Bool → Vmm → ℕ × Vmm
get_or_alloc entry alloc s =
    let e = s.mem entry in
    let (phys, pmm) = alloc_page s.pmm in
    if is_present e
    then (if is_huge e then 0 else address e, s)
    else if not alloc
    then (0, s)
    else if phys == 0
    then (0, record s { pmm = pmm })
    else (
      phys,
      record s {
        pmm = pmm;
        mem =
            update (zero_words 512 phys s.mem) entry
              (bit_or (bit_or (bit_or phys pte_present) pte_writable) pte_user);
      },
    )

init : ℕ → Vmm → Vmm
init cr3 s = record s { pml4_phys = address cr3 }

-- (phys & PTE_ADDR_MASK) | (flags | PTE_PRESENT)
pub make_pte : ℕ → ℕ → ℕ
make_pte phys flags = bit_or (address phys) (bit_or flags pte_present)

pub map_page_into : ℕ → ℕ → ℕ → ℕ → Vmm → Bool × Vmm
map_page_into pml4 virt phys flags s =
    let (pdpt, s1) = get_or_alloc (slot pml4 (pml4_idx virt)) true s in
    let (pd, s2) = get_or_alloc (slot pdpt (pdpt_idx virt)) true s1 in
    let (pt, s3) = get_or_alloc (slot pd (pd_idx virt)) true s2 in
    if pdpt == 0
    then (false, s1)
    else if pd == 0
    then (false, s2)
    else if pt == 0
    then (false, s3)
    else (true, record s3 { mem = update s3.mem (slot pt (pt_idx virt)) (make_pte phys flags) })

pub map_page : ℕ → ℕ → ℕ → Vmm → Bool × Vmm
map_page virt phys flags s = map_page_into s.pml4_phys virt phys flags s

-- The entry leads to a table of the next level.
pub descends : ℕ → Bool
descends e = is_present e && not (is_huge e)

-- The entry of the page table that a walk ends at.
pub unmap_page_from : ℕ → ℕ → Vmm → Vmm
unmap_page_from pml4 virt s =
    let e1 = s.mem (slot pml4 (pml4_idx virt)) in
    let e2 = s.mem (slot (address e1) (pdpt_idx virt)) in
    let e3 = s.mem (slot (address e2) (pd_idx virt)) in
    if not (descends e1)
    then s
    else if not (descends e2)
    then s
    else if not (descends e3)
    then s
    else record s { mem = update s.mem (slot (address e3) (pt_idx virt)) 0 }

-- It does not look for a huge page at the first level.
pub unmap_page : ℕ → Vmm → Vmm
unmap_page virt s =
    let e1 = s.mem (slot s.pml4_phys (pml4_idx virt)) in
    let e2 = s.mem (slot (address e1) (pdpt_idx virt)) in
    let e3 = s.mem (slot (address e2) (pd_idx virt)) in
    if not (is_present e1)
    then s
    else if not (descends e2)
    then s
    else if not (descends e3)
    then s
    else record s { mem = update s.mem (slot (address e3) (pt_idx virt)) 0 }

pub protect_page_into : ℕ → ℕ → ℕ → Vmm → Bool × Vmm
protect_page_into pml4 virt flags s =
    let e1 = s.mem (slot pml4 (pml4_idx virt)) in
    let e2 = s.mem (slot (address e1) (pdpt_idx virt)) in
    let e3 = s.mem (slot (address e2) (pd_idx virt)) in
    let pte = s.mem (slot (address e3) (pt_idx virt)) in
    if not (descends e1)
    then (false, s)
    else if not (descends e2)
    then (false, s)
    else if not (descends e3)
    then (false, s)
    else if not (is_present pte)
    then (false, s)
    else (
      true,
      record s { mem = update s.mem (slot (address e3) (pt_idx virt)) (make_pte pte flags) },
    )

pub get_pte_into : ℕ → ℕ → Vmm → ℕ
get_pte_into pml4 virt s =
    let e1 = s.mem (slot pml4 (pml4_idx virt)) in
    let e2 = s.mem (slot (address e1) (pdpt_idx virt)) in
    let e3 = s.mem (slot (address e2) (pd_idx virt)) in
    if not (descends e1)
    then 0
    else if not (descends e2)
    then 0
    else if not (descends e3)
    then 0
    else s.mem (slot (address e3) (pt_idx virt))

-- The results in a page of 1 GB, of 2 MB and of 4 KB.
pub in_1gb : ℕ → ℕ → ℕ
in_1gb e virt = bit_or (bit_and e 0xFFFFFFC0000000) (bit_and virt 0x3FFFFFFF)

pub in_2mb : ℕ → ℕ → ℕ
in_2mb e virt = bit_or (bit_and e 0xFFFFFFFE00000) (bit_and virt 0x1FFFFF)

pub in_4kb : ℕ → ℕ → ℕ
in_4kb e virt = bit_or (address e) (bit_and virt 0xFFF)

pub translate_in_pml4 : ℕ → ℕ → Vmm → ℕ
translate_in_pml4 pml4 virt s =
    let e1 = s.mem (slot pml4 (pml4_idx virt)) in
    let e2 = s.mem (slot (address e1) (pdpt_idx virt)) in
    let e3 = s.mem (slot (address e2) (pd_idx virt)) in
    let pte = s.mem (slot (address e3) (pt_idx virt)) in
    if not (is_present e1)
    then 0
    else if is_huge e1
    then 0
    else if not (is_present e2)
    then 0
    else if is_huge e2
    then in_1gb e2 virt
    else if not (is_present e3)
    then 0
    else if is_huge e3
    then in_2mb e3 virt
    else if not (is_present pte)
    then 0
    else in_4kb pte virt

-- It does not look for a huge page at the first level.
pub v2p : ℕ → Vmm → ℕ
v2p virt s =
    let e1 = s.mem (slot s.pml4_phys (pml4_idx virt)) in
    let e2 = s.mem (slot (address e1) (pdpt_idx virt)) in
    let e3 = s.mem (slot (address e2) (pd_idx virt)) in
    let pte = s.mem (slot (address e3) (pt_idx virt)) in
    if not (is_present e1)
    then 0
    else if not (is_present e2)
    then 0
    else if is_huge e2
    then in_1gb e2 virt
    else if not (is_present e3)
    then 0
    else if is_huge e3
    then in_2mb e3 virt
    else if not (is_present pte)
    then 0
    else in_4kb pte virt

alloc_kernel_va : ℕ → Vmm → ℕ × Vmm
alloc_kernel_va pages s =
    (s.kvirt_next, record s { kvirt_next = (s.kvirt_next + pages * page_size) % word_mod })

-- No fault is handled.
handle_page_fault : ℕ → ℕ → Bool
handle_page_fault cr2 error_code = false

-- for (i = from; i < from + rounds; ++i): a present entry of the kernel, with the user bit.
pub share_entries : ℕ → ℕ → ℕ → ℕ → Words → Words
share_entries zero i kernel_pml4 new_pml4 mem = mem
share_entries (suc rounds) i kernel_pml4 new_pml4 mem =
    let e = mem (slot kernel_pml4 i) in
    share_entries rounds (suc i) kernel_pml4 new_pml4
      (if is_present e then update mem (slot new_pml4 i) (bit_or e pte_user) else mem)

-- for (i = 0; i < n; ++i) to[i] = from[i]
pub copy_words : ℕ → ℕ → ℕ → Words → Words
copy_words zero from to mem = mem
copy_words (suc n) from to mem = copy_words n (from + 8) (to + 8) (update mem to (mem from))

-- The memory with a new PML4 and a new PDPT in place.
pub user_tables : ℕ → ℕ → ℕ → Words → Words
user_tables kernel_pml4 new_pml4 new_pdpt mem =
    let blank = zero_words 512 new_pdpt mem in
    let e = blank (slot kernel_pml4 0) in
    update (if is_present e then copy_words 4 (address e) new_pdpt blank else blank)
      (slot new_pml4 0) (bit_or (bit_or (bit_or new_pdpt pte_present) pte_writable) pte_user)

pub create_user_pml4 : Vmm → ℕ × Vmm
create_user_pml4 s =
    let (new_pml4, p1) = alloc_page s.pmm in
    let shared = share_entries 511 1 s.pml4_phys new_pml4 (zero_words 512 new_pml4 s.mem) in
    let (new_pdpt, p2) = alloc_page p1 in
    if new_pml4 == 0
    then (0, record s { pmm = p1 })
    else if new_pdpt == 0
    then (0, record s { pmm = free_page p2 new_pml4; mem = shared })
    else (new_pml4, record s { pmm = p2; mem = user_tables s.pml4_phys new_pml4 new_pdpt shared })

abbrev user_shared_va : ℕ
user_shared_va = 0x7FFE0000

-- The page table that replaces a 2 MB page, entry by entry.
split_page : ℕ → ℕ → ℕ → Words → Words
split_page zero pt phys mem = mem
split_page (suc n) pt phys mem =
    split_page n (pt + 8) (phys + page_size)
      (update mem pt (bit_or (bit_or phys pte_present) pte_writable))

map_shared_user_data : ℕ → Vmm → Bool × Vmm
map_shared_user_data phys s =
    let slot1 = slot s.pml4_phys (pml4_idx user_shared_va) in
    let e1 = s.mem slot1 in
    let s1 = record s { mem = update s.mem slot1 (bit_or e1 pte_user) } in
    let slot2 = slot (address e1) (pdpt_idx user_shared_va) in
    let e2 = s1.mem slot2 in
    let s2 = record s1 { mem = update s1.mem slot2 (bit_or e2 pte_user) } in
    let slot3 = slot (address e2) (pd_idx user_shared_va) in
    let e3 = s2.mem slot3 in
    let (pt, pmm) = alloc_page s2.pmm in
    let filled = split_page 512 pt (bit_and e3 0x000FFFFFFFE00000) s2.mem in
    let placed =
      update filled (slot pt (pt_idx user_shared_va))
        (bit_or (bit_or (address phys) pte_present) pte_user) in
    if not (is_present e1)
    then (false, s)
    else if not (is_present e2)
    then (false, s1)
    else if not (is_present e3) || not (is_huge e3)
    then map_page user_shared_va phys (bit_or pte_present pte_user) s2
    else if pt == 0
    then (false, record s2 { pmm = pmm })
    else (
      true,
      record s2 {
        pmm = pmm;
        mem = update placed slot3 (bit_or (bit_or (bit_or pt pte_present) pte_writable) pte_user);
      },
    )
