-- ===== src/Syscall/Memory.antt =====
-- The memory services of kernel/syscall/syscall.cpp: user memory by bytes, the heap of a process, sections
-- and their views, protection and queries. The services work for the process of the current thread.
pub mod Views
pub mod Heap
pub mod Backed
pub mod Granted
pub mod Info
pub mod Refused
use micro_nt.Base.{
  ℕ, zero, suc, ◌+◌, ◌-◌, ◌*◌, ◌%◌, ◌/◌, ◌^◌, Bool, true, false, not, ◌&&◌, ◌||◌, Option, none,
  some, ltb, leb, ◌==◌, if◌then◌else◌, update, bit_and, bit_or,
}
use micro_nt.Ntdef.{page_size, word_mod}
use micro_nt.Pmm.{alloc_page}
use micro_nt.Vmm.{
  Words, Vmm, pte_present, pte_writable, pte_user, map_page_into, unmap_page_from,
  protect_page_into, get_pte_into, translate_in_pml4,
}
use micro_nt.Ps.{Process, Ps}
use micro_nt.Ldr.Sections.{poke8, fill_bytes}
use micro_nt.Syscall.{
  Status, success, unsuccessful, invalid_parameter, not_found, info_length_mismatch,
}

pub record Section : Type 0 where
  pub phys : ℕ → ℕ
  pub page_count : ℕ
  pub in_use : Bool

-- `tid` is the Tid of each thread.
pub record Services : Type 0 where
  pub vmm : Vmm
  pub ps : Ps
  pub sections : ℕ → Section
  pub tid : ℕ → ℕ

abbrev pub max_sections : ℕ
max_sections = 8

abbrev pub heap_max : ℕ
heap_max = 0x580000000

-- The process of the current thread.
unfoldable pub caller : Ps → Option ℕ
caller ps =
    let t = ps.sched.current in
    if t == 0 then none else if ps.thread_process t == 0 then none else some (ps.thread_process t)

pub peek8 : ℕ → Words → ℕ
peek8 a mem = mem (a / 8 * 8) / 256 ^ (a % 8) % 256

pub read_user_byte : ℕ → ℕ → Vmm → ℕ
read_user_byte pml4 va s =
    let phys = translate_in_pml4 pml4 va s in if phys == 0 then 0 else peek8 phys s.mem

pub write_user_byte : ℕ → ℕ → ℕ → Vmm → Vmm
write_user_byte pml4 va b s =
    let phys = translate_in_pml4 pml4 va s in
    if phys == 0 then s else record s { mem = poke8 phys (b % 256) s.mem }

-- The `n` low bytes of a value, from byte `i` on.
pub write_user : ℕ → ℕ → ℕ → ℕ → ℕ → Vmm → Vmm
write_user zero i pml4 va v s = s
write_user (suc n) i pml4 va v s =
    write_user n (i + 1) pml4 va v (write_user_byte pml4 ((va + i) % word_mod) (v / 256 ^ i) s)

pub write_user_u64 : ℕ → ℕ → ℕ → Vmm → Vmm
write_user_u64 pml4 va v s = write_user 8 0 pml4 va v s

pub write_user_u32 : ℕ → ℕ → ℕ → Vmm → Vmm
write_user_u32 pml4 va v s = write_user 4 0 pml4 va v s

abbrev pub user_page : ℕ
user_page = bit_or (bit_or pte_present pte_writable) pte_user

-- The pages of the heap from `i` on, each zeroed; what was done stays done.
pub map_zeroed : ℕ → ℕ → ℕ → ℕ → Vmm → Bool × Vmm
map_zeroed zero i pml4 va s = (true, s)
map_zeroed (suc n) i pml4 va s =
    let (phys, pmm) = alloc_page s.pmm in
    let blank = record s { pmm = pmm; mem = fill_bytes page_size 0 phys (λ _. 0) s.mem } in
    let (ok, next) = map_page_into pml4 ((va + i * page_size) % word_mod) phys user_page blank in
    let rest = map_zeroed n (i + 1) pml4 va next in
    if phys == 0 then (false, record s { pmm = pmm }) else if ok then rest else (false, next)

-- The cursor of the process after so many pages.
pub bump : ℕ → ℕ → Services → Services
bump p pages s =
    let process = s.ps.process p in
    record s {
      ps = record s.ps {
        process = update s.ps.process p (record process {
          user_heap_cursor = (process.user_heap_cursor + pages * page_size) % word_mod;
        });
      };
    }

-- The address, 0 on failure.
pub alloc_vm : ℕ → Services → ℕ × Services
alloc_vm size s =
    let pages = (size + page_size - 1) % word_mod / page_size in
    if size == 0 then (0, s) else elim (caller s.ps) [
      | none ↦ (0, s)
      | some p ↦
          let process = s.ps.process p in
          let va = process.user_heap_cursor in
          let (ok, vmm) = map_zeroed pages 0 process.cr3 va s.vmm in
          let done = record (bump p pages s) { vmm = vmm } in
          if ltb heap_max ((va + pages * page_size) % word_mod)
          then (0, s)
          else (if ok then va else 0, done)
    ]

-- The frames of a section from `j` on, with their bytes, or what is left when there is no page.
pub fill_frames : ℕ → ℕ → (ℕ → ℕ) → ℕ → (ℕ → ℕ) → Vmm → Bool × (ℕ → ℕ) × Vmm
fill_frames zero j bytes size phys s = (true, phys, s)
fill_frames (suc n) j bytes size phys s =
    let (frame, pmm) = alloc_page s.pmm in
    let byte = λ (i : ℕ). if ltb (j * page_size + i) size then bytes (j * page_size + i) else 0 in
    let filled = record s { pmm = pmm; mem = fill_bytes page_size 0 frame byte s.mem } in
    let rest = fill_frames n (j + 1) bytes size (update phys j frame) filled in
    if frame == 0 then (false, phys, record s { pmm = pmm }) else rest

-- The first section that is free.
pub free_section : ℕ → ℕ → (ℕ → Section) → Option ℕ
free_section zero i sections = none
free_section (suc rounds) i sections =
    let rest = free_section rounds (i + 1) sections in if (sections i).in_use then rest else some i

-- The handle, 0 on failure; the frames of a section that fails are not given back.
pub create_section_from_data : (ℕ → ℕ) → ℕ → Services → ℕ × Services
create_section_from_data bytes size s =
    let pages = (size + page_size - 1) % word_mod / page_size in
    if size == 0 || ltb 32 pages then (0, s) else elim (free_section max_sections 0 s.sections) [
      | none ↦ (0, s)
      | some i ↦
          let (ok, phys, vmm) = fill_frames pages 0 bytes size (s.sections i).phys s.vmm in
          let made : Section = record { phys = phys; page_count = pages; in_use = ok } in
          (if ok then i + 1 else 0, record s { vmm = vmm; sections = update s.sections i made })
    ]

pub create_section : ℕ → Services → ℕ × Services
create_section size s = create_section_from_data (λ _. 0) size s

-- The frames from `i` on.
pub map_frames : ℕ → ℕ → ℕ → ℕ → ℕ → (ℕ → ℕ) → Vmm → Bool × Vmm
map_frames zero i pml4 va flags phys s = (true, s)
map_frames (suc n) i pml4 va flags phys s =
    let (ok, next) = map_page_into pml4 ((va + i * page_size) % word_mod) (phys i) flags s in
    let rest = map_frames n (i + 1) pml4 va flags phys next in if ok then rest else (false, next)

pub map_view : ℕ → Services → ℕ × Services
map_view h s =
    let section = s.sections (h - 1) in
    if h == 0 || ltb max_sections h
    then (0, s)
    else if not section.in_use
    then (0, s)
    else elim (caller s.ps) [
      | none ↦ (0, s)
      | some p ↦
          let process = s.ps.process p in
          let va = process.user_heap_cursor in
          let (ok, vmm) =
            map_frames section.page_count 0 process.cr3 va user_page section.phys s.vmm in
          let done = record (bump p section.page_count s) { vmm = vmm } in
          if ltb heap_max ((va + section.page_count * page_size) % word_mod)
          then (0, s)
          else (if ok then va else 0, done)
    ]

pub unmap_pages : ℕ → ℕ → ℕ → ℕ → Vmm → Vmm
unmap_pages zero j pml4 va s = s
unmap_pages (suc n) j pml4 va s =
    unmap_pages n (j + 1) pml4 va (unmap_page_from pml4 ((va + j * page_size) % word_mod) s)

-- The first section from `i` on whose first frame is at the address.
pub viewed : ℕ → ℕ → ℕ → (ℕ → Section) → Option Section
viewed zero i phys sections = none
viewed (suc rounds) i phys sections =
    let rest = viewed rounds (i + 1) phys sections in
    if (sections i).in_use && not (phys == 0) && phys == (sections i).phys 0
    then some (sections i)
    else rest

pub unmap_view : ℕ → Services → Status × Services
unmap_view va s = elim (caller s.ps) [
  | none ↦ (invalid_parameter, s)
  | some p ↦
      let cr3 = (s.ps.process p).cr3 in
      elim (viewed max_sections 0 (translate_in_pml4 cr3 va s.vmm) s.sections) [
        | none ↦ (not_found, s)
        | some section ↦ (success, record s { vmm = unmap_pages section.page_count 0 cr3 va s.vmm })
      ]
]
