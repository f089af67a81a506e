-- ===== src/Ldr/Sections.antt =====
-- MapSections of kernel/ldr/pe_loader.cpp: the pages of the headers and of the sections of an image.
pub mod Fill
use micro_nt.Base.{
  ℕ, zero, suc, ◌+◌, ◌-◌, ◌*◌, ◌%◌, ◌/◌, ◌^◌, Bool, true, false, not, ◌&&◌, ◌||◌, ltb, leb, ◌==◌,
  if◌then◌else◌, bit_or, update,
}
use micro_nt.Ntdef.{page_size, word_mod}
use micro_nt.Pmm.{alloc_page, free_page}
use micro_nt.Vmm.{Words, Vmm, pte_present, pte_user, map_page_into}
use micro_nt.Ldr.{Image, read16, read32, section_pte_flags}

pub data Status : Type 0 where
  success invalid_parameter invalid_image_format insufficient_resources not_found : Status

pub is_success : Status → Bool
is_success success = true
is_success invalid_parameter = false
is_success invalid_image_format = false
is_success insufficient_resources = false
is_success not_found = false

-- A byte of the memory of words, and eight of them.
pub poke8 : ℕ → ℕ → Words → Words
poke8 a b mem =
    let w = mem (a / 8 * 8) in
    let unit = 256 ^ (a % 8) in update mem (a / 8 * 8) (w - w / unit % 256 * unit + b * unit)

-- The bytes `f 0`, `f 1` and so on from `i` on.
pub fill_bytes : ℕ → ℕ → ℕ → (ℕ → ℕ) → Words → Words
fill_bytes zero i p f mem = mem
fill_bytes (suc n) i p f mem = fill_bytes n (i + 1) p f (poke8 (p + i) (f i) mem)

-- A page for `va` with the bytes, or what is left without it.
pub map_filled : ℕ → ℕ → ℕ → ℕ → (ℕ → ℕ) → Vmm → Bool × Vmm
map_filled pml4 va flags n f s =
    let (phys, pmm) = alloc_page s.pmm in
    let blank = fill_bytes page_size 0 phys (λ _. 0) s.mem in
    let filled = record s { pmm = pmm; mem = fill_bytes n 0 phys f blank } in
    let (ok, mapped) = map_page_into pml4 va phys flags filled in
    if phys == 0
    then (false, record s { pmm = pmm })
    else if ok
    then (true, mapped)
    else (false, record mapped { pmm = free_page mapped.pmm phys })

-- The pages of a section from `pg` on.
pub map_pages : ℕ → ℕ → Image → ℕ → ℕ → ℕ → ℕ → ℕ → ℕ → Vmm → Bool × Vmm
map_pages zero pg d pe_size pml4 sect_va raw_off raw_size flags s = (true, s)
map_pages (suc n) pg d pe_size pml4 sect_va raw_off raw_size flags s =
    let file_off = raw_off + pg * page_size in
    let clipped = if ltb pe_size (file_off + page_size) then pe_size - file_off else page_size in
    let copy =
      if not (raw_off == 0) && not (raw_size == 0) && ltb file_off pe_size
      then (if leb ((raw_off + raw_size) % 2 ^ 32) file_off then 0 else clipped)
      else 0 in
    let (ok, next) =
      map_filled pml4 ((sect_va + pg * page_size) % word_mod) flags copy (λ i. d (file_off + i))
        s in
    let rest = map_pages n (pg + 1) d pe_size pml4 sect_va raw_off raw_size flags next in
    if ok then rest else (false, next)

-- The sections from `sh` on.
pub map_all : ℕ → ℕ → Image → ℕ → ℕ → ℕ → Vmm → Bool × Vmm
map_all zero sh d pe_size pml4 load_base s = (true, s)
map_all (suc n) sh d pe_size pml4 load_base s =
    let v_size = read32 d (sh + 8) in
    let v_rva = read32 d (sh + 12) in
    let pages = (v_size + 0xFFF) % 2 ^ 32 / 0x1000 in
    let (ok, next) =
      map_pages pages 0 d pe_size pml4 ((load_base + v_rva) % word_mod) (read32 d (sh + 20))
        (read32 d (sh + 16)) (section_pte_flags (read32 d (sh + 36))) s in
    let skipped = map_all n (sh + 40) d pe_size pml4 load_base s in
    let rest = map_all n (sh + 40) d pe_size pml4 load_base next in
    if v_size == 0 || v_rva == 0 then skipped else if ok then rest else (false, next)

pub map_sections : Image → ℕ → ℕ → ℕ → Vmm → Status × Vmm
map_sections d pe_size pml4 load_base s =
    let pe = read32 d 60 + 4 in
    let hcopy = if ltb pe_size page_size then pe_size else page_size in
    let (ok, header) = map_filled pml4 load_base (bit_or pte_present pte_user) hcopy d s in
    let (all, mapped) =
      map_all (read16 d (pe + 2)) (pe + 20 + read16 d (pe + 16)) d pe_size pml4 load_base header in
    if not ok
    then (insufficient_resources, header)
    else (if all then success else insufficient_resources, mapped)
