-- ===== src/Ldr/Load.antt =====
-- LoadPe of kernel/ldr/pe_loader.cpp with ResolveImports, NotifyImageLoaded of
-- kernel/ps/process.cpp, and LoadLibrary with its catalog. The walks over imports and names have fuel;
-- none is a walk that needs more.
pub mod Foreign
use micro_nt.Base.{
  ℕ, zero, suc, ◌+◌, ◌-◌, ◌*◌, ◌%◌, ◌/◌, ◌^◌, Bool, true, false, not, ◌&&◌, ◌||◌, Option, none,
  some, List, [], ◌∷◌, ◌++◌, length, take, ltb, leb, ◌==◌, if◌then◌else◌, bit_or, update,
}
use micro_nt.Ntdef.{page_size, word_mod}
use micro_nt.Pmm.{alloc_page, free_page}
use micro_nt.Vmm.{Words, Vmm, pte_present, pte_user, map_page_into, translate_in_pml4}
use micro_nt.Ps.{Process, Ps}
use micro_nt.Ldr.Sections.{
  Status, success, invalid_parameter, invalid_image_format, insufficient_resources, not_found,
  is_success, fill_bytes, map_sections,
}
use micro_nt.Ldr.{
  Image, Module, read16, read32, section_pte_flags, register_module, find_module, name_eq,
  image_off, find_export,
}

pub poke64 : ℕ → ℕ → Words → Words
poke64 a v mem = fill_bytes 8 0 a (λ i. v / 256 ^ i % 256) mem

pub read64 : Image → ℕ → ℕ
read64 d o = read32 d o + read32 d (o + 4) * 2 ^ 32

-- The bytes of a name in the image.
pub read_text : ℕ → Image → ℕ → Option (List ℕ)
read_text zero d o = none
read_text (suc fuel) d o =
    let rest = read_text fuel d (o + 1) in
    if d o == 0 then some [] else elim rest [ none ↦ none | some xs ↦ some (d o ∷ xs) ]

pub patch_iat_slot : ℕ → ℕ → ℕ → Vmm → Bool × Vmm
patch_iat_slot pml4 iat_va func_va s =
    let phys = translate_in_pml4 pml4 iat_va s in
    if phys == 0 then (false, s) else (true, record s { mem = poke64 phys func_va s.mem })

-- The thunks of a module from `slot` on.
pub patch_slots : ℕ → ℕ → Image → ℕ → ℕ → ℕ → ℕ → Module → Vmm → Option (Status × Vmm)
patch_slots zero slot d pml4 load_base int_off iat_rva m s = none
patch_slots (suc fuel) slot d pml4 load_base int_off iat_rva m s =
    let thunk = read64 d (int_off + slot * 8) in
    let ibn_off = image_off d (thunk % 2 ^ 32) in
    let skipped = patch_slots fuel (slot + 1) d pml4 load_base int_off iat_rva m s in
    if thunk == 0
    then some (success, s)
    else if thunk / 2 ^ 63 == 1
    then skipped
    else if ibn_off == 0
    then skipped
    else elim (read_text fuel d (ibn_off + 2)) [
      | none ↦ none
      | some fname ↦
          let func_va = find_export m fname in
          let (ok, next) =
            patch_iat_slot pml4 ((load_base + iat_rva + slot * 8) % word_mod) func_va s in
          if func_va == 0
          then some (not_found, s)
          else if not ok
          then some (insufficient_resources, next)
          else patch_slots fuel (slot + 1) d pml4 load_base int_off iat_rva m next
    ]

-- The import descriptors from the offset `id` on.
pub walk_imports : ℕ → ℕ → Image → ℕ → ℕ → List Module → Vmm → Option (Status × Vmm)
walk_imports zero id d pml4 load_base mods s = none
walk_imports (suc fuel) id d pml4 load_base mods s =
    let int_rva = read32 d id in
    let dll_rva = read32 d (id + 12) in
    let iat_rva = read32 d (id + 16) in
    let dll_off = image_off d dll_rva in
    let int_off = image_off d (if int_rva == 0 then iat_rva else int_rva) in
    let skipped = walk_imports fuel (id + 20) d pml4 load_base mods s in
    if dll_rva == 0 && iat_rva == 0
    then some (success, s)
    else if dll_off == 0
    then skipped
    else elim (read_text fuel d dll_off) [
      | none ↦ none
      | some dll_name ↦ elim (find_module dll_name mods) [
        | none ↦ some (not_found, s)
        | some m ↦
            if int_off == 0
            then skipped
            else elim (patch_slots fuel 0 d pml4 load_base int_off iat_rva m s) [
              | none ↦ none
              | some r ↦ elim (r.0) [
                | success ↦ walk_imports fuel (id + 20) d pml4 load_base mods r.1
                | invalid_parameter ↦ some r
                | invalid_image_format ↦ some r
                | insufficient_resources ↦ some r
                | not_found ↦ some r
              ]
            ]
      ]
    ]

pub resolve_imports : ℕ → Image → ℕ → ℕ → List Module → Vmm → Option (Status × Vmm)
resolve_imports fuel d pml4 load_base mods s =
    let imp_rva = read32 d (read32 d 60 + 4 + 20 + 112 + 8) in
    let imp_off = image_off d imp_rva in
    if imp_rva == 0
    then some (success, s)
    else if imp_off == 0
    then some (invalid_image_format, s)
    else walk_imports fuel imp_off d pml4 load_base mods s

-- The first process with the address space that has a PEB.
pub find_peb : ℕ → List ℕ → (ℕ → Process) → Option ℕ
find_peb cr3 [] process = none
find_peb cr3 (p ∷ ps) process =
    let rest = find_peb cr3 ps process in
    if p == 0 || not ((process p).cr3 == cr3) || (process p).peb_va == 0 then rest else some p

abbrev pub peb_va : ℕ
peb_va = 0x7FFFE000000

abbrev pub ldr_va : ℕ
ldr_va = peb_va + 0x1000

abbrev pub ldr_entry_off : ℕ
ldr_entry_off = 0x80

-- if (phys) *phys = value
pub patch : ℕ → ℕ → ℕ → Vmm → Vmm
patch cr3 va value s =
    let phys = translate_in_pml4 cr3 va s in
    if phys == 0 then s else record s { mem = poke64 phys value s.mem }

pub record Loader : Type 0 where
  pub vmm : Vmm
  pub ps : Ps
  pub modules : List Module

pub notify_image_loaded : ℕ → ℕ → Loader → Loader
notify_image_loaded cr3 image_base l = elim (find_peb cr3 l.ps.proc_reg l.ps.process) [
  | none ↦ l
  | some p ↦ record l {
    ps = record l.ps {
      process = update l.ps.process p (record (l.ps.process p) { image_base = image_base });
    };
    vmm =
        patch cr3 (ldr_va + ldr_entry_off + 0x30) image_base
          (patch cr3 (peb_va + 0x10) image_base l.vmm);
  }
]

-- MZ, PE, the machine and the magic number of the optional header
pub is_pe : Image → Bool
is_pe d =
    let e = read32 d 60 in
    d 0 == b'M'
    && d 1 == b'Z'
    && d e == b'P'
    && d (e + 1) == b'E'
    && read16 d (e + 4) == 0x8664
    && read16 d (e + 4 + 20) == 0x020B

-- The status and the entry point; `entry_out` is there.
pub load_pe : ℕ → Option Image → ℕ → ℕ → ℕ → Loader → Option (Status × ℕ × Loader)
load_pe fuel none pe_size pml4 load_base l = some (invalid_parameter, 0, l)
load_pe fuel (some d) pe_size pml4 load_base l =
    let (st, mapped) = map_sections d pe_size pml4 load_base l.vmm in
    let entry_rva = read32 d (read32 d 60 + 4 + 20 + 16) in
    if ltb pe_size 64
    then some (invalid_parameter, 0, l)
    else if not (is_pe d)
    then some (invalid_image_format, 0, l)
    else if not (is_success st)
    then some (st, 0, record l { vmm = mapped })
    else elim (resolve_imports fuel d pml4 load_base l.modules mapped) [
      | none ↦ none
      | some (status, patched) ↦
          let done = record l { vmm = patched } in
          if is_success status
          then some
              (status, (load_base + entry_rva) % word_mod, notify_image_loaded pml4 load_base done)
          else some (status, 0, done)
    ]

pub load_and_register : ℕ → List ℕ → Image → ℕ → ℕ → ℕ → Loader → Option (Status × ℕ × Loader)
load_and_register fuel name d pe_size pml4 load_base l =
    elim (load_pe fuel (some d) pe_size pml4 load_base l) [
      | none ↦ none
      | some (st, entry, next) ↦
          let mods = register_module name load_base d pe_size next.modules in
          some (st, entry, if is_success st then record next { modules = mods } else next)
    ]

pub record CatalogEntry : Type 0 where
  pub name : List ℕ
  pub image : Image
  pub size : ℕ
  pub base : ℕ

pub add_catalog : List ℕ → Image → ℕ → ℕ → List CatalogEntry → List CatalogEntry
add_catalog name image size base catalog =
    if leb 16 (length catalog)
    then catalog
    else catalog ++ record { name = take 31 name; image = image; size = size; base = base } ∷ []

pub find_catalog : List ℕ → List CatalogEntry → Option CatalogEntry
find_catalog name [] = none
find_catalog name (c ∷ cs) =
    let rest = find_catalog name cs in if name_eq c.name name then some c else rest

-- The base of the library, 0 if it is not there.
pub load_library : ℕ → List ℕ → ℕ → List CatalogEntry → Loader → Option (ℕ × Loader)
load_library fuel name pml4 catalog l = elim (find_module name l.modules) [
  | some m ↦ some (m.image_base, l)
  | none ↦ elim (find_catalog name catalog) [
    | none ↦ some (0, l)
    | some c ↦ elim (load_and_register fuel name c.image c.size pml4 c.base l) [
      | none ↦ none
      | some (st, entry, next) ↦ some (if is_success st then c.base else 0, next)
    ]
  ]
]
