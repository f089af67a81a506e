-- ===== src/Ldr.antt =====
-- kernel/ldr/pe_loader.cpp: the headers of an image, its export table, and the registry of modules. An
-- image is a function from its offsets to bytes; a name is the list of its bytes before the zero.
pub mod Offsets
pub mod Exports
pub mod Modules
pub mod Sections
pub mod Load
mod Tests
use micro_nt.Base.{
  ℕ, zero, suc, ◌+◌, ◌-◌, ◌*◌, ◌%◌, ◌/◌, ◌^◌, Bool, true, false, not, ◌&&◌, ◌||◌, Option, none,
  some, List, [], ◌∷◌, ◌++◌, length, take, ltb, leb, ◌==◌, if◌then◌else◌, bit_or,
}
use micro_nt.Ntdef.{word_mod}
use micro_nt.Vmm.{pte_present, pte_writable, pte_user}

abbrev pub Image : Type 0
Image = ℕ → ℕ

pub read16 : Image → ℕ → ℕ
read16 d o = d o + d (o + 1) * 2 ^ 8

pub read32 : Image → ℕ → ℕ
read32 d o = d o + d (o + 1) * 2 ^ 8 + d (o + 2) * 2 ^ 16 + d (o + 3) * 2 ^ 24

pub section_pte_flags : ℕ → ℕ
section_pte_flags chars =
    let f = bit_or pte_present pte_user in
    if chars / 2 ^ 31 % 2 == 1 then bit_or f pte_writable else f

-- streq of the text at an offset and a name
pub streq : Image → ℕ → List ℕ → Bool
streq d o [] = d o == 0
streq d o (x ∷ xs) = let rest = streq d (o + 1) xs in d o == x && rest

unfoldable pub name_eq : List ℕ → List ℕ → Bool
name_eq [] [] = true
name_eq [] (y ∷ ys) = false
name_eq (x ∷ xs) [] = false
name_eq (x ∷ xs) (y ∷ ys) = let rest = name_eq xs ys in x == y && rest

pub record Module : Type 0 where
  pub name : List ℕ
  pub image_base : ℕ
  pub pe_data : Image
  pub pe_size : ℕ

abbrev pub max_modules : ℕ
max_modules = 64

-- A name of 32 bytes or more is cut.
pub register_module : List ℕ → ℕ → Image → ℕ → List Module → List Module
register_module name base image size mods =
    if leb max_modules (length mods)
    then mods
    else mods
      ++ record { name = take 31 name; image_base = base; pe_data = image; pe_size = size } ∷ []

pub find_module : List ℕ → List Module → Option Module
find_module name [] = none
find_module name (m ∷ ms) =
    let rest = find_module name ms in if name_eq m.name name then some m else rest

pub get_module_base : List ℕ → List Module → ℕ
get_module_base name mods = elim (find_module name mods) [ none ↦ 0 | some m ↦ m.image_base ]

-- The sections from `s` on.
pub rva_to_off : ℕ → ℕ → ℕ → Image → ℕ → ℕ
rva_to_off zero s shdrs d rva = 0
rva_to_off (suc rounds) s shdrs d rva =
    let sh = shdrs + s * 40 in
    let v_rva = read32 d (sh + 12) in
    let v_size = read32 d (sh + 8) in
    let raw_off = read32 d (sh + 20) in
    let rest = rva_to_off rounds (s + 1) shdrs d rva in
    if leb v_rva rva && ltb rva ((v_rva + v_size) % 2 ^ 32)
    then (raw_off + (rva - v_rva)) % 2 ^ 32
    else rest

-- The offset in the file of an RVA, over the section headers of the image.
pub image_off : Image → ℕ → ℕ
image_off d rva =
    let pe = read32 d 60 in
    let opt = pe + 4 + 20 in
    rva_to_off (read16 d (pe + 4 + 2)) 0 (opt + read16 d (pe + 4 + 16)) d rva

-- The tables of names, ordinals and functions of an image, at their offsets.
pub record Tables : Type 0 where
  pub names : ℕ
  pub ords : ℕ
  pub funcs : ℕ

-- The name that the i-th entry has.
pub is_named : Image → Tables → List ℕ → ℕ → Bool
is_named d t func_name i =
    let name_off = image_off d (read32 d (t.names + i * 4)) in
    if name_off == 0 then false else streq d name_off func_name

pub export_va : Module → Tables → ℕ → ℕ
export_va m t i =
    let func_rva = read32 m.pe_data (t.funcs + read16 m.pe_data (t.ords + i * 2) * 4) in
    (m.image_base + func_rva) % word_mod

pub search_names : ℕ → ℕ → Module → Tables → List ℕ → ℕ
search_names zero i m t func_name = 0
search_names (suc rounds) i m t func_name =
    let rest = search_names rounds (i + 1) m t func_name in
    if is_named m.pe_data t func_name i then export_va m t i else rest

pub find_export : Module → List ℕ → ℕ
find_export m func_name =
    let d = m.pe_data in
    let exp_rva = read32 d (read32 d 60 + 4 + 20 + 112) in
    let ed = image_off d exp_rva in
    let fn_off = image_off d (read32 d (ed + 28)) in
    let nm_off = image_off d (read32 d (ed + 32)) in
    let or_off = image_off d (read32 d (ed + 36)) in
    if exp_rva == 0
    then 0
    else if ed == 0
    then 0
    else if fn_off == 0 || nm_off == 0 || or_off == 0
    then 0
    else search_names (read32 d (ed + 24)) 0 m
        (record { names = nm_off; ords = or_off; funcs = fn_off }) func_name
