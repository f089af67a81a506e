-- ===== src/Ldr/Exports.antt =====
-- FindExport over the export table of an image.
use micro_nt.Base.{
  ℕ, zero, suc, ◌+◌, ◌≤◌, ◌<◌, ◌≡◌, inl, inr, Bool, true, false, not, ◌&&◌, List, ◌==◌, arith,
  Bool-cases, refl, ◌||◌, ◌*◌, ◌%◌, ◌≢◌, if◌then◌else◌, [], ◌∷◌,
}
use micro_nt.Ntdef.{word_mod}
use micro_nt.Ldr.{
  Image, Module, Tables, read16, read32, streq, image_off, is_named, export_va, search_names,
  find_export,
}
use micro_nt.Ldr.Offsets.{Located, from_next, image_off-Located}

-- The bytes from an offset on are those of the name, then a zero.
pub Spells : Image → ℕ → List ℕ → Type 0
Spells d o [] = d o ≡ 0
Spells d o (x ∷ xs) = (d o ≡ x) × Spells d (o + 1) xs

-- The name of the j-th entry lies in a section, and is the one sought.
pub Named : Image → Tables → List ℕ → ℕ → Type 0
Named d t func_name j =
    (image_off d (read32 d (t.names + j * 4)) ≢ 0)
    × Spells d (image_off d (read32 d (t.names + j * 4))) func_name

streq-Spells : (d : Image) (o : ℕ) (name : List ℕ) → streq d o name ≡ true → Spells d o name
unfolding streq Spells
streq-Spells d o [] e = ground (arith, e)
streq-Spells d o (x ∷ xs) e = (ground (arith, e), streq-Spells d (o + 1) xs (ground (arith, e)))

Spells-streq : (d : Image) (o : ℕ) (name : List ℕ) → Spells d o name → streq d o name ≡ true
unfolding streq Spells
Spells-streq d o [] e = ground (arith, e)
Spells-streq d o (x ∷ xs) (e, es) =
    let rest = Spells-streq d (o + 1) xs es in ground (arith, e, rest)

-- The test of the text at an offset that is not 0.
off_and_text :
    (d : Image) (o : ℕ) (name : List ℕ)
    → (if o == 0 then false else streq d o name) ≡ true
    → (o ≢ 0) × Spells d o name
off_and_text d o name e = (λ z. ground (arith, e, z), streq-Spells d o name (ground (arith, e)))

is_named-Named :
    (d : Image) (t : Tables) (func_name : List ℕ) (j : ℕ)
    → is_named d t func_name j ≡ true
    → Named d t func_name j
unfolding is_named Named
is_named-Named d t func_name j e =
    off_and_text d (image_off d (read32 d (t.names + j * 4))) func_name e

Named-is_named :
    (d : Image) (t : Tables) (func_name : List ℕ) (j : ℕ)
    → is_named d t func_name j ≡ false
    → ¬ Named d t func_name j
unfolding is_named Named
Named-is_named d t func_name j e (some_off, spelt) =
    let o = image_off d (read32 d (t.names + j * 4)) in
    let nz : o == 0 ≡ false = ground (arith, some_off) in
    let same = Spells-streq d o func_name spelt in
    let no : is_named d t func_name j ≡ true = rw nz same in absurd (cc)

-- The entry that is found, and none before it: its ordinal selects the function's RVA.
pub record Found (m : Module) (t : Tables) (func_name : List ℕ) (first n va : ℕ) : Type 0 where
  pub index : ℕ
  pub above : first ≤ index
  pub below : index < first + n
  pub named : Named m.pe_data t func_name index
  pub earlier : (j : ℕ) → first ≤ j → j < index → ¬ Named m.pe_data t func_name j
  pub value :
      va
      ≡ (m.image_base + read32 m.pe_data (t.funcs + read16 m.pe_data (t.ords + index * 2) * 4))
        % word_mod

-- What a search of the names from `first` on gives.
pub data Search (m : Module) (t : Tables) (func_name : List ℕ) (first n va : ℕ) : Type 0 where
  found : Found m t func_name first n va → Search m t func_name first n va
  absent :
      ((j : ℕ) → first ≤ j → j < first + n → ¬ Named m.pe_data t func_name j)
      → va ≡ 0
      → Search m t func_name first n va

-- A search that goes past an entry of another name.
Search-suc :
    (n i : ℕ) (m : Module) (t : Tables) (func_name : List ℕ) (va : ℕ)
    → ¬ Named m.pe_data t func_name i
    → Search m t func_name (i + 1) n va
    → Search m t func_name i (suc n) va
Search-suc n i m t func_name va other (absent none_named zeroed) =
    absent
      (λ j lo hi.
        from_next i (i + 1 + n) (Named m.pe_data t func_name) other none_named j lo
          (omega (arith, hi)))
      zeroed
Search-suc n i m t func_name va other (found f) = found (record {
  index = f.index;
  above = omega (arith, f.above);
  below = omega (arith, f.below);
  named = f.named;
  earlier = from_next i f.index (Named m.pe_data t func_name) other f.earlier;
  value = f.value;
})

search_names-Search :
    (n i : ℕ) (m : Module) (t : Tables) (func_name : List ℕ)
    → Search m t func_name i n (search_names n i m t func_name)
unfolding search_names export_va
search_names-Search zero i m t func_name = absent (λ j lo hi. absurd (omega (arith, lo, hi))) refl
search_names-Search (suc n) i m t func_name = elim (Bool-cases (is_named m.pe_data t func_name i)) [
  | inl here ↦
      rw (here, search_names)
        (found (record {
          index = i;
          above = omega arith;
          below = omega arith;
          named = is_named-Named m.pe_data t func_name i here;
          earlier = λ j lo hi. absurd (omega (arith, lo, hi));
          value = refl;
        }))
  | inr later ↦
      rw (later, search_names)
        (Search-suc n i m t func_name (search_names n (i + 1) m t func_name)
          (Named-is_named m.pe_data t func_name i later)
          (search_names-Search n (i + 1) m t func_name))
]

-- The export directory of an image, and its tables.
pub directory : Image → ℕ
directory d = image_off d (read32 d (read32 d 60 + 4 + 20 + 112))

pub export_tables : Image → Tables
export_tables d = record {
  names = image_off d (read32 d (directory d + 32));
  ords = image_off d (read32 d (directory d + 36));
  funcs = image_off d (read32 d (directory d + 28));
}

-- The image has an export directory, and offsets for its tables.
pub has_exports : Image → Bool
has_exports d =
    let t = export_tables d in
    not (read32 d (read32 d 60 + 4 + 20 + 112) == 0)
    && not (directory d == 0)
    && not (t.funcs == 0 || t.names == 0 || t.ords == 0)

-- What FindExport gives, where `image_off` says at which offset the byte of an RVA lies.
pub data Exported (m : Module) (func_name : List ℕ) (va : ℕ) : Type 0 where
  searched :
      has_exports m.pe_data ≡ true
      → Search m
          (export_tables m.pe_data)
          func_name
          0
          (read32 m.pe_data (directory m.pe_data + 24))
          va
      → Exported m func_name va
  no_exports : has_exports m.pe_data ≡ false → va ≡ 0 → Exported m func_name va

find_export_cases :
    (m : Module) (func_name : List ℕ) → Exported m func_name (find_export m func_name)
unfolding find_export export_tables directory has_exports
find_export_cases m func_name =
    let d : Image = m.pe_data in
    let t : Tables = export_tables d in
    elim (Bool-cases (read32 d (read32 d 60 + 4 + 20 + 112) == 0)) [
      | inl e ↦ no_exports (rw e refl) (rw (find_export, e) refl)
      | inr e1 ↦ elim (Bool-cases (directory d == 0)) [
        | inl e ↦ no_exports (rw (e1, e) refl) (rw (find_export, e1) (rw e refl))
        | inr e2 ↦ elim (Bool-cases (t.funcs == 0 || t.names == 0 || t.ords == 0)) [
          | inl e ↦ no_exports (rw (e1, e2, e) refl) (rw (find_export, e1) (rw e2 (rw e refl)))
          | inr e3 ↦ searched (rw (e1, e2, e3) refl) (
              rw (find_export, e1)
                (rw e2 (rw e3 (search_names-Search (read32 d (directory d + 24)) 0 m t func_name))))
        ]
      ]
    ]

-- If the image has an export directory and all three of its tables lie in sections, FindExport
-- gives the module's base plus the RVA that stands in the table of functions at the ordinal of
-- the first index below NumberOfNames whose name lies in a section and is the bytes sought with a
-- zero behind them, modulo 2^64, and 0 if no index has such a name. In any other image it gives
-- 0. The offset of an RVA's byte in the file is that of the first section that holds the RVA, and
-- 0 if none does, with sums modulo 2^32.
pub find_export-Exported :
    (m : Module) (func_name : List ℕ)
    → Exported m func_name (find_export m func_name)
      × ((rva : ℕ) → Located m.pe_data rva (image_off m.pe_data rva))
find_export-Exported m func_name = (find_export_cases m func_name, image_off-Located m.pe_data)
