-- ===== src/Vfs/Data.antt =====
-- WWrite and WRead: what a node holds, and the bounds of both.
use micro_nt.Base.{
  get_elem?-lt, ℕ, suc, ◌+◌, ◌-◌, ◌%◌, ◌^◌, ◌≤◌, ◌<◌, ◌≡◌, refl, ap, ap₂, sym, ◌∙◌, ◌≢◌, true, some,
  List, [], ◌∷◌, ltb, if◌then◌else◌, arith, length, get_elem?, set, take, slice, update,
  length-take, get_elem?-set_self, get_elem?-set_ne, Bool-cases, inl, inr,
}
use micro_nt.Vfs.{WNode, wnode_data_max, room_for, append_bytes, wwrite, wread, wsize}
use micro_nt.Vfs.Nodes.{Inv, set-Inv}
use micro_nt.Vfs.Nodes.Search.{answers}

-- Appending moves the size and keeps the bytes below it, and every other field.
pub append_bytes_lem :
    (xs : List ℕ) (n : WNode)
    → n.size + length xs ≤ wnode_data_max
    → ((append_bytes xs n).size ≡ n.size + length xs)
      × ((append_bytes xs n).name ≡ n.name)
      × ((append_bytes xs n).used ≡ n.used)
      × ((append_bytes xs n).is_dir ≡ n.is_dir)
unfolding append_bytes
append_bytes_lem [] n h = (omega arith, refl, refl, refl)
append_bytes_lem (x ∷ xs) n h = ground (
  arith,
  append_bytes_lem xs (record n { bytes = update n.bytes n.size x; size = (n.size + 1) % 2 ^ 32 }),
)

append_bytes-below :
    (xs : List ℕ) (n : WNode) (a : ℕ)
    → n.size + length xs ≤ wnode_data_max
    → a < n.size
    → (append_bytes xs n).bytes a ≡ n.bytes a
unfolding append_bytes
append_bytes-below [] n a h lt = refl
append_bytes-below (x ∷ xs) n a h lt = ground (
  arith,
  append_bytes-below xs (record n { bytes = update n.bytes n.size x; size = (n.size + 1) % 2 ^ 32 })
      a,
)

-- The bytes that were appended are those that follow the old size.
slice-append_bytes :
    (xs : List ℕ) (n : WNode)
    → n.size + length xs ≤ wnode_data_max
    → slice (append_bytes xs n).bytes n.size (length xs) ≡ xs
unfolding append_bytes
slice-append_bytes [] n h = refl
slice-append_bytes (x ∷ xs) n h =
    let m : WNode = record n { bytes = update n.bytes n.size x; size = (n.size + 1) % 2 ^ 32 } in
    let next : m.size ≡ suc n.size = omega arith in
    ap₂ ◌∷◌ (append_bytes-below xs m n.size (omega arith) (omega arith) ∙ ground arith) (
      ap (λ (t : ℕ). slice (append_bytes xs m).bytes t (length xs)) (sym next)
      ∙ slice-append_bytes xs m (omega arith))

abbrev pub taken : WNode → List ℕ → List ℕ
taken n src = take (room_for n (length src)) src

length-taken :
    (n : WNode) (src : List ℕ)
    → n.size ≤ wnode_data_max
    → (length (taken n src) ≡ room_for n (length src))
      × (n.size + length (taken n src) ≤ wnode_data_max)
length-taken n src h = ground (arith, length-take (room_for n (length src)) src)

-- A read from the old size gives the rest, also where nothing was appended.
read_rest :
    (b : ℕ → ℕ) (off size c len : ℕ)
    → c ≡ size - off
    → c ≤ len
    → (if ltb off size then slice b off (if ltb (size - off) len then size - off else len) else [])
      ≡ slice b off c
read_rest b off size c len e h = elim (Bool-cases (ltb off size)) [
  | inl more ↦
      let k : (if ltb (size - off) len then size - off else len) ≡ c = ground arith in rw (more, k)
  | inr done ↦ let k : c ≡ 0 = ground arith in rw (done, k)
]

wread_lem :
    (ns : List WNode) (idx : ℕ) (m : WNode) (off c len : ℕ)
    → get_elem? ns idx ≡ some m
    → m.used ≡ true
    → c ≡ m.size - off
    → c ≤ len
    → wread idx off len ns ≡ slice m.bytes off c
unfolding wread
wread_lem ns idx m off c len at used e h =
    rw (at, used, wread) (read_rest m.bytes off m.size c len e h)

module _ (ns : List WNode) (inv : Inv ns) (idx : ℕ) (n : WNode) (at : get_elem? ns idx ≡ some n)
    (used : n.used ≡ true) (src : List ℕ) where
  in_table : idx < length ns
  in_table = get_elem?-lt ns idx at

  result : wwrite idx src ns ≡ (room_for n (length src), set ns idx (append_bytes (taken n src) n))
  unfolding wwrite
  result = rw (at, used, wwrite)

  -- In a well-formed table, WWrite to a node in use takes as much of the source as fits, WRead
  -- of as many bytes from the old size gives back the bytes taken, and WSize grows by their
  -- number.
  pub wread-wwrite :
      let (taken_count, ns') = wwrite idx src ns in
      (taken_count ≡ (
        if ltb (wnode_data_max - n.size) (length src) then wnode_data_max - n.size else length src))
      × (wread idx n.size (length src) ns' ≡ take taken_count src)
      × (wsize idx ns' ≡ n.size + taken_count)
  unfolding wsize
  wread-wwrite =
      let m = append_bytes (taken n src) n in
      let self = get_elem?-set_self ns idx m in_table in
      let sized = inv.sized idx n at in
      let len = length-taken n src sized in
      let grown = append_bytes_lem (taken n src) n (len.1) in
      rw result (
        ground arith,
        wread_lem _ idx m n.size (length (taken n src)) (length src) self (grown.2 ∙ used)
              (omega (arith, grown.0)) (ground (arith, len.0))
            ∙ slice-append_bytes (taken n src) n (len.1),
        rw (self, wsize) (ground (arith, grown, len.0)),
      )

  -- In a well-formed table, WWrite to a node in use changes no other node.
  pub wwrite_others : (j : ℕ) → j ≢ idx → get_elem? (wwrite idx src ns).1 j ≡ get_elem? ns j
  wwrite_others j ne = rw result (get_elem?-set_ne ns idx j _ (λ e. ne (sym e)))

  -- WWrite to a node in use keeps the table well formed: sizes and names fit their arrays and
  -- names stay unique.
  pub wwrite-Inv : Inv (wwrite idx src ns).1
  wwrite-Inv =
      let sized = inv.sized idx n at in
      let len = length-taken n src sized in
      let grown = append_bytes_lem (taken n src) n (len.1) in
      rw result (
        set-Inv ns idx _ inv (omega (arith, inv.slots, in_table))
          (rw (grown.1) (inv.short idx n at)) (omega (arith, grown.0, len.1))
          (λ j m ne e u. rw (grown.1) (elim (Bool-cases (answers n.name m)) [
            | inl same ↦ absurd (ne (sym (inv.unique idx j n m at e used same)))
            | inr other ↦ other
          ])))

-- A node in use whose size is past its 2048 bytes takes all the bytes of a source, unless the
-- size would pass 2^32.
pub wwrite_oversized :
    (ns : List WNode) (idx : ℕ) (n : WNode) (src : List ℕ)
    → get_elem? ns idx ≡ some n
    → n.used ≡ true
    → wnode_data_max < n.size
    → n.size + length src ≤ 2 ^ 32
    → (wwrite idx src ns).0 ≡ length src
unfolding wwrite
wwrite_oversized ns idx n src at used over fits = rw (at, used, wwrite) (ground arith)
