-- ===== src/Ob/Handles.antt =====
-- The handle table: the encoding of handles, and what Alloc, Lookup and Free do to each entry.
use micro_nt.Base.{
  ℕ, zero, suc, ◌+◌, ◌<◌, ◌≡◌, refl, sym, ap, ◌∙◌, ◌≢◌, inl, inr, true, none, some, List, [], ◌∷◌,
  ◌==◌, if◌then◌else◌, arith, length, get_elem?, set, get_elem?-set_self, get_elem?-set_ne,
  get_elem?-lt, Bool-cases, Option-cases,
}
use micro_nt.Ob.{
  HandleEntry, free_entry, handle_table_size, invalid_handle_value, index_to_handle,
  handle_to_index, handle_valid, free_slot, table_alloc, table_lookup, table_free,
}

-- The handle of each index below 256 is valid, decodes to the index, and is not INVALID_HANDLE.
pub handle_to_index-index_to_handle :
    (i : ℕ)
    → i < handle_table_size
    → (handle_valid (index_to_handle i) ≡ true)
      × (handle_to_index (index_to_handle i) ≡ i)
      × (index_to_handle i ≢ invalid_handle_value)
unfolding handle_to_index index_to_handle handle_valid
handle_to_index-index_to_handle i h = ground arith

-- Each valid handle is that of an index.
pub index_to_handle-handle_to_index :
    (h : ℕ)
    → handle_valid h ≡ true
    → (handle_to_index h < handle_table_size) × (index_to_handle (handle_to_index h) ≡ h)
unfolding handle_to_index index_to_handle handle_valid
index_to_handle-handle_to_index h v = ground arith

-- The slot that a search found, counted from the start of the list.
pub record Free (i : ℕ) (es : List HandleEntry) (k : ℕ) : Type 0 where
  pub slot : ℕ
  pub entry : HandleEntry
  pub at : k ≡ i + slot
  pub there : get_elem? es slot ≡ some entry
  pub empty : entry.object ≡ 0

pub free_slot-some : (i : ℕ) (es : List HandleEntry) (k : ℕ) → free_slot i es ≡ some k → Free i es k
unfolding free_slot
free_slot-some i [] k h = cc
free_slot-some i (x ∷ es) k h = elim (Bool-cases (x.object == 0)) [
  | inl free ↦ record { slot = 0; entry = x; at = ground arith; there = refl; empty = ground arith }
  | inr busy ↦
      let r = free_slot-some (suc i) es k (ground arith) in
      record {
        slot = suc r.slot;
        entry = r.entry;
        at = omega (arith, r.at);
        there = r.there;
        empty = r.empty;
      }
]

-- The table is full.
pub free_slot-none :
    (i : ℕ) (es : List HandleEntry) (j : ℕ) (e : HandleEntry)
    → free_slot i es ≡ none
    → get_elem? es j ≡ some e
    → e.object ≢ 0
unfolding free_slot
free_slot-none i [] j e h at = cc
free_slot-none i (x ∷ es) zero e h at = ground arith
free_slot-none i (x ∷ es) (suc j) e h at = ground (arith, free_slot-none (suc i) es j e)

-- A lookup by the handle of an index reads that entry.
pub table_lookup_lem :
    (i : ℕ) (es : List HandleEntry) (e : HandleEntry)
    → i < handle_table_size
    → get_elem? es i ≡ some e
    → table_lookup (index_to_handle i) es ≡ (if e.object == 0 then none else some e)
unfolding table_lookup
table_lookup_lem i es e h at =
    let (valid, index, _) = handle_to_index-index_to_handle i h in
    rw (valid, index, at, table_lookup)

-- What a successful lookup says of the table.
pub record Found (h : ℕ) (es : List HandleEntry) (e : HandleEntry) : Type 0 where
  pub valid : handle_valid h ≡ true
  pub there : get_elem? es (handle_to_index h) ≡ some e
  pub in_use : e.object ≢ 0

pub table_lookup-Found :
    (h : ℕ) (es : List HandleEntry) (e : HandleEntry) → table_lookup h es ≡ some e → Found h es e
unfolding table_lookup
table_lookup-Found h es e r = ground arith

-- The lookups of another handle do not see a write to the entry of index `k`.
table_lookup-set_ne :
    (h k : ℕ) (es : List HandleEntry) (e : HandleEntry)
    → h ≢ index_to_handle k
    → table_lookup h (set es k e) ≡ table_lookup h es
unfolding table_lookup
table_lookup-set_ne h k es e ne = elim (Bool-cases (handle_valid h)) [
  | inl valid ↦
      let other : k ≢ handle_to_index h = λ same.
        ne (sym (index_to_handle-handle_to_index h valid).1 ∙ ap index_to_handle (sym same)) in
      rw (valid, table_lookup) (rw (get_elem?-set_ne es k (handle_to_index h) e other))
  | inr bad ↦ rw (bad, table_lookup)
]

-- What Alloc returns.
pub data Alloc (object access : ℕ) (es : List HandleEntry) : ℕ × List HandleEntry → Type 0 where
  full :
      ((j : ℕ) (e : HandleEntry) → get_elem? es j ≡ some e → e.object ≢ 0)
      → Alloc object access es (invalid_handle_value, es)
  granted :
      (k : ℕ) (old : HandleEntry)
      → k < length es
      → get_elem? es k ≡ some old
      → old.object ≡ 0
      → Alloc object access es
          (index_to_handle k, set es k (record { object = object; access = access }))

pub table_alloc-Alloc :
    (object access : ℕ) (es : List HandleEntry)
    → Alloc object access es (table_alloc object access es)
unfolding table_alloc
table_alloc-Alloc object access es = elim (Option-cases (free_slot 0 es)) [
  | inl none_left ↦
      rw (none_left, table_alloc) (full (λ j e at. free_slot-none 0 es j e none_left at))
  | inr (k, found) ↦
      let r = free_slot-some 0 es k found in
      let at : r.slot ≡ k = omega (arith, r.at) in
      let there : get_elem? es k ≡ some r.entry = rw (← at) (r.there) in
      rw (found, table_alloc) (granted k r.entry (get_elem?-lt es k there) there (r.empty))
]

module _ (object access : ℕ) (es : List HandleEntry) (size : length es ≡ handle_table_size)
    (some_object : object ≢ 0) where
  Alloc-lookup :
      (r : ℕ × List HandleEntry)
      → Alloc object access es r
      → r.0 ≢ invalid_handle_value
      → (table_lookup r.0 r.1 ≡ some (record { object = object; access = access }))
        × (table_lookup r.0 es ≡ none)
        × ((h : ℕ) → h ≢ r.0 → table_lookup h r.1 ≡ table_lookup h es)
  Alloc-lookup r (full all) ne = absurd (ne refl)
  Alloc-lookup r (granted k old lt there empty) ne = (
    table_lookup_lem k _ _ (omega (arith, size)) (get_elem?-set_self es k _ lt) ∙ ground arith,
    table_lookup_lem k es old (omega (arith, size)) there ∙ ground arith,
    λ h other. table_lookup-set_ne h k es _ other,
  )

  -- With a table of 256 entries and an object other than null, the handle that Alloc returns,
  -- if it is not INVALID_HANDLE, was not open, is open with the object and access given, and
  -- every other handle is as it was.
  pub table_lookup-table_alloc :
      let (h, es') = table_alloc object access es in
      h ≢ invalid_handle_value
      → (table_lookup h es' ≡ some (record { object = object; access = access }))
        × (table_lookup h es ≡ none)
        × ((j : ℕ) → j ≢ h → table_lookup j es' ≡ table_lookup j es)
  table_lookup-table_alloc = Alloc-lookup _ (table_alloc-Alloc object access es)

-- The handle of a freed entry is closed, and no other handle changes.
cleared :
    (h j : ℕ) (es : List HandleEntry) (e : HandleEntry)
    → Found h es e
    → table_lookup j (set es (handle_to_index h) free_entry)
      ≡ (if j == h then none else table_lookup j es)
cleared h j es e f = elim (Bool-cases (j == h)) [
  | inl same ↦
      let j-h : j ≡ h = ground arith in
      rw same
        (ap (λ t. table_lookup t (set es (handle_to_index h) free_entry)) (j-h ∙ sym back) ∙ gone)
  | inr other ↦
      rw other
        (table_lookup-set_ne j (handle_to_index h) es free_entry (λ same. ground (arith, back)))
]
  where
    index : handle_to_index h < handle_table_size
    index = (index_to_handle-handle_to_index h f.valid).0

    back : index_to_handle (handle_to_index h) ≡ h
    back = (index_to_handle-handle_to_index h f.valid).1

    gone :
        table_lookup (index_to_handle (handle_to_index h)) (set es (handle_to_index h) free_entry)
        ≡ none
    gone = table_lookup_lem (handle_to_index h) _ free_entry index (
        get_elem?-set_self es (handle_to_index h) free_entry
          (get_elem?-lt es (handle_to_index h) f.there))

-- After Free of a handle that handle is not open, and every other handle is as it was.
pub table_lookup-table_free :
    (h j : ℕ) (es : List HandleEntry)
    → table_lookup j (table_free h es).1 ≡ (if j == h then none else table_lookup j es)
unfolding table_free
table_lookup-table_free h j es = elim (Option-cases (table_lookup h es)) [
  | inl closed ↦ rw (closed, table_free) (ground arith)
  | inr (e, found) ↦ rw (found, table_free) (cleared h j es e (table_lookup-Found h es e found))
]
