-- ===== src/Ob/Objects.antt =====
-- Reference counting: no call that the rules allow frees an object that a handle still names.
use micro_nt.Base.{
  ℕ, zero, suc, ◌+◌, ◌-◌, ◌^◌, ◌≤◌, ◌<◌, ◌≡◌, refl, sym, ap, subst, fun_ext, ◌∙◌, ◌≢◌, inl, inr,
  true, false, some, List, ◌==◌, if◌then◌else◌, arith, update, update_self, update_ne, length,
  get_elem?, set, length-set, Bool-cases, Option-cases,
}
use micro_nt.Base.Int.{pos, inc, dec, is_nonpos, magnitude, inc-pos}
use micro_nt.Ob.{
  Ob, ObjectHeader, HandleEntry, free_entry, ob_magic, handle_table_size, invalid_handle_value,
  handle_to_index, table_alloc, table_lookup, table_free, is_object, put_header, reference_object,
  dereference_object, destroy, remove_object_by_name, insert_object, close_handle,
}
use micro_nt.Ob.Handles.{Alloc, full, granted, table_alloc-Alloc, Found, table_lookup-Found}
use micro_nt.Ob.Counts.{count_handles, count_handles-set, count_handles-pos}

-- A header counts `n` handles, and at least as many references, in 32 bits.
pub record Counted (hdr : ObjectHeader) (n : ℕ) : Type 0 where
  pub refs : ℕ
  pub handles_eq : hdr.handle_count ≡ pos n
  pub refs_eq : hdr.ref_count ≡ pos refs
  pub enough : n ≤ refs
  pub positive : 0 < refs
  pub small : refs < 2 ^ 31

-- An object with a handle is live, and the counts of a live object are right.
pub record Right (hdr : ObjectHeader) (n : ℕ) : Type 0 where
  pub live : 0 < n → hdr.magic ≡ ob_magic
  pub counted : hdr.magic ≡ ob_magic → Counted hdr n

pub record Inv (es : List HandleEntry) (hs : ℕ → ObjectHeader) : Type 0 where
  pub slots : length es ≡ handle_table_size
  pub right : (y : ℕ) → y ≢ 0 → Right (hs y) (count_handles y es)

-- A change of one header, and of the handles of that object alone.
pub change-Inv :
    (es es' : List HandleEntry) (hs : ℕ → ObjectHeader) (x : ℕ) (hdr : ObjectHeader)
    → Inv es hs
    → length es' ≡ handle_table_size
    → ((y : ℕ) → y ≢ 0 → y ≢ x → count_handles y es' ≡ count_handles y es)
    → (x ≢ 0 → Right hdr (count_handles x es'))
    → Inv es' (update hs x hdr)
change-Inv es es' hs x hdr v size same r = record {
  slots = size;
  right = λ y ny. elim (Bool-cases (y == x)) [
    | inl hit ↦
        let e : y ≡ x = ground arith in
        subst (λ z. Right (update hs x hdr z) (count_handles z es')) (sym e)
          (subst (λ h. Right h (count_handles x es')) (sym (update_self hs x hdr))
            (r (λ z. ny (e ∙ z))))
    | inr miss ↦
        let ne : y ≢ x = ground arith in
        subst (λ h. Right h (count_handles y es')) (sym (update_ne hs x y hdr ne))
          (subst (λ n. Right (hs y) n) (sym (same y ny ne)) (v.right y ny))
  ];
}

-- A change of one header alone.
pub header-Inv :
    (es : List HandleEntry) (hs : ℕ → ObjectHeader) (x : ℕ) (hdr : ObjectHeader)
    → Inv es hs
    → (x ≢ 0 → Right hdr (count_handles x es))
    → Inv es (update hs x hdr)
header-Inv es hs x hdr v r = change-Inv es es hs x hdr v v.slots (λ y ny ne. refl) r

pub magic_of : (ob : Ob) (x : ℕ) → is_object ob x ≡ true → (ob.headers x).magic ≡ ob_magic
unfolding is_object
magic_of ob x is = ground arith

-- One more reference does not wrap the count.
abbrev pub Room : ObjectHeader → Type 0
Room hdr = (r : ℕ) → hdr.ref_count ≡ pos r → r + 1 < 2 ^ 31

Referenced :
    (hdr : ObjectHeader) (n : ℕ)
    → Room hdr
    → Counted hdr n
    → Counted (record hdr { ref_count = inc hdr.ref_count }) n
Referenced hdr n room c = record {
  refs = suc c.refs;
  handles_eq = c.handles_eq;
  refs_eq = ap inc c.refs_eq ∙ inc-pos c.refs (room c.refs c.refs_eq);
  enough = omega (arith, c.enough);
  positive = omega arith;
  small = omega (arith, room c.refs c.refs_eq);
}

-- ReferenceObject keeps the invariant.
pub reference_object-Inv :
    (x : ℕ) (ob : Ob)
    → x ≢ 0
    → Room (ob.headers x)
    → Inv ob.table ob.headers
    → Inv (reference_object x ob).table (reference_object x ob).headers
unfolding reference_object
reference_object-Inv x ob nx room v = elim (Bool-cases (is_object ob x)) [
  | inl is ↦
      let r = v.right x nx in
      rw (is, reference_object)
        (header-Inv ob.table ob.headers x _ v (λ nz. record {
          live = λ h. magic_of ob x is;
          counted = λ m. Referenced _ _ room (r.counted m);
        }))
  | inr not_one ↦ rw (not_one, reference_object) v
]

Inserted :
    (hdr : ObjectHeader) (n : ℕ)
    → Room hdr
    → Counted hdr n
    → Counted
        (record hdr { handle_count = inc hdr.handle_count; ref_count = inc hdr.ref_count })
        (suc n)
Inserted hdr n room c = record {
  refs = suc c.refs;
  handles_eq = ap inc c.handles_eq ∙ inc-pos n (omega (arith, c.enough, room c.refs c.refs_eq));
  refs_eq = ap inc c.refs_eq ∙ inc-pos c.refs (room c.refs c.refs_eq);
  enough = omega (arith, c.enough);
  positive = omega arith;
  small = omega (arith, room c.refs c.refs_eq);
}

-- The handles of each object after a write of `new` to a free entry.
set_free-count :
    (y object access : ℕ) (es : List HandleEntry) (k : ℕ) (old : HandleEntry)
    → y ≢ 0
    → get_elem? es k ≡ some old
    → old.object ≡ 0
    → count_handles y (set es k (record { object = object; access = access }))
      ≡ (if object == y then 1 else 0) + count_handles y es
set_free-count y object access es k old ny there empty =
    ground (arith, count_handles-set y es k old (record { object = object; access = access }) there)

abbrev pub handled : ObjectHeader → ObjectHeader
handled hdr = record hdr { handle_count = inc hdr.handle_count; ref_count = inc hdr.ref_count }

Alloc-Inv :
    (x access : ℕ) (ob : Ob) (r : ℕ × List HandleEntry)
    → x ≢ 0
    → Room (ob.headers x)
    → Inv ob.table ob.headers
    → is_object ob x ≡ true
    → Alloc x access ob.table r
    → r.0 ≢ invalid_handle_value
    → Inv r.1 (update ob.headers x (handled (ob.headers x)))
Alloc-Inv x access ob r nx room v is (full all) ne = absurd (ne refl)
Alloc-Inv x access ob r nx room v is (granted k old lt there empty) ne =
    let e : HandleEntry = record { object = x; access = access } in
    let one : count_handles x (set ob.table k e) ≡ suc (count_handles x ob.table) =
      ground (arith, set_free-count x x access ob.table k old nx there empty) in
    change-Inv ob.table (set ob.table k e) ob.headers x _ v (length-set ob.table k e ∙ v.slots)
      (λ y ny other. ground (arith, set_free-count y x access ob.table k old ny there empty))
      (λ nz.
        subst (λ n. Right (handled (ob.headers x)) n) (sym one)
          (record {
            live = λ h. magic_of ob x is;
            counted = λ m. Inserted _ _ room ((v.right x nx).counted m);
          }))

-- InsertObject keeps the invariant.
pub insert_object-Inv :
    (x access : ℕ) (ob : Ob)
    → x ≢ 0
    → Room (ob.headers x)
    → Inv ob.table ob.headers
    → let ob' = (insert_object x access ob).2 in Inv ob'.table ob'.headers
unfolding insert_object
insert_object-Inv x access ob nx room v = elim (Bool-cases (is_object ob x)) [
  | inr not_one ↦ rw (not_one, insert_object) v
  | inl is ↦ elim (Bool-cases ((table_alloc x access ob.table).0 == invalid_handle_value)) [
    | inl none_left ↦ rw (is, none_left, insert_object) v
    | inr got ↦
        rw (is, got, insert_object)
          (Alloc-Inv x access ob _ nx room v is (table_alloc-Alloc x access ob.table)
            (ground arith))
  ]
]

-- What the end of an object writes: its header, and neither the table nor another header.
destroy_lem :
    (x : ℕ) (ob : Ob)
    → ((destroy x ob).table ≡ ob.table)
      × ((destroy x ob).headers ≡ update ob.headers x (record (ob.headers x) { magic = 0 }))
unfolding destroy remove_object_by_name
destroy_lem x ob = ground arith

update_twice :
    (hs : ℕ → ObjectHeader) (x : ℕ) (a b : ObjectHeader)
    → update (update hs x a) x b ≡ update hs x b
update_twice hs x a b = fun_ext (λ y. ground arith)

-- The header is dead, so what it counts does not matter.
ended-Inv :
    (x : ℕ) (ob : Ob) (hdr : ObjectHeader)
    → Inv ob.table ob.headers
    → count_handles x ob.table ≡ 0
    → let gone = destroy x (put_header ob x hdr) in Inv gone.table gone.headers
ended-Inv x ob hdr v unused =
    let (same_table, headers) = destroy_lem x (put_header ob x hdr) in
    let end : ObjectHeader = record (update ob.headers x hdr x) { magic = 0 } in
    let dead : Right end (count_handles x ob.table) = record {
      live = λ h. ground (arith, h, unused);
      counted = λ m. ground (arith, m);
    } in
    rw (same_table, headers, update_twice ob.headers x hdr end)
      (header-Inv ob.table ob.headers x end v (λ nx. dead))

Dropped :
    (hdr : ObjectHeader) (n r : ℕ)
    → Counted hdr n
    → hdr.ref_count ≡ pos (suc (suc r))
    → n ≤ suc r
    → Counted (record hdr { ref_count = dec hdr.ref_count }) n
Dropped hdr n r c refs le = record {
  refs = suc r;
  handles_eq = c.handles_eq;
  refs_eq = ap dec refs;
  enough = le;
  positive = omega arith;
  small = omega (arith, c.small, ap magnitude (sym c.refs_eq ∙ refs));
}

-- DereferenceObject, by a caller that owns a reference that no handle holds, keeps the invariant.
pub dereference_object-Inv :
    (x r : ℕ) (ob : Ob)
    → x ≢ 0
    → Inv ob.table ob.headers
    → (ob.headers x).ref_count ≡ pos (suc r)
    → count_handles x ob.table ≤ r
    → Inv (dereference_object x ob).table (dereference_object x ob).headers
unfolding dereference_object
dereference_object-Inv x zero ob nx v refs owned = elim (Bool-cases (is_object ob x)) [
  | inr not_one ↦ rw (not_one, dereference_object) v
  | inl is ↦
      let last : is_nonpos (dec (ob.headers x).ref_count) ≡ true = rw refs refl in
      rw (is, last, dereference_object) (ended-Inv x ob _ v (omega (arith, owned)))
]
dereference_object-Inv x (suc r) ob nx v refs owned = elim (Bool-cases (is_object ob x)) [
  | inr not_one ↦ rw (not_one, dereference_object) v
  | inl is ↦
      let more : is_nonpos (dec (ob.headers x).ref_count) ≡ false = rw refs refl in
      let kept : Right (record (ob.headers x) { ref_count = dec (ob.headers x).ref_count })
          (count_handles x ob.table) =
        record {
          live = λ h. magic_of ob x is;
          counted = λ m. Dropped _ _ r ((v.right x nx).counted m) refs owned;
        } in
      rw (is, more, dereference_object) (header-Inv ob.table ob.headers x _ v (λ nz. kept))
]

is_of : (ob : Ob) (x : ℕ) → x ≢ 0 → (ob.headers x).magic ≡ ob_magic → is_object ob x ≡ true
unfolding is_object
is_of ob x nx m = ground arith

Unhandled :
    (hdr : ObjectHeader) (m : ℕ)
    → Counted hdr (suc m)
    → Counted (record hdr { handle_count = dec hdr.handle_count }) m
Unhandled hdr m c = record {
  refs = c.refs;
  handles_eq = ap dec c.handles_eq;
  refs_eq = c.refs_eq;
  enough = omega (arith, c.enough);
  positive = c.positive;
  small = c.small;
}

-- The entry of an open handle is cleared, and its object loses the handle and the reference.
closed-Inv :
    (h : ℕ) (ob : Ob) (e : HandleEntry)
    → Inv ob.table ob.headers
    → Found h ob.table e
    → (is_object ob e.object ≡ true)
      × (let hdr = ob.headers e.object in
          let cleared = record ob { table = set ob.table (handle_to_index h) free_entry } in
          let ob' =
            dereference_object e.object
              (put_header cleared e.object (record hdr { handle_count = dec hdr.handle_count })) in
          Inv ob'.table ob'.headers)
closed-Inv h ob e v f = (
  is_of ob e.object f.in_use magic,
  dereference_object-Inv e.object (c.refs - 1) _ f.in_use
      (change-Inv ob.table es ob.headers e.object unhandled v
        (length-set ob.table (handle_to_index h) free_entry ∙ v.slots)
        (λ y ny other. ground (arith, at_entry y))
        (λ nz. record {
          live = λ n. magic;
          counted = λ m. Unhandled _ _ (subst (λ n. Counted (ob.headers e.object) n) one c);
        }))
      (ap (λ u. u.ref_count) (update_self ob.headers e.object unhandled)
        ∙ c.refs_eq
        ∙ ap pos (omega (arith, c.positive)))
      (omega (arith, c.enough, one)),
)
  where
    es : List HandleEntry
    es = set ob.table (handle_to_index h) free_entry

    unhandled : ObjectHeader
    unhandled = record (ob.headers e.object) {
      handle_count = dec (ob.headers e.object).handle_count;
    }

    magic : (ob.headers e.object).magic ≡ ob_magic
    magic = (v.right e.object f.in_use).live (count_handles-pos ob.table _ e f.there)

    c : Counted (ob.headers e.object) (count_handles e.object ob.table)
    c = (v.right e.object f.in_use).counted magic

    at_entry :
        (y : ℕ)
        → count_handles y es + (if e.object == y then 1 else 0)
          ≡ count_handles y ob.table + (if 0 == y then 1 else 0)
    at_entry y = count_handles-set y ob.table (handle_to_index h) e free_entry f.there

    one : count_handles e.object ob.table ≡ suc (count_handles e.object es)
    one = ground (arith, at_entry e.object, f.in_use)

-- CloseHandle keeps the invariant: the handle owns the reference that it gives up.
pub close_handle-Inv :
    (h : ℕ) (ob : Ob)
    → Inv ob.table ob.headers
    → let ob' = (close_handle h ob).1 in Inv ob'.table ob'.headers
unfolding close_handle table_free
close_handle-Inv h ob v = elim (Option-cases (table_lookup h ob.table)) [
  | inl closed ↦ rw (closed, close_handle) v
  | inr (e, found) ↦
      let (is, done) = closed-Inv h ob e v (table_lookup-Found h ob.table e found) in
      let freed : (table_free h ob.table).1 ≡ set ob.table (handle_to_index h) free_entry =
        rw (found, table_free) refl in
      rw (found, close_handle) (rw (is, freed) done)
]
