-- ===== src/Ob/History.antt =====
-- The object manager from Init on: calls in any order, by callers who keep the rules.
use micro_nt.Base.{
  ℕ, suc, ◌+◌, ◌^◌, ◌%◌, ◌≤◌, ◌≡◌, refl, sym, ap, ◌≢◌, inl, inr, true, Option, none, some, List,
  ◌==◌, ◌||◌, arith, update, length, length-replicate, take, get_elem?, Bool-cases, Option-cases,
}
use micro_nt.Base.Int.{pos}
use micro_nt.KernelHeap.{alloc}
use micro_nt.Ob.{
  Ob, ObType, success, ObjectHeader, HandleEntry, free_entry, ob_magic, handle_table_size,
  invalid_handle_value, header_size, is_empty, init, create_type, new_object, allocate_object,
  allocate_object_raw, is_object, put_header, reference_object, dereference_object,
  insert_object_by_name, remove_object_by_name, insert_object, close_handle, table_alloc,
  table_lookup, reference_object_by_handle, type_fits,
}
use micro_nt.Ob.Handles.{table_lookup-Found, table_lookup-table_alloc}
use micro_nt.Ob.Counts.{count_handles, count_handles-pos, count_handles-free}
use micro_nt.Ob.Objects.{
  Inv, Room, handled, magic_of, header-Inv, reference_object-Inv, insert_object-Inv,
  dereference_object-Inv, close_handle-Inv,
}

-- The body that AllocateObject would return is not an object yet: the heap grants fresh memory.
unfoldable pub Fresh : ℕ → Ob → Type 0
Fresh body_size ob =
    (ob.headers
      (((alloc ob.heap ((header_size + body_size) % 2 ^ 64) 8).0 + header_size) % 2 ^ 64)).magic
    ≢ ob_magic

-- One call. A dereference gives up a reference of the caller's own, one that no handle holds, and a
-- count that is raised has room.
pub data Step : Ob → Ob → Type 0 where
  creates :
      (name : List ℕ) (size : ℕ) (f : Option ℕ) (ob : Ob) → Step ob (create_type name size f ob).2
  allocates :
      (type : ℕ) (ty : ObType) (path : List ℕ) (ob : Ob)
      → get_elem? ob.types type ≡ some ty
      → Fresh ty.body_size ob
      → Step ob (allocate_object type path ob).1
  allocates_raw :
      (size : ℕ) (name : List ℕ) (ob : Ob)
      → Fresh size ob
      → Step ob (allocate_object_raw size name ob).1
  references : (x : ℕ) (ob : Ob) → x ≢ 0 → Room (ob.headers x) → Step ob (reference_object x ob)
  dereferences :
      (x r : ℕ) (ob : Ob)
      → x ≢ 0
      → (ob.headers x).ref_count ≡ pos (suc r)
      → count_handles x ob.table ≤ r
      → Step ob (dereference_object x ob)
  inserts :
      (x access : ℕ) (ob : Ob) → x ≢ 0 → Room (ob.headers x) → Step ob (insert_object x access ob).2
  closes : (h : ℕ) (ob : Ob) → Step ob (close_handle h ob).1
  looks_up :
      (h : ℕ) (t : Option ℕ) (ob : Ob)
      → ((e : HandleEntry) → table_lookup h ob.table ≡ some e → Room (ob.headers e.object))
      → Step ob (reference_object_by_handle h t ob).2
  names_it : (x : ℕ) (path : List ℕ) (ob : Ob) → Step ob (insert_object_by_name x path ob).1
  unnames : (path : List ℕ) (ob : Ob) → Step ob (remove_object_by_name path ob)

pub data Reachable (start : Ob) : Ob → Type 0 where
  booted : Reachable start (init start)
  then_call : (a b : Ob) → Reachable start a → Step a b → Reachable start b

-- The header of a new object: one reference, the creator's.
abbrev fresh_header : Option ℕ → List ℕ → ObjectHeader
fresh_header type name = record {
  magic = ob_magic;
  type = type;
  ref_count = pos 1;
  handle_count = pos 0;
  name = take 63 name;
}

new_object-Inv :
    (type : Option ℕ) (size : ℕ) (name : List ℕ) (ob : Ob)
    → Fresh size ob
    → Inv ob.table ob.headers
    → let ob' = (new_object type size name ob).1 in Inv ob'.table ob'.headers
unfolding new_object Fresh
new_object-Inv type size name ob fresh v =
    elim (Bool-cases ((alloc ob.heap ((header_size + size) % 2 ^ 64) 8).0 == 0)) [
      | inl full ↦ rw (full, new_object) v
      | inr got ↦
          rw (got, new_object)
            (put (((alloc ob.heap ((header_size + size) % 2 ^ 64) 8).0 + header_size) % 2 ^ 64)
              fresh)
    ]
  where
    put :
        (body : ℕ)
        → (ob.headers body).magic ≢ ob_magic
        → Inv ob.table (update ob.headers body (fresh_header type name))
    put body ne = header-Inv ob.table ob.headers body (fresh_header type name) v (λ nb.
        let unused : count_handles body ob.table ≡ 0 = ground (arith, (v.right body nb).live) in
        record {
          live = λ h. refl;
          counted = λ m. record {
            refs = 1;
            handles_eq = ap pos (sym unused);
            refs_eq = refl;
            enough = omega (arith, unused);
            positive = omega arith;
            small = omega arith;
          };
        })

insert_object_by_name-same :
    (x : ℕ) (path : List ℕ) (ob : Ob)
    → let ob' = (insert_object_by_name x path ob).1 in
      (ob'.table ≡ ob.table) × (ob'.headers ≡ ob.headers)
unfolding insert_object_by_name
insert_object_by_name-same x path ob = ground arith

insert_object_by_name-Inv :
    (x : ℕ) (path : List ℕ) (ob : Ob)
    → Inv ob.table ob.headers
    → let ob' = (insert_object_by_name x path ob).1 in Inv ob'.table ob'.headers
insert_object_by_name-Inv x path ob v =
    let (t, h) = insert_object_by_name-same x path ob in rw (t, h) v

allocate_object-Inv :
    (type : ℕ) (ty : ObType) (path : List ℕ) (ob : Ob)
    → get_elem? ob.types type ≡ some ty
    → Fresh ty.body_size ob
    → Inv ob.table ob.headers
    → let ob' = (allocate_object type path ob).1 in Inv ob'.table ob'.headers
unfolding allocate_object
allocate_object-Inv type ty path ob at fresh v =
    let made = new_object-Inv (some type) ty.body_size path ob fresh v in
    let (body, ob') = new_object (some type) ty.body_size path ob in
    elim (Bool-cases (body == 0 || is_empty path)) [
      | inl plain ↦ rw (at, allocate_object) (rw plain made)
      | inr named ↦
          rw (at, allocate_object) (rw named (insert_object_by_name-Inv body path ob' made))
    ]

init-Inv :
    (ob : Ob) → ((y : ℕ) → (ob.headers y).magic ≢ ob_magic) → Inv (init ob).table (init ob).headers
unfolding init
init-Inv ob blank = record {
  slots = length-replicate handle_table_size free_entry;
  right = λ y ny. record {
    live = λ h. absurd (omega (arith, h, count_handles-free y handle_table_size ny));
    counted = λ m. absurd (blank y m);
  };
}

create_type-same :
    (name : List ℕ) (size : ℕ) (f : Option ℕ) (ob : Ob)
    → let ob' = (create_type name size f ob).2 in
      (ob'.table ≡ ob.table) × (ob'.headers ≡ ob.headers)
unfolding create_type
create_type-same name size f ob = ground arith

remove_object_by_name-same :
    (path : List ℕ) (ob : Ob)
    → let ob' = remove_object_by_name path ob in (ob'.table ≡ ob.table) × (ob'.headers ≡ ob.headers)
unfolding remove_object_by_name
remove_object_by_name-same path ob = ground arith

same-Inv :
    (a b : Ob)
    → (b.table ≡ a.table) × (b.headers ≡ a.headers)
    → Inv a.table a.headers
    → Inv b.table b.headers
same-Inv a b (t, h) v = rw (t, h) v

-- A reference by handle references the object or changes nothing.
by_handle-Inv :
    (h : ℕ) (t : Option ℕ) (ob : Ob)
    → ((e : HandleEntry) → table_lookup h ob.table ≡ some e → Room (ob.headers e.object))
    → Inv ob.table ob.headers
    → let ob' = (reference_object_by_handle h t ob).2 in Inv ob'.table ob'.headers
unfolding reference_object_by_handle
by_handle-Inv h t ob room v = elim (Option-cases (table_lookup h ob.table)) [
  | inl closed ↦ rw (closed, reference_object_by_handle) v
  | inr (e, found) ↦ elim (Bool-cases (is_object ob e.object)) [
    | inr dead ↦ rw (found, reference_object_by_handle) (rw dead v)
    | inl is ↦ elim (Bool-cases (type_fits t (ob.headers e.object).type)) [
      | inr other ↦ rw (found, reference_object_by_handle) (rw (is, other) v)
      | inl fits ↦
          rw (found, reference_object_by_handle)
            (rw (is, fits)
              (reference_object-Inv e.object ob ((table_lookup-Found h ob.table e found).in_use)
                (room e found) v))
    ]
  ]
]

-- Each call keeps the invariant.
Step-Inv : (a b : Ob) → Step a b → Inv a.table a.headers → Inv b.table b.headers
unfolding allocate_object_raw
Step-Inv a b (creates name size f ob) v =
    same-Inv ob (create_type name size f ob).2 (create_type-same name size f ob) v
Step-Inv a b (allocates type ty path ob at fresh) v = allocate_object-Inv type ty path ob at fresh v
Step-Inv a b (allocates_raw size name ob fresh) v = new_object-Inv none size name ob fresh v
Step-Inv a b (references x ob nx room) v = reference_object-Inv x ob nx room v
Step-Inv a b (dereferences x r ob nx refs owned) v = dereference_object-Inv x r ob nx v refs owned
Step-Inv a b (inserts x access ob nx room) v = insert_object-Inv x access ob nx room v
Step-Inv a b (closes h ob) v = close_handle-Inv h ob v
Step-Inv a b (looks_up h t ob room) v = by_handle-Inv h t ob room v
Step-Inv a b (names_it x path ob) v = insert_object_by_name-Inv x path ob v
Step-Inv a b (unnames path ob) v =
    same-Inv ob (remove_object_by_name path ob) (remove_object_by_name-same path ob) v

-- From a boot where memory holds no object, in every state that calls by the rules lead to, the
-- table has its 256 entries, an object with an open handle is live, and a live object counts
-- exactly its open handles and at least as many references, at least one. The rules: an
-- allocation gets memory that holds no object, who dereferences owns a reference that no handle
-- holds, and a reference, a handle or a lookup by handle is made only where the object's counts
-- are below 2^31 - 1.
pub Reachable-Inv :
    (start ob : Ob)
    → ((y : ℕ) → (start.headers y).magic ≢ ob_magic)
    → Reachable start ob
    → Inv ob.table ob.headers
unfolding init
Reachable-Inv start ob blank booted = init-Inv start blank
Reachable-Inv start ob blank (then_call a b r s) = Step-Inv a b s (Reachable-Inv start a blank r)

-- From a boot where memory holds no object, in every state that calls by the rules lead to, the
-- rules of the invariant's theorem, ReferenceObjectByHandle without an expected type succeeds for
-- every handle that the table knows and gives its object, with one reference more: no handle
-- dangles.
pub open_handle :
    (start ob : Ob) (h : ℕ) (e : HandleEntry)
    → ((y : ℕ) → (start.headers y).magic ≢ ob_magic)
    → Reachable start ob
    → table_lookup h ob.table ≡ some e
    → reference_object_by_handle h none ob ≡ (success, e.object, reference_object e.object ob)
unfolding reference_object_by_handle is_object
open_handle start ob h e blank r found =
    let f = table_lookup-Found h ob.table e found in
    let v = Reachable-Inv start ob blank r in
    let magic = (v.right e.object f.in_use).live (count_handles-pos ob.table _ e f.there) in
    let is : is_object ob e.object ≡ true = ground (arith, magic, f.in_use) in
    rw (found, reference_object_by_handle) (rw is refl)

put_header-is_object :
    (ob : Ob) (x : ℕ) (hdr : ObjectHeader)
    → x ≢ 0
    → hdr.magic ≡ ob_magic
    → is_object (put_header ob x hdr) x ≡ true
unfolding is_object
put_header-is_object ob x hdr nx m = ground arith

-- With a table of 256 entries, when InsertObject of an object other than null succeeds, its
-- handle leads back to the object, and every other handle is as it was.
pub reference_object_by_handle-insert_object :
    (x access : ℕ) (ob : Ob)
    → x ≢ 0
    → length ob.table ≡ handle_table_size
    → let (status, h, ob') = insert_object x access ob in
      status ≡ success
      → (reference_object_by_handle h none ob' ≡ (success, x, reference_object x ob'))
        × ((j : ℕ) → j ≢ h → table_lookup j ob'.table ≡ table_lookup j ob.table)
unfolding insert_object reference_object_by_handle
reference_object_by_handle-insert_object x access ob nx size = elim (Bool-cases (is_object ob x)) [
  | inr not_one ↦ rw (not_one, insert_object) (λ s. cc)
  | inl is ↦ elim (Bool-cases ((table_alloc x access ob.table).0 == invalid_handle_value)) [
    | inl none_left ↦ rw (is, none_left, insert_object) (λ s. cc)
    | inr got ↦
        let (back, free, others) =
          table_lookup-table_alloc x access ob.table size nx (ground arith) in
        let live =
          put_header-is_object (record ob { table = (table_alloc x access ob.table).1 }) x
            (handled (ob.headers x)) nx (magic_of ob x is) in
        rw (is, got, insert_object)
          (λ s. (rw (back, reference_object_by_handle) (rw live refl), others))
  ]
]
