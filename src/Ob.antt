-- ===== src/Ob.antt =====
-- kernel/ob/object_manager.cpp and kernel/include/object.h: types, headers, handles and names.
-- An object is the address of its body, 0 for null, and its header is read at that address. A type
-- is its place in the registry. Reference counts are i32 and wrap.
-- Each call runs under its lock or with interrupts off, and callers pass an address for the result.
pub mod Handles
pub mod Counts
pub mod Objects
pub mod History
mod Tests
use micro_nt.Base.{
  ℕ, zero, suc, ◌+◌, ◌-◌, ◌*◌, ◌/◌, ◌%◌, ◌^◌, Bool, true, false, not, ◌&&◌, ◌||◌, Option, none,
  some, List, [], ◌∷◌, ◌++◌, ltb, leb, ◌==◌, if◌then◌else◌, update, length, get_elem?, set,
  replicate, take,
}
use micro_nt.Base.Int.{ℤ, pos, inc, dec, is_nonpos}
use micro_nt.KernelHeap.{Heap, alloc}

pub data Status : Type 0 where
  success invalid_handle invalid_parameter insufficient_resources : Status
  object_type_mismatch already_exists object_name_not_found : Status

abbrev pub ob_magic : ℕ
ob_magic = 0x4E544F42

abbrev pub handle_table_size : ℕ
handle_table_size = 256

abbrev pub namespace_size : ℕ
namespace_size = 128

abbrev pub max_types : ℕ
max_types = 32

-- sizeof(ObjectHeader)
abbrev pub header_size : ℕ
header_size = 96

-- `on_close` names the callback, if there is one.
pub record ObType : Type 0 where
  pub name : List ℕ
  pub body_size : ℕ
  pub on_close : Option ℕ
  pub index : ℕ

pub record ObjectHeader : Type 0 where
  pub magic : ℕ
  pub type : Option ℕ
  pub ref_count : ℤ
  pub handle_count : ℤ
  pub name : List ℕ

pub record HandleEntry : Type 0 where
  pub object : ℕ
  pub access : ℕ

pub record NamespaceEntry : Type 0 where
  pub path : List ℕ
  pub object : ℕ

-- `closed` records the calls of the types' callbacks, the latest first.
pub record Ob : Type 0 where
  pub types : List ObType
  pub table : List HandleEntry
  pub names : List NamespaceEntry
  pub headers : ℕ → ObjectHeader
  pub heap : Heap
  pub closed : List (ℕ × ℕ)

abbrev pub free_entry : HandleEntry
free_entry = record { object = 0; access = 0 }

abbrev pub free_name : NamespaceEntry
free_name = record { path = []; object = 0 }

pub init : Ob → Ob
init ob = record ob {
  table = replicate handle_table_size free_entry;
  names = replicate namespace_size free_name;
  types = [];
}

abbrev pub invalid_handle_value : ℕ
invalid_handle_value = 2 ^ 64 - 1

pub index_to_handle : ℕ → ℕ
index_to_handle i = (i + 1) * 8

pub handle_to_index : ℕ → ℕ
handle_to_index h = h / 8 - 1

pub handle_valid : ℕ → Bool
handle_valid h =
    not (h == 0)
    && not (h == invalid_handle_value)
    && h % 8 == 0
    && leb 1 (h / 8)
    && leb (h / 8) handle_table_size

-- The first free entry, from index `i` on.
pub free_slot : ℕ → List HandleEntry → Option ℕ
free_slot i [] = none
free_slot i (e ∷ es) = if e.object == 0 then some i else free_slot (suc i) es

-- HandleTable::Alloc, with INVALID_HANDLE if the table is full.
pub table_alloc : ℕ → ℕ → List HandleEntry → ℕ × List HandleEntry
table_alloc object access es = elim (free_slot 0 es) [
  | none ↦ (invalid_handle_value, es)
  | some i ↦ (index_to_handle i, set es i (record { object = object; access = access }))
]

-- HandleTable::Lookup
pub table_lookup : ℕ → List HandleEntry → Option HandleEntry
table_lookup h es =
    if handle_valid h
    then elim (get_elem? es (handle_to_index h)) [
      | none ↦ none
      | some e ↦ if e.object == 0 then none else some e
    ]
    else none

-- HandleTable::Free
pub table_free : ℕ → List HandleEntry → Status × List HandleEntry
table_free h es = elim (table_lookup h es) [
  | none ↦ (invalid_handle, es)
  | some e ↦ (success, set es (handle_to_index h) free_entry)
]

pub str_eq : List ℕ → List ℕ → Bool
str_eq [] [] = true
str_eq [] (b ∷ t) = false
str_eq (a ∷ s) [] = false
str_eq (a ∷ s) (b ∷ t) = a == b && str_eq s t

-- The place of the type of that name, from place `i` on.
find_type : ℕ → List ℕ → List ObType → Option ℕ
find_type i name [] = none
find_type i name (t ∷ ts) = if str_eq t.name name then some i else find_type (suc i) name ts

-- str_copy into an array of 32 bytes
pub create_type : List ℕ → ℕ → Option ℕ → Ob → Status × Option ℕ × Ob
create_type name body_size on_close ob = elim (find_type 0 name ob.types) [
  | some i ↦ (success, some i, ob)
  | none ↦ if leb max_types (length ob.types) then (insufficient_resources, none, ob) else (
    success,
    some (length ob.types),
    record ob {
      types =
          ob.types
          ++ record {
            name = take 31 name;
            body_size = body_size;
            on_close = on_close;
            index = length ob.types + 1;
          }
            ∷ [];
    },
  )
]

lookup_type : List ℕ → Ob → Option ℕ
lookup_type name ob = find_type 0 name ob.types

-- hdr && hdr->Magic == OB_MAGIC
pub is_object : Ob → ℕ → Bool
is_object ob object = not (object == 0) && (ob.headers object).magic == ob_magic

abbrev pub put_header : Ob → ℕ → ObjectHeader → Ob
put_header ob object hdr = record ob { headers = update ob.headers object hdr }

pub reference_object : ℕ → Ob → Ob
unfolding is_object
reference_object object ob =
    let hdr = ob.headers object in
    if is_object ob object
    then put_header ob object (record hdr { ref_count = inc hdr.ref_count })
    else ob

-- The first slot of the namespace in use under that path.
pub find_name : ℕ → List ℕ → List NamespaceEntry → Option ℕ
find_name i path [] = none
find_name i path (e ∷ es) =
    if not (e.object == 0) && str_eq e.path path then some i else find_name (suc i) path es

pub free_name_slot : ℕ → List NamespaceEntry → Option ℕ
free_name_slot i [] = none
free_name_slot i (e ∷ es) = if e.object == 0 then some i else free_name_slot (suc i) es

-- path[0] == '\\'
is_rooted : List ℕ → Bool
is_rooted [] = false
is_rooted (c ∷ cs) = c == 0x5C

pub insert_object_by_name : ℕ → List ℕ → Ob → Status × Ob
unfolding is_rooted
insert_object_by_name object path ob =
    if object == 0 || not (is_rooted path) || leb 128 (length path)
    then (invalid_parameter, ob)
    else elim (find_name 0 path ob.names) [
      | some i ↦ (already_exists, ob)
      | none ↦ elim (free_name_slot 0 ob.names) [
        | none ↦ (insufficient_resources, ob)
        | some i ↦ (
          success,
          record ob { names = set ob.names i (record { path = path; object = object }) },
        )
      ]
    ]

pub remove_object_by_name : List ℕ → Ob → Ob
remove_object_by_name path ob = elim (find_name 0 path ob.names) [
  | none ↦ ob
  | some i ↦ record ob { names = set ob.names i free_name }
]

-- hdr->Type && hdr->Type->OnClose
pub callback : Ob → ObjectHeader → Option ℕ
callback ob hdr = elim hdr.type [
  | none ↦ none
  | some t ↦ elim (get_elem? ob.types t) [ none ↦ none | some ty ↦ ty.on_close ]
]

abbrev pub is_empty : List ℕ → Bool
is_empty [] = true
is_empty (c ∷ cs) = false

note_close : Option ℕ → ℕ → Ob → Ob
note_close none object ob = ob
note_close (some f) object ob = record ob { closed = (f, object) ∷ ob.closed }

-- What DereferenceObject does at a count of 0: the name, the callback, the magic.
pub destroy : ℕ → Ob → Ob
unfolding note_close
destroy object ob =
    let hdr = ob.headers object in
    let unnamed = if is_empty hdr.name then ob else remove_object_by_name hdr.name ob in
    let noted = note_close (callback ob hdr) object unnamed in
    put_header noted object (record hdr { magic = 0 })

pub dereference_object : ℕ → Ob → Ob
unfolding is_object
dereference_object object ob =
    let hdr = ob.headers object in
    let counted = put_header ob object (record hdr { ref_count = dec hdr.ref_count }) in
    if is_object ob object
    then if is_nonpos (dec hdr.ref_count) then destroy object counted else counted
    else ob

-- The header and body of a new object; the memory is zero where no field is set. 0 is null.
pub new_object : Option ℕ → ℕ → List ℕ → Ob → ℕ × Ob
new_object type body_size name ob =
    let (hdr, heap) = alloc ob.heap ((header_size + body_size) % 2 ^ 64) 8 in
    let body = (hdr + header_size) % 2 ^ 64 in
    if hdr == 0 then (0, record ob { heap = heap }) else (
      body,
      put_header (record ob { heap = heap }) body
          (record {
            magic = ob_magic;
            type = type;
            ref_count = pos 1;
            handle_count = pos 0;
            name = take 63 name;
          }),
    )

-- An empty path stands for null too. A clash of names is only logged.
pub allocate_object : ℕ → List ℕ → Ob → ℕ × Ob
unfolding new_object
allocate_object type path ob = elim (get_elem? ob.types type) [
  | none ↦ (0, ob)
  | some ty ↦
      let (body, fresh) = new_object (some type) ty.body_size path ob in
      if body == 0 || is_empty path
      then (body, fresh)
      else (body, (insert_object_by_name body path fresh).1)
]

-- The object has no type, and its name is not in the namespace.
pub allocate_object_raw : ℕ → List ℕ → Ob → ℕ × Ob
unfolding new_object
allocate_object_raw body_size name ob = new_object none body_size name ob

pub insert_object : ℕ → ℕ → Ob → Status × ℕ × Ob
insert_object object access ob =
    let hdr = ob.headers object in
    let (h, table) = table_alloc object access ob.table in
    if is_object ob object
    then if h == invalid_handle_value then (insufficient_resources, 0, ob) else (
      success,
      h,
      put_header (record ob { table = table }) object
          (record hdr { handle_count = inc hdr.handle_count; ref_count = inc hdr.ref_count }),
    )
    else (invalid_parameter, 0, ob)

pub close_handle : ℕ → Ob → Status × Ob
close_handle h ob = elim (table_lookup h ob.table) [
  | none ↦ (invalid_handle, ob)
  | some e ↦
      let cleared = record ob { table = (table_free h ob.table).1 } in
      let hdr = ob.headers e.object in
      (
        success,
        if is_object ob e.object
            then dereference_object e.object
                (put_header cleared e.object (record hdr { handle_count = dec hdr.handle_count }))
            else cleared,
      )
]

-- A null expected type accepts any.
abbrev pub type_fits : Option ℕ → Option ℕ → Bool
type_fits none t = true
type_fits (some x) none = false
type_fits (some x) (some y) = x == y

pub reference_object_by_handle : ℕ → Option ℕ → Ob → Status × ℕ × Ob
reference_object_by_handle h expected ob = elim (table_lookup h ob.table) [
  | none ↦ (invalid_handle, 0, ob)
  | some e ↦
      if is_object ob e.object
      then if type_fits expected (ob.headers e.object).type
        then (success, e.object, reference_object e.object ob)
        else (object_type_mismatch, 0, ob)
      else (invalid_handle, 0, ob)
]

-- The search of LookupObjectByName: entries of dead objects are passed over.
pub find_live : Ob → List ℕ → List NamespaceEntry → Option ℕ
find_live ob path [] = none
find_live ob path (e ∷ es) =
    if not (e.object == 0) && str_eq e.path path && is_object ob e.object
    then some e.object
    else find_live ob path es

pub lookup_object_by_name : List ℕ → Option ℕ → Ob → Status × ℕ × Ob
lookup_object_by_name path expected ob = elim (find_live ob path ob.names) [
  | none ↦ (object_name_not_found, 0, ob)
  | some object ↦
      if type_fits expected (ob.headers object).type
      then (success, object, reference_object object ob)
      else (object_type_mismatch, 0, ob)
]
