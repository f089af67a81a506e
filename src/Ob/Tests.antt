-- ===== src/Ob/Tests.antt =====
-- An object manager that boots, registers a type, creates an object and gives out a handle.
use micro_nt.Base.{ℕ, ◌∙◌, ◌≡◌, refl, sym, ap, ◌≢◌, none, some, List, [], ◌∷◌, replicate, arith}
use micro_nt.Base.Int.{pos, magnitude}
use micro_nt.Ntdef.{align_up}
use micro_nt.KernelHeap.{alloc, next_offset}
use micro_nt.Ob.{
  Ob, ObType, ObjectHeader, HandleEntry, Status, success, free_entry, ob_magic, handle_table_size,
  invalid_handle_value, init, create_type, find_type, allocate_object, new_object,
  insert_object_by_name, is_rooted, find_name, free_name_slot, str_eq, insert_object, is_object,
  handle_valid, handle_to_index, index_to_handle, table_alloc, table_lookup, free_slot,
  reference_object, reference_object_by_handle, close_handle,
}
use micro_nt.Ob.Objects.{Inv}
use micro_nt.Ob.History.{
  Fresh, creates, allocates, inserts, closes, Reachable, booted, then_call, Reachable-Inv,
  open_handle,
}

abbrev no_header : ObjectHeader
no_header = record { magic = 0; type = none; ref_count = pos 0; handle_count = pos 0; name = [] }

abbrev power_on : Ob
power_on = record {
  types = [];
  table = [];
  names = [];
  headers = λ _. no_header;
  heap = record { base = 0x100000; size = 0x10000; used = 0 };
  closed = [];
}

no_objects : (y : ℕ) → (power_on.headers y).magic ≢ ob_magic
no_objects y = omega arith

abbrev event_type : ObType
event_type = record { name = b'E' ∷ []; body_size = 32; on_close = none; index = 1 }

abbrev typed : Ob
typed = (create_type (b'E' ∷ []) 32 none (init power_on)).2

type_there : typed.types ≡ event_type ∷ []
unfolding create_type init find_type
type_there = refl

abbrev path : List ℕ
path = 0x5C ∷ b'e' ∷ []

abbrev made : ℕ × Ob
made = allocate_object 0 path typed

abbrev body : ℕ
body = 0x100060

abbrev handed : Status × ℕ × Ob
handed = insert_object body 7 made.1

made_once : (made.1.headers body).ref_count ≡ pos 1
unfolding allocate_object new_object create_type init find_type alloc next_offset align_up
    insert_object_by_name is_rooted find_name free_name_slot str_eq
made_once = refl

trace : Reachable power_on handed.2
unfolding Fresh create_type init find_type
trace =
    then_call made.1 handed.2
      (then_call typed made.1
        (then_call (init power_on) typed booted (creates (b'E' ∷ []) 32 none (init power_on)))
        (allocates 0 event_type path typed refl (λ e. no_objects 0 e)))
      (inserts body 7 made.1 (omega arith) (λ r e. omega (arith, ap magnitude (sym made_once ∙ e))))

Reachable-Inv_example : Inv (close_handle 8 handed.2).1.table (close_handle 8 handed.2).1.headers
Reachable-Inv_example =
    Reachable-Inv power_on (close_handle 8 handed.2).1 no_objects
      (then_call handed.2 (close_handle 8 handed.2).1 trace (closes 8 handed.2))

abbrev entry : HandleEntry
entry = record { object = body; access = 7 }

inserted : (handed.0 ≡ success) × (handed.1 ≡ 8) × (table_lookup 8 handed.2.table ≡ some entry)
unfolding insert_object allocate_object new_object create_type init find_type is_object table_alloc
    free_slot index_to_handle table_lookup handle_valid handle_to_index alloc next_offset align_up
    insert_object_by_name is_rooted find_name free_name_slot str_eq
inserted = (refl, refl, refl)

open_handle_example :
    reference_object_by_handle 8 none handed.2 ≡ (success, body, reference_object body handed.2)
open_handle_example = open_handle power_on handed.2 8 entry no_objects trace inserted.2

abbrev empty_table : List HandleEntry
empty_table = replicate handle_table_size free_entry

got_one : (table_alloc body 7 empty_table).0 ≢ invalid_handle_value
unfolding table_alloc free_slot index_to_handle
got_one = omega arith
