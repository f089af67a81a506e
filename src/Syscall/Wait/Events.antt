-- ===== src/Syscall/Wait/Events.antt =====
-- Events by their handles, and NtWaitForSingleObject over all handles.
use micro_nt.Base.{ℕ, ◌+◌, ◌-◌, ◌%◌, ◌^◌, not, ◌||◌, none, some, leb, ◌==◌, if◌then◌else◌, update}
use micro_nt.Ntdef.{word_mod}
use micro_nt.Sync.{WaitStatus, event_alloc, event_set, event_reset, event_wait}
use micro_nt.Syscall.{Status, success, timeout, unsuccessful, invalid_handle}
use micro_nt.Syscall.Wait.{
  Kernel, sema_handle_base, mutant_handle_base, proc_handle_base, event_table_size, set_sched,
  free_index, wait_process, wait_mutant, wait_semaphore,
}

pub of_wait : WaitStatus → Status
of_wait WaitStatus.success = success
of_wait WaitStatus.timeout = timeout
of_wait WaitStatus.unsuccessful = unsuccessful

-- The index of an event handle; 0 wraps to a large one.
abbrev event_index : ℕ → ℕ
event_index a1 = (a1 + word_mod - 1) % word_mod

pub wait_event : ℕ → ℕ → Kernel → Status × Kernel
wait_event i a2 k =
    let ev = k.events i in
    let (st, next, sched) = event_wait (a2 % 2 ^ 32) (k.event_at ev) k.ps.sched in
    if leb event_table_size i || ev == 0
    then (invalid_handle, k)
    else (of_wait st, set_sched sched (record k { event_at = update k.event_at ev next }))

-- The range of the handle says what it is.
unfoldable pub wait_single : ℕ → ℕ → Kernel → Status × Kernel
wait_single a1 a2 k =
    if leb proc_handle_base a1
    then wait_process (a1 - proc_handle_base) a2 k
    else if leb mutant_handle_base a1
    then wait_mutant (a1 - mutant_handle_base) k
    else if leb sema_handle_base a1
    then wait_semaphore (a1 - sema_handle_base) a2 k
    else wait_event (event_index a1) a2 k

create_event : ℕ → ℕ → Kernel → ℕ × Kernel
create_event a1 a2 k =
    let (ev, heap, memory, event_at) =
      event_alloc (not (a1 == 0)) (not (a2 == 0)) k.heap k.memory k.event_at in
    let made = record k { heap = heap; memory = memory; event_at = event_at } in
    if ev == 0
    then (0, made)
    else elim (free_index event_table_size 0 (λ i. not (k.events i == 0))) [
      | none ↦ (0, made)
      | some i ↦ (i + 1, record made { events = update k.events i ev })
    ]

set_event : ℕ → Kernel → Status × Kernel
set_event a1 k =
    let i = event_index a1 in
    let ev = k.events i in
    let (next, sched) = event_set (k.event_at ev) k.ps.sched in
    if leb event_table_size i || ev == 0
    then (invalid_handle, k)
    else (success, set_sched sched (record k { event_at = update k.event_at ev next }))

reset_event : ℕ → Kernel → Status × Kernel
reset_event a1 k =
    let i = event_index a1 in
    let ev = k.events i in
    if leb event_table_size i || ev == 0
    then (invalid_handle, k)
    else (success, record k { event_at = update k.event_at ev (event_reset (k.event_at ev)) })
