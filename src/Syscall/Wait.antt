-- ===== src/Syscall/Wait.antt =====
-- The handles of kernel/syscall/syscall.cpp that a thread can wait for: semaphores, mutants, events and
-- processes. A call that blocks ends here where the thread is switched away from. The head and the tail
-- of the threads that wait are a record; a handle is a number, and 0 is a failure.
pub mod Fifo
pub mod Blocking
pub mod Semaphore
pub mod Overflow
pub mod Ownership
pub mod Events
pub mod Handles
pub mod Dead
use micro_nt.Base.{
  ℕ, zero, suc, ◌+◌, ◌-◌, ◌*◌, ◌%◌, ◌^◌, Bool, true, false, not, ◌&&◌, ◌||◌, Option, none, some,
  ltb, leb, ◌==◌, if◌then◌else◌, update,
}
use micro_nt.Base.Int.{ℤ, pos, negsuc, is_nonpos}
use micro_nt.Ntdef.{word_mod}
use micro_nt.KernelHeap.{Heap, Memory}
use micro_nt.Sched.{Sched, schedule_internal, block_current_thread, unblock_thread}
use micro_nt.Sync.{Event, WaitStatus, event_alloc, event_set, event_reset, event_wait}
use micro_nt.Ps.{Process, Ps}
use micro_nt.Syscall.{Status, success, timeout, unsuccessful, invalid_handle, mutant_not_owned}

pub record Waiting : Type 0 where
  pub head : ℕ
  pub tail : ℕ

-- The thread waits behind the others; and the first of the threads stops waiting.
pub enqueue : ℕ → Waiting → Sched → Waiting × Sched
enqueue t w s =
    let cut = update s.wait_next t 0 in
    (
      record { head = if w.tail == 0 then t else w.head; tail = t },
      record s { wait_next = if w.tail == 0 then cut else update cut w.tail t },
    )

pub dequeue : Waiting → Sched → Waiting × Sched
dequeue w s =
    let next = s.wait_next w.head in
    (
      record { head = next; tail = if next == 0 then 0 else w.tail },
      record s { wait_next = update s.wait_next w.head 0 },
    )

pub record Sema : Type 0 where
  pub count : ℤ
  pub max_count : ℕ
  pub waiting : Waiting
  pub in_use : Bool

pub record Mutant : Type 0 where
  pub owner : ℕ
  pub depth : ℕ
  pub waiting : Waiting
  pub in_use : Bool

-- The tables, the processes with the scheduler, and the events at their addresses on the heap.
pub record Kernel : Type 0 where
  pub ps : Ps
  pub semas : ℕ → Sema
  pub mutants : ℕ → Mutant
  pub proc_table : ℕ → ℕ
  pub events : ℕ → ℕ
  pub event_at : ℕ → Event
  pub heap : Heap
  pub memory : Memory

abbrev pub sema_handle_base : ℕ
sema_handle_base = 0x100

abbrev pub mutant_handle_base : ℕ
mutant_handle_base = 0x200

abbrev pub proc_handle_base : ℕ
proc_handle_base = 0x300

abbrev pub sema_max : ℕ
sema_max = 8

abbrev pub mutant_max : ℕ
mutant_max = 8

abbrev pub proc_table_size : ℕ
proc_table_size = 8

abbrev pub event_table_size : ℕ
event_table_size = 32

abbrev pub set_sched : Sched → Kernel → Kernel
set_sched s k = record k { ps = record k.ps { sched = s } }

-- The first index from `i` on that is not taken, in so many rounds.
pub free_index : ℕ → ℕ → (ℕ → Bool) → Option ℕ
free_index zero i taken = none
free_index (suc rounds) i taken =
    let rest = free_index rounds (i + 1) taken in if taken i then rest else some i

-- Sched::BlockCurrentThread and Sched::Schedule
pub block : Sched → Sched
block s = schedule_internal (block_current_thread s)

-- A sum of 32 bits with its sign, as the machine computes it.
pub signed : ℕ → ℤ
signed n = if ltb n (2 ^ 31) then pos n else negsuc (2 ^ 32 - 1 - n)

pub add_count : ℤ → ℕ → ℤ
add_count (pos c) rel = signed ((c + rel) % 2 ^ 32)
add_count (negsuc c) rel = if ltb c rel then pos (rel - (c + 1)) else negsuc (c - rel)

pub is_above : ℤ → ℕ → Bool
is_above (pos n) most = ltb most n
is_above (negsuc n) most = false

-- --count, where it is positive
pub one_less : ℤ → ℤ
one_less (pos n) = pos (n - 1)
one_less (negsuc n) = negsuc (n + 1)

pub create_semaphore : ℕ → ℕ → Kernel → ℕ × Kernel
create_semaphore a1 a2 k =
    let count = a1 % 2 ^ 32 in
    let most = a2 % 2 ^ 32 in
    let made : Sema = record {
      count = pos count;
      max_count = most;
      waiting = record { head = 0; tail = 0 };
      in_use = true;
    } in
    if leb (2 ^ 31) count || most == 0 || leb (2 ^ 31) most || ltb most count
    then (0, k)
    else elim (free_index sema_max 0 (λ i. (k.semas i).in_use)) [
      | none ↦ (0, k)
      | some i ↦ (sema_handle_base + i, record k { semas = update k.semas i made })
    ]

-- while (rel > 0 && head): the count that is left, the threads that still wait.
pub wake_first : ℕ → Waiting → Sched → ℕ × Waiting × Sched
wake_first zero w s = (0, w, s)
wake_first (suc rel) w s = elim (w.head == 0) [
  | true ↦ (suc rel, w, s)
  | false ↦ let (w', cut) = dequeue w s in wake_first rel w' (unblock_thread w.head cut)
]

-- rel <= 0 counts as 1.
unfoldable pub released : ℕ → ℕ
released a2 = let rel = a2 % 2 ^ 32 in if rel == 0 || leb (2 ^ 31) rel then 1 else rel

pub release_semaphore : ℕ → ℕ → Kernel → Status × Kernel
release_semaphore a1 a2 k =
    let i = a1 - sema_handle_base in
    let s = k.semas i in
    let (rel, waiting, sched) = wake_first (released a2) s.waiting k.ps.sched in
    let sum = add_count s.count rel in
    let count = if is_above sum s.max_count then pos s.max_count else sum in
    if ltb a1 sema_handle_base || leb sema_max i || not s.in_use then (invalid_handle, k) else (
      success,
      set_sched sched
          (record k { semas = update k.semas i (record s { count = count; waiting = waiting }) }),
    )

pub create_mutant : ℕ → Kernel → ℕ × Kernel
create_mutant a1 k =
    let made : Mutant = record {
      owner = if a1 == 0 then 0 else k.ps.sched.current;
      depth = if a1 == 0 then 0 else 1;
      waiting = record { head = 0; tail = 0 };
      in_use = true;
    } in
    elim (free_index mutant_max 0 (λ i. (k.mutants i).in_use)) [
      | none ↦ (0, k)
      | some i ↦ (mutant_handle_base + i, record k { mutants = update k.mutants i made })
    ]

-- The mutant goes to the first thread that waits, or is free.
pub hand_over : Mutant → Sched → Mutant × Sched
hand_over m s =
    let t = m.waiting.head in
    let (waiting, cut) = dequeue m.waiting s in
    if t == 0
    then (record m { owner = 0; depth = 0 }, s)
    else (record m { owner = t; depth = 1; waiting = waiting }, unblock_thread t cut)

pub release_mutant : ℕ → Kernel → Status × Kernel
release_mutant a1 k =
    let i = a1 - mutant_handle_base in
    let m = k.mutants i in
    let depth = (m.depth + 2 ^ 32 - 1) % 2 ^ 32 in
    let (next, sched) = hand_over m k.ps.sched in
    if ltb a1 mutant_handle_base || leb mutant_max i || not m.in_use
    then (invalid_handle, k)
    else if not (m.owner == k.ps.sched.current)
    then (mutant_not_owned, k)
    else if depth == 0
    then (success, set_sched sched (record k { mutants = update k.mutants i next }))
    else (success, record k { mutants = update k.mutants i (record m { depth = depth }) })

pub wait_process : ℕ → ℕ → Kernel → Status × Kernel
wait_process i a2 k =
    let p = k.proc_table i in
    let process = k.ps.process p in
    let s = k.ps.sched in
    let linked = record s { wait_next = update s.wait_next s.current process.exit_waiters } in
    let waits = update k.ps.process p (record process { exit_waiters = s.current }) in
    if leb proc_table_size i || p == 0
    then (invalid_handle, k)
    else if process.exited
    then (success, k)
    else if a2 == 0
    then (timeout, k)
    else (success, record k { ps = record k.ps { process = waits; sched = block linked } })

-- A mutant is waited for whatever the timeout is.
pub wait_mutant : ℕ → Kernel → Status × Kernel
wait_mutant i k =
    let m = k.mutants i in
    let cur = k.ps.sched.current in
    let (waiting, linked) = enqueue cur m.waiting k.ps.sched in
    if leb mutant_max i || not m.in_use
    then (invalid_handle, k)
    else if m.owner == 0
    then (success, record k { mutants = update k.mutants i (record m { owner = cur; depth = 1 }) })
    else if m.owner == cur
    then (
      success,
      record k { mutants = update k.mutants i (record m { depth = (m.depth + 1) % 2 ^ 32 }) },
    )
    else (
      success,
      set_sched (block linked)
          (record k { mutants = update k.mutants i (record m { waiting = waiting }) }),
    )

pub wait_semaphore : ℕ → ℕ → Kernel → Status × Kernel
wait_semaphore i a2 k =
    let s = k.semas i in
    let (waiting, linked) = enqueue k.ps.sched.current s.waiting k.ps.sched in
    if leb sema_max i || not s.in_use
    then (invalid_handle, k)
    else if not (is_nonpos s.count)
    then (success, record k { semas = update k.semas i (record s { count = one_less s.count }) })
    else if a2 == 0
    then (timeout, k)
    else (
      success,
      set_sched (block linked)
          (record k { semas = update k.semas i (record s { waiting = waiting }) }),
    )
