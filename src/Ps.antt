-- ===== src/Ps.antt =====
-- kernel/ps/process.cpp: the registries of processes and threads, and how threads and processes end.
-- A process is the address of its KProcess, 0 for null. The walk over the threads that wait for a
-- process has fuel; PS.Waiters shows how much is enough.
pub mod Waiters
pub mod Kill
pub mod Revive
pub mod Stack
pub mod Exit
pub mod Tests
use micro_nt.Base.{
  ℕ, zero, suc, ◌+◌, ◌-◌, ◌%◌, ◌^◌, Bool, true, false, not, ◌&&◌, ◌||◌, Option, none, some, List,
  [], ◌∷◌, ◌++◌, length, get_elem?, ltb, ◌==◌, if◌then◌else◌, update,
}
use micro_nt.Sched.{Sched, terminated, is_terminated, unblock_thread, schedule_internal}

pub record Process : Type 0 where
  pub pid : ℕ
  pub cr3 : ℕ
  pub user_heap_cursor : ℕ
  pub exit_status : ℕ
  pub thread_count : ℕ
  pub exited : Bool
  pub exit_waiters : ℕ
  pub peb_va : ℕ
  pub image_base : ℕ

-- `thread_process` is the Process of each thread; the registries are lists, in order.
pub record Ps : Type 0 where
  pub sched : Sched
  pub process : ℕ → Process
  pub thread_process : ℕ → ℕ
  pub proc_reg : List ℕ
  pub thread_reg : List ℕ
  pub next_pid : ℕ

abbrev pub max_processes : ℕ
max_processes = 32

abbrev pub max_threads : ℕ
max_threads = 64

pub register_process : ℕ → Ps → Ps
register_process p s =
    if ltb (length s.proc_reg) max_processes
    then record s { proc_reg = s.proc_reg ++ p ∷ [] }
    else s

pub register_thread : ℕ → Ps → Ps
register_thread t s =
    if ltb (length s.thread_reg) max_threads
    then record s { thread_reg = s.thread_reg ++ t ∷ [] }
    else s

pub process_count : Ps → ℕ
process_count s = length s.proc_reg

pub get_process : ℕ → Ps → ℕ
get_process i s = elim (get_elem? s.proc_reg i) [ none ↦ 0 | some p ↦ p ]

pub thread_count : Ps → ℕ
thread_count s = length s.thread_reg

pub get_thread : ℕ → Ps → ℕ
get_thread i s = elim (get_elem? s.thread_reg i) [ none ↦ 0 | some t ↦ t ]

-- The first process of the registry with the PID that has not ended.
pub find_live : ℕ → List ℕ → (ℕ → Process) → Option ℕ
find_live pid [] process = none
find_live pid (p ∷ ps) process =
    let rest = find_live pid ps process in
    if not (p == 0) && (process p).pid == pid && not (process p).exited then some p else rest

-- The registered threads of the process end.
pub terminate_threads : ℕ → (ℕ → ℕ) → List ℕ → Sched → Sched
terminate_threads target of [] s = s
terminate_threads target of (t ∷ ts) s = terminate_threads target of ts (
    if not (t == 0) && of t == target && not (is_terminated (s.state t))
    then record s { state = update s.state t terminated }
    else s)

-- The waiters of a process, from the first on.
pub wake_waiters : ℕ → ℕ → Sched → Sched
wake_waiters zero w s = s
wake_waiters (suc fuel) w s = elim (w == 0) [
  | true ↦ s
  | false ↦
      wake_waiters fuel (s.wait_next w)
        (unblock_thread w (record s { wait_next = update s.wait_next w 0 }))
]

pub kill_process : ℕ → ℕ → Ps → Bool × Ps
kill_process fuel pid s = elim (find_live pid s.proc_reg s.process) [
  | none ↦ (false, s)
  | some target ↦ (
    true,
    record s {
      process = update s.process target (record (s.process target) {
        thread_count = 0;
        exited = true;
        exit_status = 2 ^ 32 - 1;
        exit_waiters = 0;
      });
      sched =
          wake_waiters fuel (s.process target).exit_waiters
            (terminate_threads target s.thread_process s.thread_reg s.sched);
    },
  )
]

-- One thread of the process less; the last one ends the process.
pub leave_process : ℕ → ℕ → Ps → Ps
leave_process fuel p s =
    let left = (s.process p).thread_count - 1 in
    let counted = record (s.process p) { thread_count = left } in
    if p == 0 || (s.process p).thread_count == 0
    then s
    else if left == 0
    then record s {
      process = update s.process p (record counted { exited = true; exit_waiters = 0 });
      sched = wake_waiters fuel (s.process p).exit_waiters s.sched;
    }
    else record s { process = update s.process p counted }

pub terminate_current_thread : ℕ → Ps → Ps
terminate_current_thread fuel s =
    let t = s.sched.current in
    let ended = record s { sched = record s.sched { state = update s.sched.state t terminated } } in
    let left = leave_process fuel (s.thread_process t) ended in
    let last = if t == 0 then s else left in record last { sched = schedule_internal last.sched }
