-- ===== src/Sched.antt =====
-- kernel/ps/scheduler.cpp: the ready queues, one ring of threads per priority, and the switch.
-- A thread is the address of its KThread, 0 for null; a field of the threads is a function of that
-- address. The sentinels are threads too. Each call here runs with interrupts off.
pub mod Ring
pub mod Queues
pub mod Switch
pub mod Block
pub mod Machine
pub mod Sleep
mod Tests
use micro_nt.Base.{
  ℕ, zero, suc, ◌+◌, ◌-◌, ◌*◌, ◌^◌, Bool, true, false, not, ◌&&◌, ◌||◌, ltb, ◌==◌, if◌then◌else◌,
  update, bit_and,
}

pub data ThreadState : Type 0 where
  ready running blocked terminated : ThreadState

abbrev pub quantum_ticks : ℕ
quantum_ticks = 5

-- The registers that a switch loads: CR3, TSS.RSP0 and the user GS base.
pub record Cpu : Type 0 where
  pub cr3 : ℕ
  pub rsp0 : ℕ
  pub gs_base : ℕ

-- The links of the ready queues.
pub record Links : Type 0 where
  pub next : ℕ → ℕ
  pub prev : ℕ → ℕ

-- `process_cr3` is the Cr3 of a thread's process, `has_process` that it has one, `stack_top` the end
-- of its kernel stack.
pub record Sched : Type 0 where
  pub links : Links
  pub priority : ℕ → ℕ
  pub state : ℕ → ThreadState
  pub wait_next : ℕ → ℕ
  pub has_process : ℕ → Bool
  pub process_cr3 : ℕ → ℕ
  pub stack_top : ℕ → ℕ
  pub teb_va : ℕ → ℕ
  pub current : ℕ
  pub active : Bool
  pub quantum : ℕ
  pub cpu : Cpu

pub clamp_pri : ℕ → ℕ
clamp_pri p = if ltb p 3 then p else 1

-- &s_sentinel[pri]
abbrev pub sentinel : ℕ → ℕ
sentinel pri = pri + 1

pub insert_before : ℕ → ℕ → Links → Links
insert_before t sen l =
    let last = l.prev sen in
    record {
      next = update (update l.next t sen) last t;
      prev = update (update l.prev t last) sen t;
    }

pub queue_push_back : ℕ → Sched → Sched
queue_push_back t s = record s {
  links = insert_before t (sentinel (clamp_pri (s.priority t))) s.links;
}

pub queue_remove : ℕ → Links → Links
queue_remove t l =
    let next = update l.next (l.prev t) (l.next t) in
    let prev = update l.prev (next t) (l.prev t) in
    if l.next t == 0 || l.prev t == 0
    then l
    else record { next = update next t 0; prev = update prev t 0 }

-- The scan from the priority before `n` down, with 0 if all the queues are empty.
pub queue_pop : ℕ → Links → ℕ × Links
queue_pop zero l = (0, l)
queue_pop (suc pri) l =
    let rest = queue_pop pri l in
    let first = l.next (sentinel pri) in
    if first == sentinel pri then rest else (first, queue_remove first l)

pub init : Sched → Sched
init s = record s {
  links = record {
    next = update (update (update s.links.next 1 1) 2 2) 3 3;
    prev = update (update (update s.links.prev 1 1) 2 2) 3 3;
  };
}

start : ℕ → Sched → Sched
start main s = record s {
  current = main;
  state = update s.state main running;
  quantum = quantum_ticks;
  active = true;
}

pub add_thread : ℕ → Sched → Sched
add_thread t s = queue_push_back t (record s { state = update s.state t ready })

remove_thread : ℕ → Sched → Sched
remove_thread t s = record s { links = queue_remove t s.links }

abbrev pub is_running : ThreadState → Bool
is_running ready = false
is_running running = true
is_running blocked = false
is_running terminated = false

-- What the switch to `next` loads.
abbrev switch_cpu : ℕ → Sched → Cpu
switch_cpu next s = record {
  cr3 =
      if s.has_process next && not (s.process_cr3 next == bit_and s.cpu.cr3 0x000FFFFFFFFFF000)
      then s.process_cr3 next
      else s.cpu.cr3;
  rsp0 = s.stack_top next;
  gs_base = s.teb_va next;
}

-- prev->State == RUNNING: it goes back to its queue.
pub requeue : ℕ → Sched → Sched
requeue t s =
    if is_running (s.state t)
    then queue_push_back t (record s { state = update s.state t ready })
    else s

pub switch_to : ℕ → Sched → Sched
unfolding requeue
switch_to next s =
    let kept = requeue s.current s in
    record kept {
      current = next;
      state = update kept.state next running;
      quantum = quantum_ticks;
      cpu = switch_cpu next kept;
    }

pub schedule_internal : Sched → Sched
unfolding switch_to
schedule_internal s =
    let (next, links) = queue_pop 3 s.links in
    let popped = record s { links = links } in
    if not s.active || s.current == 0
    then s
    else if next == 0
    then popped
    else if next == s.current
    then record (queue_push_back next popped) { quantum = quantum_ticks }
    else switch_to next popped

unfoldable pub block_current_thread : Sched → Sched
block_current_thread s =
    if s.current == 0 then s else record s { state = update s.state s.current blocked }

abbrev pub is_terminated : ThreadState → Bool
is_terminated ready = false
is_terminated running = false
is_terminated blocked = false
is_terminated terminated = true

pub unblock_thread : ℕ → Sched → Sched
unblock_thread t s =
    if t == 0 || is_terminated (s.state t)
    then s
    else queue_push_back t (record s { state = update s.state t ready })

current_thread : Sched → ℕ
current_thread s = s.current

is_active : Sched → Bool
is_active s = s.active
