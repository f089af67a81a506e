-- ===== src/Syscall/Tests.antt =====
-- A kernel whose semaphore 3, with no count, and whose mutant 2, which thread 9 owns, thread 11 waits
-- for; a process with a heap, a section and a pipe; and lines that are typed.
use micro_nt.Base.{
  ℕ, zero, suc, ◌+◌, ◌-◌, ◌*◌, ◌^◌, length, get_elem?, ◌<◌, ◌≡◌, ◌≢◌, refl, ap, true, false, none,
  some, List, [], ◌∷◌, ◌++◌, take, arith,
}
use micro_nt.Base.Int.{pos}
use micro_nt.Sched.Machine.{
  machine, one_ready, one_ready-Inv, still_active, normal_queue, no_waiters, still_current,
}
use micro_nt.Sched.Ring.{Off, Distinct}
use micro_nt.Sched.Sleep.Line.{Line}
use micro_nt.Ps.Waiters.{release_all}
use micro_nt.Ps.Tests.{two_threads}
use micro_nt.Vmm.Tests.{start}
use micro_nt.Syscall.{timeout}
use micro_nt.Syscall.Wait.{
  Waiting, Kernel, Sema, Mutant, released, release_semaphore, wait_semaphore, release_mutant,
  wait_mutant,
}
use micro_nt.Syscall.Wait.Fifo.{Holds, last_of}
use micro_nt.Syscall.Wait.Semaphore.{
  SemaHolds, SemaWait, release_semaphore_lem, wait_semaphore-SemaWait,
}
use micro_nt.Syscall.Wait.Overflow.{wait_semaphore-release_semaphore}
use micro_nt.Syscall.Wait.Ownership.{
  MutantHolds, MutantWait, MutantRelease, wait_mutant-MutantWait, release_mutant-MutantRelease,
}
use micro_nt.Syscall.Memory.{Services, caller, alloc_vm}
use micro_nt.Syscall.Memory.Heap.{cursor, alloc_vm_moves_back}
use micro_nt.Syscall.Files.{Pipe, Files, capped, write_file, read_file}
use micro_nt.Syscall.Files.Pipes.{Wrote, write_file-Appended, read_file-Appended}
use micro_nt.Syscall.Line.{line_room, read_line, hist_get, kill, pfmt, command_of, hist_add}
use micro_nt.Syscall.Line.Recent.{no_lines, add_all, remember_all, hist_get-add_all}
use micro_nt.Syscall.Line.Edit.{AllType, types, read_line_long}
use micro_nt.Syscall.Line.Pid.{command_of-pfmt}

abbrev waits_11 : Waiting
waits_11 = record { head = 11; tail = 11 }

abbrev sema : Sema
sema = record { count = pos 0; max_count = 5; waiting = waits_11; in_use = true }

abbrev mutant : Mutant
mutant = record { owner = 9; depth = 1; waiting = waits_11; in_use = true }

abbrev kernel : Kernel
kernel = record {
  ps = two_threads;
  semas = λ _. sema;
  mutants = λ _. mutant;
  proc_table = λ _. 0;
  events = λ _. 0;
  event_at = λ _. record { signaled = false; auto_reset = true; waiters = 0 };
  heap = record { base = 0; size = 0; used = 0 };
  memory = λ _. 0;
}

waits_11-Holds : Holds kernel.ps.sched.wait_next waits_11 (11 ∷ [])
unfolding Line Distinct Off last_of
waits_11-Holds = record { line = (refl, omega arith, no_waiters); tail = refl; distinct = (_, _) }

sema-SemaHolds : SemaHolds 3 kernel (11 ∷ []) 0
sema-SemaHolds = record {
  slot = omega arith;
  used = refl;
  count = refl;
  most = omega arith;
  small = omega arith;
  busy = λ lt. absurd (omega (arith, lt));
  waiting = waits_11-Holds;
}

releases_two : released 2 ≡ 2
unfolding released
releases_two = refl

release_semaphore_lem_example :
    (release_semaphore (0x100 + 3) 2 kernel).1.ps.sched
    ≡ release_all (take (released 2) (11 ∷ [])) kernel.ps.sched
release_semaphore_lem_example =
    (release_semaphore_lem 3 2 kernel (11 ∷ []) 0 sema-SemaHolds (omega (arith, releases_two))).1

current-Off : Off kernel.ps.sched.current (11 ∷ [])
unfolding Off
current-Off = (λ e. omega (arith, e, still_current), _)

wait_semaphore-SemaWait_example : SemaWait 3 7 (11 ∷ []) 0 kernel (wait_semaphore 3 7 kernel)
wait_semaphore-SemaWait_example =
    wait_semaphore-SemaWait 3 7 kernel (11 ∷ []) 0 one_ready 1 10 [] sema-SemaHolds current-Off
      still_active one_ready-Inv (omega arith) normal_queue

-- A semaphore at its largest count.
abbrev full_kernel : Kernel
full_kernel = record kernel {
  semas = λ _. record {
    count = pos (2 ^ 31 - 1);
    max_count = 2 ^ 31 - 1;
    waiting = record { head = 0; tail = 0 };
    in_use = true;
  };
}

full-SemaHolds : SemaHolds 3 full_kernel [] (2 ^ 31 - 1)
unfolding Line Distinct last_of
full-SemaHolds = record {
  slot = omega arith;
  used = refl;
  count = refl;
  most = omega arith;
  small = omega arith;
  busy = λ _. refl;
  waiting = record { line = refl; tail = refl; distinct = _ };
}

wait_semaphore-release_semaphore_example :
    wait_semaphore 3 0 (release_semaphore (0x100 + 3) 2 full_kernel).1
    ≡ (timeout, (release_semaphore (0x100 + 3) 2 full_kernel).1)
wait_semaphore-release_semaphore_example =
    (wait_semaphore-release_semaphore 3 2 full_kernel (2 ^ 31 - 1) full-SemaHolds
      (omega (arith, releases_two))).1

mutant-MutantHolds :
    (k : Kernel)
    → k.mutants ≡ kernel.mutants
    → k.ps.sched.wait_next ≡ kernel.ps.sched.wait_next
    → MutantHolds 2 k (11 ∷ [])
mutant-MutantHolds k e links = record {
  slot = omega arith;
  used = rw e refl;
  free = rw e (λ z. absurd (omega (arith, z)));
  owned = rw e (λ _. omega arith);
  small = rw e (omega arith);
  waiting = rw (e, links) waits_11-Holds;
}

abbrev other_owner : Kernel
other_owner = record kernel { mutants = λ _. record mutant { owner = 12 } }

other-MutantHolds : MutantHolds 2 other_owner (11 ∷ [])
other-MutantHolds = record {
  slot = omega arith;
  used = refl;
  free = λ z. absurd (omega (arith, z));
  owned = λ _. omega arith;
  small = omega arith;
  waiting = waits_11-Holds;
}

wait_mutant-MutantWait_example : MutantWait 2 (11 ∷ []) other_owner (wait_mutant 2 other_owner)
wait_mutant-MutantWait_example =
    wait_mutant-MutantWait 2 other_owner (11 ∷ []) one_ready 1 10 [] other-MutantHolds (omega arith)
      current-Off still_active one_ready-Inv (omega arith) normal_queue

some_current : kernel.ps.sched.current ≢ 0
some_current e = omega (arith, e, still_current)

release_mutant-MutantRelease_example :
    MutantRelease 2 (11 ∷ []) kernel (release_mutant (0x200 + 2) kernel)
release_mutant-MutantRelease_example =
    release_mutant-MutantRelease 2 kernel (11 ∷ []) (mutant-MutantHolds kernel refl refl)
      some_current

-- Thread 9 of the process at 0x8000 runs; the root of the process is at 0x1000.
abbrev services : Services
services = record {
  vmm = start;
  ps = record two_threads { sched = machine };
  sections = λ _. record { phys = λ _. 0x88000; page_count = 1; in_use = true };
  tid = λ t. t;
}

calls : caller services.ps ≡ some 0x8000
unfolding caller
calls = refl

alloc_vm_moves_back_example :
    cursor 0x8000 (alloc_vm (2 ^ 64 - 1 * 0x1000) services).1 ≡ 0x4FFFFF000
alloc_vm_moves_back_example =
    alloc_vm_moves_back 1 0x8000 services (omega arith) (omega arith) (omega arith) calls

abbrev pipe : Pipe
pipe = record { name = b'p' ∷ []; bytes = λ _. 0; size = 500; used = true }

abbrev files : Files
files = record {
  services = services;
  vfs = record { wnodes = []; boot = none; rt_va = 0 };
  pipes = λ _. pipe;
  console = [];
}

write_file-Appended_example : (write_file (0x80 + 2) 0x1000 20 files).0 ≡ 12
unfolding capped
write_file-Appended_example =
    (write_file-Appended 2 0x8000 0x1000 20 files (omega arith) refl (omega arith) calls).count

read_file-Appended_example :
    Wrote 2 0x8000 0x1000 20 files (read_file (0x80 + 2) 0x1000 20 40 files)
read_file-Appended_example =
    read_file-Appended 2 0x8000 0x1000 20 40 files (omega arith) refl (omega arith) calls

-- A line of 600 keys.
key_row : ℕ → List ℕ
key_row zero = []
key_row (suc n) = b'a' ∷ key_row n

key_row-AllType : (n : ℕ) → AllType (key_row n)
unfolding AllType types key_row
key_row-AllType zero = _
key_row-AllType (suc n) = (refl, key_row-AllType n)

length-key_row : (n : ℕ) → length (key_row n) ≡ n
unfolding key_row
length-key_row zero = refl
length-key_row (suc n) = ap suc (length-key_row n)

read_line_long_example :
    (line : List ℕ) × (read_line (key_row 600 ++ 10 ∷ []) 1024 no_lines
      ≡ some (line, hist_add line no_lines))
    × (line_room < length line)
read_line_long_example =
    read_line_long (key_row 600) [] 1024 no_lines (key_row-AllType 600)
      (omega (arith, length-key_row 600)) (omega (arith, length-key_row 600))

command_of-pfmt_example :
    command_of (b'k' ∷ (b'i' ∷ (b'l' ∷ (b'l' ∷ (b' ' ∷ pfmt 42 0))))) ≡ kill 42
command_of-pfmt_example = command_of-pfmt 42 (omega arith)

hist_get-add_all_example :
    hist_get 2 (add_all ((b'p' ∷ []) ∷ ((b'q' ∷ []) ∷ [])) no_lines)
    ≡ get_elem? (remember_all ((b'p' ∷ []) ∷ ((b'q' ∷ []) ∷ [])) []) 1
hist_get-add_all_example = hist_get-add_all 2 ((b'p' ∷ []) ∷ ((b'q' ∷ []) ∷ []))
