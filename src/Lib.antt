-- ===== src/Lib.antt =====
-- MicroNT: the core of the kernel of a small NT-like system, modelled for verification.
--
-- The boot loader hands boot information to the kernel, which builds a page allocator (PMM) from the
-- firmware's memory map, page tables (VMM) and a heap on some of its pages, an object manager over the heap, a scheduler with
-- events, a small file system whose writable part is kept in a firmware variable, the drivers of keyboard and
-- mouse, the system calls over all of these, and the pointer's side of the shell.
--
-- The files, and the code that each models:
--   Base          lists, tests, maps, signed counters and bit operations that the parts share
--   Ntdef         kernel/include/ntdef.h: AlignUp, AlignDown and the page size
--   BootInfo      kernel/include/bootinfo.h: the boot information
--   Pmm           kernel/mm/physical_memory.cpp: Init, AllocPage, AllocPages, FreePage. The state is
--                 the bitmap, two counters and the search hint. Bitmap, Count, Alloc, Run and Boot
--                 hold the laws of the bits, of the counter, and of each operation.
--   Vmm           kernel/mm/virtual_memory.cpp: the page tables as 64-bit words in a memory that is mapped to
--                 itself, with the allocator. Entry has the bits of an entry, Walk the walk from a root
--                 and what makes its tables a tree, Write a write of an entry, Zero, Grow and Alloc
--                 get_or_alloc, Page and Map MapPageInto, Edit the calls that change or read an entry,
--                 User CreateUserPml4 with its two pages.
--   KernelHeap    kernel/mm/heap.cpp: Alloc, AllocZeroed and Free over the base, size and count in use.
--                 Alloc is about one request, Blocks about a sequence of them.
--   Vfs           kernel/io/vfs.cpp: the boot files, WFind, WFindOrCreate, MkDir, Delete, WWrite, WRead,
--                 and LoadNVRAM and SaveNVRAM. Names compares names, Nodes is about the table, Data
--                 about contents, Persist about the variable.
--   Ob            kernel/ob/object_manager.cpp and kernel/include/object.h: types, objects, handles and
--                 names. Handles is about the handle table, Counts and Objects about reference counts,
--                 History about any sequence of calls from Init on.
--   Sched         kernel/ps/scheduler.cpp and the threads of kernel/include/process.h. The ready queues
--                 are the linked rings of the code; Ring and Queues relate them to lists, and Switch
--                 is about ScheduleInternal, Block about a thread that gives up the processor. Sleep adds Sleep,
--                 WakeSleepers and Tick with the list of sleepers: Line, Wake, Slept and Tick are about
--                 them. Machine is a small state for the tests.
--   Ps            kernel/ps/process.cpp: the registries of processes and threads, KillProcess and
--                 TerminateCurrentThread (Waiters, Kill, Revive, Exit), and the stacks of new threads with
--                 AllocStack (Stack, with Pages and Frame).
--   Ldr           kernel/ldr/pe_loader.cpp: FindExport with its walk over section headers, and the registry of
--                 modules; an image is a function of its offsets. Offsets, Exports and Modules are about them. Sections
--                 has MapSections over the page tables, with Fill on the bytes that it writes, Load has ResolveImports, LoadPe, LoadLibrary and
--                 NotifyImageLoaded of kernel/ps/process.cpp; Load.Foreign is about LoadLibrary in
--                 another address space.
--   Sync          kernel/sync/event.cpp: EventAlloc over the heap, EventSet and EventWait over the scheduler;
--                 Waiters has the laws.
--   Rtl           kernel/rtl/string.cpp: memset, memcpy, memmove, memcmp and the string functions; Memory,
--                 Strings and Text have the laws.
--   Shell         kernel/win32k/shellinput.cpp, and ComputeTaskbar of kernel/win32k/desktopmodel.cpp: the
--                 hit test and the events of the pointer. Hits is about targets, Pointer.Clicks about
--                 sequences of samples. Scene is kernel/win32k/windowmgr.cpp, the windows and the one in
--                 front, and Activation kernel/win32k/shellact.cpp, the active window;
--                 Surface is kernel/win32k/winsta.cpp, kernel/sm/shellhost.cpp and
--                 kernel/win32k/shelltray.cpp, the desktop of a session with its surface and tray. Session is
--                 the desktop's loop in kernel/sm/session_manager.cpp over the mouse of Hal, with Windows,
--                 Drag and Pump.
--   Hal           kernel/hal/x64/keyboard.cpp and kernel/hal/x64/mouse.cpp: the interrupt handlers and the
--                 rings that they fill. Ring is the ring of both, and Ring.Queue relates it to a list;
--                 Keyboard.Typing is about keys and readers, Mouse.Packets about packets.
--   Syscall       kernel/syscall/syscall.cpp: the services of KiSystemCall. Wait has semaphores,
--                 mutants and waits for them and for processes over the scheduler: Fifo, Blocking,
--                 Semaphore, Ownership and Handles have the laws, Events the events and the wait over
--                 all handles, Overflow and Dead what goes wrong. Memory has the heap of a process,
--                 sections and their views (Heap, Backed, Granted, Views, Refused), and Info protection and queries.
--                 Files has files and pipes over the file system (Names, Pipes). Line has the line
--                 editor, its history and the commands (Recent, Complete, Edit, Pid).
-- Each Tests file applies the results at concrete states.
--
-- An operation is a function from the state to its result and the new state. A pointer is its address,
-- 0 for null; an array is a list or a function of its index; a C string is the list of its bytes. A word
-- is a natural number with its wrap-around written out, and subtraction is written so that it wraps where
-- the code's does. Most loops are structural recursion on the number of rounds that the loop's bound gives,
-- so that no fuel can run out: the searches of AllocPage and AllocPages make a round for each page left, Init one
-- for each page of an entry, QueuePop one for each priority, the memory routines one for each byte, and a walk over
-- page tables goes down one level in each step.
--
-- The firmware's GetVariable and SetVariable are a record that Persist takes, whose one law is that a
-- successful write is what is read next. Reference counts are i32 that wrap; the rules of Ob.History raise none past the largest.
-- Locks and disabled interrupts make each call one step. A switch of context is the change of the current
-- thread and of the registers that the code loads; of the stacks, only what a new thread's holds is modelled.
--
-- The processor's cache of translations and its CR3 are not modelled, so MapPage is MapPageInto on the
-- kernel's root.
--
-- The walks over the sleepers, over the waiters of a process and over C strings have no bound in the code;
-- they take fuel, and the results about them say that fuel above the length of the list is enough.
--
-- The walks of the PE loader over import descriptors, thunks and names have no bound either: they take fuel,
-- and the loader gives none when it is not enough.
--
-- PumpInteractiveInput takes one packet in a round, and the ring holds at most 31, so 32 rounds are
-- enough; no interrupt comes between two packets. ReadUserBytes copies a byte at least in each round,
-- so as many rounds as bytes are enough. The line editor goes through the keys that come; with no more
-- keys and no Enter it still waits, which is the result none.
--
-- Not modelled: the PEB and TEB pages and CreateProcess of the processes; of the system calls, those
-- that create threads and processes, NtWaitForMultipleObjects, NtOpenEvent, the listings of
-- NtQuerySystemInformation and NtQueryDirectory, exceptions, and what the line editor's commands do;
-- the start of a session with the registry, the shell's other models, the set-up of the devices,
-- output to the screen, printing, the boot loader and the user programs.
pub mod Base
pub mod Ntdef
pub mod BootInfo
pub mod Pmm
pub mod Vmm
pub mod Ps
pub mod Ldr
pub mod Hal
pub mod Syscall
pub mod KernelHeap
pub mod Vfs
pub mod Ob
pub mod Sched
pub mod Sync
pub mod Rtl
pub mod Shell
