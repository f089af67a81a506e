-- ===== src/Ps/Stack.antt =====
-- The stacks of new threads in kernel/ps/process.cpp: AllocStack, and the words that CreateKernelThread
-- and CreateUserThread leave for switch_context. `entry` is the address of kernel_thread_entry or
-- user_thread_entry.
pub mod Pages
pub mod Frame
use micro_nt.Base.{
  ℕ, zero, suc, ◌+◌, ◌-◌, ◌*◌, ◌/◌, ◌%◌, Bool, true, false, ◌==◌, if◌then◌else◌, update,
}
use micro_nt.Ntdef.{page_size, word_mod}
use micro_nt.Pmm.{Pmm, alloc_page}
use micro_nt.Vmm.{Words}

abbrev pub user_cs : ℕ
user_cs = 0x23

abbrev pub user_ss : ℕ
user_ss = 0x1B

abbrev pub user_flags : ℕ
user_flags = 0x202

abbrev pub switch_frame_size : ℕ
switch_frame_size = 7 * 8

abbrev pub iretq_frame_size : ℕ
iretq_frame_size = 5 * 8

-- The pages after the first; false when one is missing.
pub alloc_rest : ℕ → Pmm → Bool × Pmm
alloc_rest zero p = (true, p)
alloc_rest (suc n) p =
    let (page, after) = alloc_page p in
    let rest = alloc_rest n after in if page == 0 then (false, after) else rest

pub alloc_stack : ℕ → Pmm → ℕ × Pmm
alloc_stack size p =
    let pages = (size + page_size - 1) % word_mod / page_size in
    let (base, first) = alloc_page p in
    let (done, rest) = alloc_rest (pages - 1) first in
    if base == 0 then (0, first) else (if done then base else 0, rest)

pub stack_poke : ℕ → ℕ → ℕ → Words → Words
stack_poke top slot value mem = update mem (top - slot * 8) value

-- slot ret, then rbp, rbx, r12 to r15 as 0
switch_frame : ℕ → ℕ → ℕ → Words → Words
unfolding stack_poke
switch_frame top ret entry mem =
    let poke = λ (i : ℕ) (m : Words). stack_poke top (ret + i) 0 m in
    poke 6 (poke 5 (poke 4 (poke 3 (poke 2 (poke 1 (stack_poke top ret entry mem))))))

-- CreateKernelThread: the words, and KernelStackPtr.
pub kernel_stack : ℕ → ℕ → Words → ℕ × Words
unfolding switch_frame
kernel_stack top entry mem = (top - switch_frame_size, switch_frame top 1 entry mem)

-- CreateUserThread
pub user_stack : ℕ → ℕ → ℕ → ℕ → ℕ → Words → ℕ × Words
unfolding stack_poke switch_frame
user_stack top entry user_entry user_sp user_arg mem =
    let m1 = stack_poke top 1 user_ss mem in
    let m2 = stack_poke top 2 user_sp m1 in
    let m3 = stack_poke top 3 user_flags m2 in
    let m4 = stack_poke top 4 user_cs m3 in
    let m5 = stack_poke top 5 user_entry m4 in
    let m6 = stack_poke top 6 user_arg m5 in
    (top - switch_frame_size - iretq_frame_size - 8, switch_frame top 7 entry m6)
