-- ===== src/Syscall/Memory/Info.antt =====
-- Protection, and what the services tell about memory, processes, threads and time.
use micro_nt.Base.{
  ℕ, zero, suc, ◌+◌, ◌-◌, ◌*◌, ◌%◌, ◌/◌, not, ◌&&◌, none, some, leb, ◌==◌, if◌then◌else◌, bit_and,
  bit_or,
}
use micro_nt.Ntdef.{page_size, word_mod}
use micro_nt.Vmm.{Vmm, pte_present, pte_writable, pte_user, protect_page_into, get_pte_into}
use micro_nt.Syscall.{Status, success, unsuccessful, info_length_mismatch}
use micro_nt.Syscall.Memory.{Services, caller, write_user_byte, write_user_u64, write_user_u32}

pub protect_pages : ℕ → ℕ → ℕ → ℕ → ℕ → Vmm → Vmm
protect_pages zero i pml4 base flags s = s
protect_pages (suc n) i pml4 base flags s =
    protect_pages n (i + 1) pml4 base flags
      (protect_page_into pml4 ((base + i * page_size) % word_mod) flags s).1

-- The rights that a Win32 protection gives.
pub protection : ℕ → ℕ
protection a3 =
    let flags = bit_or pte_present pte_user in
    if bit_and a3 0xCC == 0 then flags else bit_or flags pte_writable

unfoldable pub protect_vm : ℕ → ℕ → ℕ → Services → Status × Services
protect_vm a1 a2 a3 s = elim (caller s.ps) [
  | none ↦ (unsuccessful, s)
  | some p ↦
      let span = (a2 + a1 % page_size + page_size - 1) % word_mod / page_size in
      let cr3 = (s.ps.process p).cr3 in
      let pages = if span == 0 then 1 else span in
      let vmm = protect_pages pages 0 cr3 (a1 / page_size * page_size) (protection a3) s.vmm in
      (success, record s { vmm = vmm })
]

-- 48 zero bytes and then the fields.
pub blank48 : ℕ → ℕ → ℕ → Vmm → Vmm
blank48 zero i pml4 s = s
blank48 (suc n) va pml4 s = blank48 n (va + 1) pml4 (write_user_byte pml4 (va % word_mod) 0 s)

unfoldable pub query_vm : ℕ → ℕ → Services → Status × Services
query_vm a1 a2 s = elim (caller s.ps) [
  | none ↦ (unsuccessful, s)
  | some p ↦
      let pml4 = (s.ps.process p).cr3 in
      let va = a1 / page_size * page_size in
      let pte = get_pte_into pml4 va s.vmm in
      let put64 = λ (o v : ℕ) (q : Vmm). write_user_u64 pml4 ((a2 + o) % word_mod) v q in
      let put32 = λ (o v : ℕ) (q : Vmm). write_user_u32 pml4 ((a2 + o) % word_mod) v q in
      let base = put64 0x18 page_size (put64 0 va (blank48 48 a2 pml4 s.vmm)) in
      let access = if bit_and pte pte_writable == 0 then 2 else 4 in
      let committed =
        put32 0x28 0x20000 (put32 0x24 access (put32 0x20 0x1000 (put64 8 va base))) in
      let present = not (bit_and pte pte_present == 0) in
      if a2 == 0
      then (unsuccessful, s)
      else (success, record s { vmm = if present then committed else put32 0x20 0x10000 base })
]

unfoldable pub query_process_info : ℕ → ℕ → ℕ → Services → Status × Services
query_process_info a1 a2 a3 s = elim (caller s.ps) [
  | none ↦ (unsuccessful, s)
  | some p ↦
      let process = s.ps.process p in
      let pml4 = process.cr3 in
      let put64 = λ (o v : ℕ) (q : Vmm). write_user_u64 pml4 ((a2 + o) % word_mod) v q in
      let vmm = put64 0x20 process.pid (put64 0x08 process.peb_va (blank48 48 a2 pml4 s.vmm)) in
      if a1 == 0 && leb 48 a3 then (success, record s { vmm = vmm }) else (info_length_mismatch, s)
]

unfoldable pub query_thread_info : ℕ → ℕ → ℕ → Services → Status × Services
query_thread_info a1 a2 a3 s = elim (caller s.ps) [
  | none ↦ (unsuccessful, s)
  | some p ↦
      let process = s.ps.process p in
      let t = s.ps.sched.current in
      let pml4 = process.cr3 in
      let put64 = λ (o v : ℕ) (q : Vmm). write_user_u64 pml4 ((a2 + o) % word_mod) v q in
      let named = put64 0x08 (s.ps.sched.teb_va t) (blank48 48 a2 pml4 s.vmm) in
      let vmm = put64 0x18 (s.tid t) (put64 0x10 process.pid named) in
      if a1 == 0 && leb 48 a3 then (success, record s { vmm = vmm }) else (info_length_mismatch, s)
]

-- `ticks` is HAL::PitTicks.
unfoldable pub query_system_time : ℕ → ℕ → Services → Status × Services
query_system_time ticks a1 s = elim (caller s.ps) [
  | none ↦ (unsuccessful, s)
  | some p ↦
      let vmm = write_user_u64 (s.ps.process p).cr3 a1 (ticks * 100000 % word_mod) s.vmm in
      if a1 == 0 then (unsuccessful, s) else (success, record s { vmm = vmm })
]

unfoldable pub query_perf_counter : ℕ → ℕ → ℕ → Services → Status × Services
query_perf_counter ticks a1 a2 s = elim (caller s.ps) [
  | none ↦ (unsuccessful, s)
  | some p ↦
      let pml4 = (s.ps.process p).cr3 in
      let counted = write_user_u64 pml4 a1 ticks s.vmm in
      let vmm = if a2 == 0 then counted else write_user_u64 pml4 a2 100 counted in
      if a1 == 0 then (unsuccessful, s) else (success, record s { vmm = vmm })
]
