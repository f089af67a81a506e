-- ===== src/Syscall/Memory/Refused.antt =====
-- The services when the current thread has no process.
use micro_nt.Base.{ℕ, ◌≡◌, refl, inl, inr, ◌||◌, ◌-◌, none, ltb, ◌==◌, Bool-cases}
use micro_nt.Syscall.{unsuccessful, invalid_parameter}
use micro_nt.Syscall.Memory.{Services, caller, max_sections, alloc_vm, map_view, unmap_view}
use micro_nt.Syscall.Memory.Info.{
  protect_vm, query_vm, query_process_info, query_thread_info, query_system_time,
  query_perf_counter,
}

-- Without a process a service changes nothing, gives no address, and reports the failure.
alloc_vm_refused : (size : ℕ) (s : Services) → caller s.ps ≡ none → alloc_vm size s ≡ (0, s)
unfolding alloc_vm
alloc_vm_refused size s nobody = elim (Bool-cases (size == 0)) [
  | inl e ↦ rw (e, alloc_vm) refl
  | inr e ↦ rw (e, nobody, alloc_vm) refl
]

map_view_refused : (h : ℕ) (s : Services) → caller s.ps ≡ none → map_view h s ≡ (0, s)
unfolding map_view
map_view_refused h s nobody = elim (Bool-cases (h == 0 || ltb max_sections h)) [
  | inl e ↦ rw (e, map_view) refl
  | inr e ↦ elim (Bool-cases (s.sections (h - 1)).in_use) [
    | inl used ↦ rw (e, used, nobody, map_view) refl
    | inr free ↦ rw (e, free, map_view) refl
  ]
]

pub unmap_view_refused :
    (va : ℕ) (s : Services) → caller s.ps ≡ none → unmap_view va s ≡ (invalid_parameter, s)
unfolding unmap_view
unmap_view_refused va s nobody = rw (nobody, unmap_view) refl

pub protect_vm_refused :
    (a1 a2 a3 : ℕ) (s : Services) → caller s.ps ≡ none → protect_vm a1 a2 a3 s ≡ (unsuccessful, s)
unfolding protect_vm
protect_vm_refused a1 a2 a3 s nobody = rw (nobody, protect_vm) refl

-- Without a process of the current thread the queries report a failure and change nothing.
pub queries_refused :
    (ticks a1 a2 a3 : ℕ) (s : Services)
    → caller s.ps ≡ none
    → (query_vm a1 a2 s ≡ (unsuccessful, s))
      × (query_process_info a1 a2 a3 s ≡ (unsuccessful, s))
      × (query_thread_info a1 a2 a3 s ≡ (unsuccessful, s))
      × (query_system_time ticks a1 s ≡ (unsuccessful, s))
      × (query_perf_counter ticks a1 a2 s ≡ (unsuccessful, s))
unfolding query_vm query_process_info query_thread_info query_system_time query_perf_counter
queries_refused ticks a1 a2 a3 s nobody = (
  rw (nobody, query_vm) refl,
  rw (nobody, query_process_info) refl,
  rw (nobody, query_thread_info) refl,
  rw (nobody, query_system_time) refl,
  rw (nobody, query_perf_counter) refl,
)
