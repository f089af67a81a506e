-- ===== src/Syscall/Wait/Handles.antt =====
-- Handles that were just made, and the ranges of the handles.
use micro_nt.Base.{
  ◌⊎◌, ℕ, zero, suc, ◌+◌, ◌-◌, ◌%◌, ◌^◌, ◌≤◌, ◌<◌, ◌≡◌, refl, ap, ◌≢◌, inl, inr, Bool, true, false,
  ◌||◌, none, some, [], ltb, leb, ◌==◌, if◌then◌else◌, arith, update_self, Bool-cases, Option-cases,
}
use micro_nt.Base.Int.{pos}
use micro_nt.Sched.Ring.{Distinct}
use micro_nt.Sched.Sleep.Line.{Line}
use micro_nt.Syscall.Wait.{
  Kernel, Sema, Mutant, sema_handle_base, mutant_handle_base, proc_handle_base, sema_max,
  mutant_max, free_index, create_semaphore, create_mutant, wait_process, wait_mutant,
  wait_semaphore,
}
use micro_nt.Syscall.Wait.Events.{wait_event, wait_single}
use micro_nt.Syscall.Wait.Fifo.{Holds, last_of}
use micro_nt.Syscall.Wait.Semaphore.{SemaHolds}
use micro_nt.Syscall.Wait.Ownership.{MutantHolds}

free_index-some :
    (n i j : ℕ) (taken : ℕ → Bool) → free_index n i taken ≡ some j → (taken j ≡ false) × (j < i + n)
unfolding free_index
free_index-some zero i j taken e = absurd (cc)
free_index-some (suc n) i j taken e = ground (arith, free_index-some n (i + 1) j taken)

nobody_waits : (next : ℕ → ℕ) → Holds next (record { head = 0; tail = 0 }) []
unfolding Line last_of Distinct
nobody_waits next = record { line = refl; tail = refl; distinct = _ }

-- What NtCreateSemaphore does.
pub data MadeSema (a1 a2 : ℕ) (k : Kernel) : ℕ × Kernel → Type 0 where
  refused :
      (2 ^ 31 ≤ a1 % 2 ^ 32)
        ⊎ (a2 % 2 ^ 32 ≡ 0)
        ⊎ (2 ^ 31 ≤ a2 % 2 ^ 32)
        ⊎ (a2 % 2 ^ 32 < a1 % 2 ^ 32)
      → MadeSema a1 a2 k (0, k)
  full : free_index sema_max 0 (λ i. (k.semas i).in_use) ≡ none → MadeSema a1 a2 k (0, k)
  made :
      (i : ℕ) (k' : Kernel)
      → (k.semas i).in_use ≡ false
      → SemaHolds i k' [] (a1 % 2 ^ 32)
      → (k'.semas i).max_count ≡ a2 % 2 ^ 32
      → k'.ps ≡ k.ps
      → MadeSema a1 a2 k (sema_handle_base + i, k')

refusal :
    (count most : ℕ)
    → (leb (2 ^ 31) count || most == 0 || leb (2 ^ 31) most || ltb most count) ≡ true
    → (2 ^ 31 ≤ count) ⊎ (most ≡ 0) ⊎ (2 ^ 31 ≤ most) ⊎ (most < count)
refusal count most e = elim (Bool-cases (leb (2 ^ 31) count)) [
  | inl high ↦ inl (ground (arith, high))
  | inr n1 ↦ elim (Bool-cases (most == 0)) [
    | inl none_at_most ↦ inr (inl (ground (arith, none_at_most)))
    | inr n2 ↦ elim (Bool-cases (leb (2 ^ 31) most)) [
      | inl high ↦ inr (inr (inl (ground (arith, high))))
      | inr n3 ↦ inr (inr (inr (ground (arith, e, n1, n2, n3))))
    ]
  ]
]

-- NtCreateSemaphore refuses counts that are negative or above the maximum, fails when all slots
-- are in use, or makes a semaphore in a free slot that has the count and no waiters.
pub create_semaphore-MadeSema :
    (a1 a2 : ℕ) (k : Kernel) → MadeSema a1 a2 k (create_semaphore a1 a2 k)
unfolding create_semaphore
create_semaphore-MadeSema a1 a2 k =
    let count = a1 % 2 ^ 32 in
    let most = a2 % 2 ^ 32 in
    elim (Bool-cases (leb (2 ^ 31) count || most == 0 || leb (2 ^ 31) most || ltb most count)) [
      | inl bad ↦ rw (bad, create_semaphore) (refused (refusal count most bad))
      | inr good ↦ elim (Option-cases (free_index sema_max 0 (λ i. (k.semas i).in_use))) [
        | inl none_free ↦ rw (good, none_free, create_semaphore) (full none_free)
        | inr (i, free) ↦
            let (unused, lt) = free_index-some sema_max 0 i (λ i. (k.semas i).in_use) free in
            let next : Sema = record {
              count = pos count;
              max_count = most;
              waiting = record { head = 0; tail = 0 };
              in_use = true;
            } in
            let at = update_self k.semas i next in
            rw (good, free, create_semaphore)
              (made i _ unused
                (record {
                  slot = lt;
                  used = ap (λ x. x.in_use) at;
                  count = ap (λ x. x.count) at;
                  most = rw at (ground (arith, good));
                  small = rw at (ground (arith, good));
                  busy = λ _. refl;
                  waiting = rw at (nobody_waits k.ps.sched.wait_next);
                })
                (ap (λ x. x.max_count) at) refl)
      ]
    ]

-- What NtCreateMutant does.
pub data MadeMutant (a1 : ℕ) (k : Kernel) : ℕ × Kernel → Type 0 where
  full : free_index mutant_max 0 (λ i. (k.mutants i).in_use) ≡ none → MadeMutant a1 k (0, k)
  made :
      (i : ℕ) (k' : Kernel)
      → (k.mutants i).in_use ≡ false
      → MutantHolds i k' []
      → (k'.mutants i).owner ≡ (if a1 == 0 then 0 else k.ps.sched.current)
      → k'.ps ≡ k.ps
      → MadeMutant a1 k (mutant_handle_base + i, k')

-- If there is a current thread, NtCreateMutant fails when all slots are in use, or makes a mutant
-- in a free slot that is free or the current thread's, without waiters.
pub create_mutant-MadeMutant :
    (a1 : ℕ) (k : Kernel) → k.ps.sched.current ≢ 0 → MadeMutant a1 k (create_mutant a1 k)
unfolding create_mutant
create_mutant-MadeMutant a1 k nz =
    elim (Option-cases (free_index mutant_max 0 (λ i. (k.mutants i).in_use))) [
      | inl none_free ↦ rw (none_free, create_mutant) (full none_free)
      | inr (i, free) ↦
          let (unused, lt) = free_index-some mutant_max 0 i (λ i. (k.mutants i).in_use) free in
          let next : Mutant = record {
            owner = if a1 == 0 then 0 else k.ps.sched.current;
            depth = if a1 == 0 then 0 else 1;
            waiting = record { head = 0; tail = 0 };
            in_use = true;
          } in
          let at = update_self k.mutants i next in
          rw (free, create_mutant)
            (made i _ unused
              (record {
                slot = lt;
                used = ap (λ x. x.in_use) at;
                free = rw at (λ e. (refl, ground (arith, e, nz)));
                owned = rw at (λ ne. ground (arith, ne));
                small = rw at (ground arith);
                waiting = rw at (nobody_waits k.ps.sched.wait_next);
              })
              (ap (λ x. x.owner) at) refl)
    ]

-- A handle in a table waits for what the table holds.
pub wait_single_lem :
    (i a2 : ℕ) (k : Kernel)
    → i < 8
    → (wait_single (proc_handle_base + i) a2 k ≡ wait_process i a2 k)
      × (wait_single (mutant_handle_base + i) a2 k ≡ wait_mutant i k)
      × (wait_single (sema_handle_base + i) a2 k ≡ wait_semaphore i a2 k)
      × (wait_single (i + 1) a2 k ≡ wait_event i a2 k)
unfolding wait_single
wait_single_lem i a2 k lt =
    let p : proc_handle_base + i - proc_handle_base ≡ i = omega arith in
    let m : mutant_handle_base + i - mutant_handle_base ≡ i = omega arith in
    let s : sema_handle_base + i - sema_handle_base ≡ i = omega arith in
    let e : (i + 1 + 2 ^ 64 - 1) % 2 ^ 64 ≡ i = omega (arith, lt) in
    let p1 : leb proc_handle_base (proc_handle_base + i) ≡ true = ground arith in
    let m1 : leb proc_handle_base (mutant_handle_base + i) ≡ false = ground (arith, lt) in
    let m2 : leb mutant_handle_base (mutant_handle_base + i) ≡ true = ground arith in
    let s1 : leb proc_handle_base (sema_handle_base + i) ≡ false = ground (arith, lt) in
    let s2 : leb mutant_handle_base (sema_handle_base + i) ≡ false = ground (arith, lt) in
    let s3 : leb sema_handle_base (sema_handle_base + i) ≡ true = ground arith in
    let e1 : leb proc_handle_base (i + 1) ≡ false = ground (arith, lt) in
    let e2 : leb mutant_handle_base (i + 1) ≡ false = ground (arith, lt) in
    let e3 : leb sema_handle_base (i + 1) ≡ false = ground (arith, lt) in
    (rw (p1, p) refl, rw (m1, m2, m) refl, rw (s1, s2, s3, s) refl, rw (e1, e2, e3, e) refl)
