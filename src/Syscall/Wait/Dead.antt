-- ===== src/Syscall/Wait/Dead.antt =====
-- A mutant whose first waiter was killed.
use micro_nt.Base.{ℕ, ◌+◌, ◌≡◌, sym, ap, subst, ◌∙◌, ◌≢◌, true, List, [], ◌∷◌, arith}
use micro_nt.Sched.{is_terminated}
use micro_nt.Ps.Waiters.{release, release-terminated}
use micro_nt.Syscall.{Status}
use micro_nt.Syscall.Wait.{Kernel, mutant_handle_base, release_mutant}
use micro_nt.Syscall.Wait.Ownership.{
  MutantHolds, MutantRelease, refused, nested, freed, handed, release_mutant-MutantRelease,
}

abbrev first_or : ℕ → List ℕ → ℕ
first_or d [] = d
first_or d (x ∷ xs) = x

MutantRelease-dead :
    (i : ℕ) (k : Kernel) (t : ℕ) (ws : List ℕ) (r : Status × Kernel)
    → k.ps.sched.current ≢ 0
    → (k.mutants i).owner ≡ k.ps.sched.current
    → (k.mutants i).depth ≡ 1
    → is_terminated (k.ps.sched.state t) ≡ true
    → MutantRelease i (t ∷ ws) k r
    → ((r.1.mutants i).owner ≡ t) × (is_terminated (r.1.ps.sched.state t) ≡ true)
MutantRelease-dead i k t ws _ nz mine one dead (refused other) = absurd (other mine)
MutantRelease-dead i k t ws _ nz mine one dead (nested k' _ owner depth v same) =
    absurd (omega (arith, v.owned (λ e. nz (sym mine ∙ sym owner ∙ e)), depth, one))
MutantRelease-dead i k t ws _ nz mine one dead (freed k' _ _ none_left owner v same) = absurd (cc)
MutantRelease-dead i k t ws _ nz mine one dead (handed k' u rest _ _ at owner depth v sched woken) =
    let same : u ≡ t = sym (ap (first_or 0) at) in
    (
      owner ∙ same,
      subst (λ s. is_terminated (s.state t) ≡ true)
          (sym (sched ∙ ap (λ x. release x k.ps.sched) same))
          (release-terminated t k.ps.sched t dead),
    )

-- If a mutant's slot is in use, its waiters are distinct threads linked from head to tail, the
-- current thread owns it at depth 1, and the first waiter is TERMINATED, NtReleaseMutant makes
-- this waiter the owner, and it is still TERMINATED.
pub release_mutant_killed :
    (i : ℕ) (k : Kernel) (t : ℕ) (ws : List ℕ)
    → MutantHolds i k (t ∷ ws)
    → k.ps.sched.current ≢ 0
    → (k.mutants i).owner ≡ k.ps.sched.current
    → (k.mutants i).depth ≡ 1
    → is_terminated (k.ps.sched.state t) ≡ true
    → let (status, k') = release_mutant (mutant_handle_base + i) k in
      ((k'.mutants i).owner ≡ t) × (is_terminated (k'.ps.sched.state t) ≡ true)
release_mutant_killed i k t ws v nz mine one dead =
    MutantRelease-dead i k t ws _ nz mine one dead (release_mutant-MutantRelease i k (t ∷ ws) v nz)
