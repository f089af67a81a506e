-- ===== src/Syscall/Wait/Ownership.antt =====
-- Mutants: who owns one after a wait and a release.
use micro_nt.Base.{
  ℕ, ◌+◌, ◌-◌, ◌%◌, ◌^◌, ◌<◌, ◌≡◌, refl, sym, ap, subst, ◌∙◌, ◌≢◌, inl, inr, true, false, not, ◌||◌,
  List, [], ◌∷◌, ◌++◌, ltb, leb, ◌==◌, arith, update, update_self, Bool-cases,
}
use micro_nt.Sched.{is_terminated, ready}
use micro_nt.Sched.Ring.{Off}
use micro_nt.Sched.Queues.{IsThread}
use micro_nt.Sched.Switch.{Inv}
use micro_nt.Sched.Block.{Blocked}
use micro_nt.Sched.Sleep.Line.{Line}
use micro_nt.Ps.Waiters.{release, release-wait_next, release-ready}
use micro_nt.Syscall.{Status, success, mutant_not_owned}
use micro_nt.Syscall.Wait.{
  Kernel, Mutant, mutant_handle_base, mutant_max, enqueue, dequeue, hand_over, release_mutant,
  wait_mutant, set_sched,
}
use micro_nt.Syscall.Wait.Fifo.{Holds, dequeue-Holds}
use micro_nt.Syscall.Wait.Blocking.{block-enqueue}

-- The mutant of a slot, with the threads that wait for it. It is free, with no depth and no thread
-- waiting, or a thread owns it.
pub record MutantHolds (i : ℕ) (k : Kernel) (ws : List ℕ) : Type 0 where
  pub slot : i < mutant_max
  pub used : (k.mutants i).in_use ≡ true
  pub free : (k.mutants i).owner ≡ 0 → (ws ≡ []) × ((k.mutants i).depth ≡ 0)
  pub owned : (k.mutants i).owner ≢ 0 → 0 < (k.mutants i).depth
  pub small : (k.mutants i).depth < 2 ^ 32
  pub waiting : Holds k.ps.sched.wait_next (k.mutants i).waiting ws

-- A mutant that takes the place of another one.
replaced :
    (i : ℕ) (k k' : Kernel) (m : Mutant) (ws : List ℕ)
    → i < mutant_max
    → k'.mutants ≡ update k.mutants i m
    → m.in_use ≡ true
    → (m.owner ≡ 0 → (ws ≡ []) × (m.depth ≡ 0))
    → (m.owner ≢ 0 → 0 < m.depth)
    → m.depth < 2 ^ 32
    → Holds k'.ps.sched.wait_next m.waiting ws
    → MutantHolds i k' ws
replaced i k k' m ws slot e used free owned small waiting =
    let at : k'.mutants i ≡ m = ap (λ f. f i) e ∙ update_self k.mutants i m in
    record {
      slot = slot;
      used = rw at used;
      free = rw at free;
      owned = rw at owned;
      small = rw at small;
      waiting = rw at waiting;
    }

-- What a wait does.
pub data MutantWait (i : ℕ) (ws : List ℕ) (k : Kernel) : Status × Kernel → Type 0 where
  took :
      (k' : Kernel)
      → (k.mutants i).owner ≡ 0
      → (k'.mutants i).owner ≡ k.ps.sched.current
      → (k'.mutants i).depth ≡ 1
      → MutantHolds i k' ws
      → k'.ps ≡ k.ps
      → MutantWait i ws k (success, k')
  again :
      (k' : Kernel)
      → (k.mutants i).owner ≡ k.ps.sched.current
      → (k'.mutants i).owner ≡ k.ps.sched.current
      → (k'.mutants i).depth ≡ (k.mutants i).depth + 1
      → MutantHolds i k' ws
      → k'.ps ≡ k.ps
      → MutantWait i ws k (success, k')
  queued :
      (k' : Kernel) (qs : ℕ → List ℕ)
      → (k.mutants i).owner ≢ 0
      → (k.mutants i).owner ≢ k.ps.sched.current
      → (k'.mutants i).owner ≡ (k.mutants i).owner
      → MutantHolds i k' (ws ++ k.ps.sched.current ∷ [])
      → Blocked k.ps.sched.current k'.ps.sched qs
      → MutantWait i ws k (success, k')

-- If a mutant's slot is in use, its waiters are distinct threads linked from head to tail, and it
-- is free, with depth 0 and no waiters, or owned with a depth above 0 that can grow, then, with
-- the scheduler active, its invariant true, another thread ready, and the current thread not a
-- waiter, NtWaitForSingleObject on a mutant makes the current thread the owner at depth 1 if the
-- mutant is free, adds a level if the thread owns it, and otherwise puts the thread behind the
-- waiters, BLOCKED and in no ready queue, while another thread runs. All of this stays true of
-- the mutant.
pub wait_mutant-MutantWait :
    (i : ℕ) (k : Kernel) (ws : List ℕ) (qs : ℕ → List ℕ) (pri t : ℕ) (xs : List ℕ)
    → MutantHolds i k ws
    → (k.mutants i).depth + 1 < 2 ^ 32
    → Off k.ps.sched.current ws
    → k.ps.sched.active ≡ true
    → Inv k.ps.sched qs
    → pri < 3
    → qs pri ≡ t ∷ xs
    → MutantWait i ws k (wait_mutant i k)
unfolding wait_mutant IsThread
wait_mutant-MutantWait i k ws qs pri t xs v deep off active inv lt queue =
    let m : Mutant = k.mutants i in
    let cur = k.ps.sched.current in
    let nz : cur ≢ 0 = omega (arith, inv.idle.thread) in
    let valid : (leb mutant_max i || not m.in_use) ≡ false = ground (arith, v.slot, v.used) in
    elim (Bool-cases (m.owner == 0)) [
      | inl nobody ↦
          let next : Mutant = record m { owner = cur; depth = 1 } in
          let at = update_self k.mutants i next in
          rw (valid, nobody)
            (took _ (ground (arith, nobody)) (ap (λ x. x.owner) at) (ap (λ x. x.depth) at)
              (replaced i k _ next ws v.slot refl v.used (λ e. absurd (nz e)) (λ _. omega arith)
                (omega arith) v.waiting)
              refl)
      | inr someone ↦ elim (Bool-cases (m.owner == cur)) [
        | inl mine ↦
            let deeper : (m.depth + 1) % 2 ^ 32 ≡ m.depth + 1 = omega (arith, deep) in
            let next : Mutant = record m { depth = m.depth + 1 } in
            let at = update_self k.mutants i next in
            let is : m.owner ≡ cur = ground (arith, mine) in
            rw (valid, someone, mine, deeper)
              (again _ is (ap (λ x. x.owner) at ∙ is) (ap (λ x. x.depth) at)
                (replaced i k _ next ws v.slot refl v.used (λ e. absurd (nz (sym is ∙ e)))
                  (λ _. omega arith) deep v.waiting)
                refl)
        | inr other ↦
            let ((qs', off_cpu), holds) =
              block-enqueue m.waiting k.ps.sched ws qs pri t xs v.waiting off active inv lt queue in
            let next : Mutant = record m { waiting = (enqueue cur m.waiting k.ps.sched).0 } in
            let owned : m.owner ≢ 0 = ground (arith, someone) in
            rw (valid, someone, other)
              (queued _ qs' owned (ground (arith, other))
                (ap (λ x. x.owner) (update_self k.mutants i next))
                (replaced i k _ next (ws ++ cur ∷ []) v.slot refl v.used (λ e. absurd (owned e))
                  v.owned v.small holds)
                off_cpu)
      ]
    ]

-- The first thread that waits, with the others.
first_waiter :
    (k : Kernel) (m : Mutant) (t : ℕ) (ws : List ℕ)
    → Holds k.ps.sched.wait_next m.waiting (t ∷ ws)
    → (m.waiting.head ≡ t) × (t ≢ 0)
unfolding Line
first_waiter k m t ws v = (v.line.0, v.line.1)

hand_over-first :
    (k : Kernel) (m : Mutant) (t : ℕ) (ws : List ℕ)
    → Holds k.ps.sched.wait_next m.waiting (t ∷ ws)
    → let (m', s) = hand_over m k.ps.sched in
      (m'.owner ≡ t)
      × (m'.depth ≡ 1)
      × (m'.in_use ≡ m.in_use)
      × (s ≡ release t k.ps.sched)
      × Holds s.wait_next m'.waiting ws
unfolding hand_over release dequeue
hand_over-first k m t ws v =
    let (at, nz) = first_waiter k m t ws v in
    let some_thread : m.waiting.head == 0 ≡ false = ground (arith, at, nz) in
    let (w', cut) = dequeue m.waiting k.ps.sched in
    rw some_thread (
      at,
      refl,
      refl,
      ap (λ u. release u k.ps.sched) at,
      subst (λ f. Holds f w' ws) (sym (release-wait_next m.waiting.head k.ps.sched))
          (dequeue-Holds t m.waiting k.ps.sched ws v),
    )

hand_over-none :
    (k : Kernel) (m : Mutant)
    → Holds k.ps.sched.wait_next m.waiting []
    → hand_over m k.ps.sched ≡ (record m { owner = 0; depth = 0 }, k.ps.sched)
unfolding hand_over Line
hand_over-none k m v =
    let nobody : m.waiting.head == 0 ≡ true = ground (arith, v.line) in rw nobody refl

-- What a release does.
pub data MutantRelease (i : ℕ) (ws : List ℕ) (k : Kernel) : Status × Kernel → Type 0 where
  refused : (k.mutants i).owner ≢ k.ps.sched.current → MutantRelease i ws k (mutant_not_owned, k)
  nested :
      (k' : Kernel)
      → (k.mutants i).owner ≡ k.ps.sched.current
      → (k'.mutants i).owner ≡ (k.mutants i).owner
      → (k'.mutants i).depth + 1 ≡ (k.mutants i).depth
      → MutantHolds i k' ws
      → k'.ps ≡ k.ps
      → MutantRelease i ws k (success, k')
  freed :
      (k' : Kernel)
      → (k.mutants i).owner ≡ k.ps.sched.current
      → (k.mutants i).depth ≡ 1
      → ws ≡ []
      → (k'.mutants i).owner ≡ 0
      → MutantHolds i k' []
      → k'.ps ≡ k.ps
      → MutantRelease i ws k (success, k')
  handed :
      (k' : Kernel) (t : ℕ) (rest : List ℕ)
      → (k.mutants i).owner ≡ k.ps.sched.current
      → (k.mutants i).depth ≡ 1
      → ws ≡ t ∷ rest
      → (k'.mutants i).owner ≡ t
      → (k'.mutants i).depth ≡ 1
      → MutantHolds i k' rest
      → k'.ps.sched ≡ release t k.ps.sched
      → (is_terminated (k.ps.sched.state t) ≡ false → k'.ps.sched.state t ≡ ready)
      → MutantRelease i ws k (success, k')

-- The owner gives up its last level.
last_level :
    (i : ℕ) (k : Kernel) (ws : List ℕ)
    → MutantHolds i k ws
    → (k.mutants i).owner ≡ k.ps.sched.current
    → (k.mutants i).depth ≡ 1
    → let (next, sched) = hand_over (k.mutants i) k.ps.sched in
      MutantRelease i ws k
        (success, set_sched sched (record k { mutants = update k.mutants i next }))
last_level i k [] v mine one =
    let m : Mutant = k.mutants i in
    let next : Mutant = record m { owner = 0; depth = 0 } in
    rw (hand_over-none k m v.waiting) (
      freed _ mine one refl (ap (λ x. x.owner) (update_self k.mutants i next))
        (replaced i k _ next [] v.slot refl v.used (λ _. (refl, refl)) (λ ne. absurd (ne refl))
          (omega arith) v.waiting)
        refl)
last_level i k (t ∷ ws) v mine one =
    let m : Mutant = k.mutants i in
    let (owner, depth, used, sched, holds) = hand_over-first k m t ws v.waiting in
    let next = (hand_over m k.ps.sched).0 in
    let at = update_self k.mutants i next in
    let nz = (first_waiter k m t ws v.waiting).1 in
    handed _ t ws mine one refl (ap (λ x. x.owner) at ∙ owner) (ap (λ x. x.depth) at ∙ depth)
      (replaced i k _ next ws v.slot refl (used ∙ v.used) (λ e. absurd (nz (sym owner ∙ e)))
        (λ _. omega (arith, depth)) (omega (arith, depth)) holds)
      sched (λ live. ap (λ q. q.state t) sched ∙ release-ready t k.ps.sched nz live)

-- If a mutant's slot is in use, its waiters are distinct threads linked from head to tail, and it
-- is free, with depth 0 and no waiters, or owned with a depth above 0, and there is a current
-- thread, NtReleaseMutant refuses a thread that does not own the mutant and changes nothing; from
-- the owner it takes one level; at the last level it frees a mutant without waiters, or gives it
-- at depth 1 to the first waiter, who is READY afterwards unless TERMINATED, and the others still
-- wait. All of this stays true of the mutant.
pub release_mutant-MutantRelease :
    (i : ℕ) (k : Kernel) (ws : List ℕ)
    → MutantHolds i k ws
    → k.ps.sched.current ≢ 0
    → MutantRelease i ws k (release_mutant (mutant_handle_base + i) k)
unfolding release_mutant
release_mutant-MutantRelease i k ws v nz =
    let m : Mutant = k.mutants i in
    let index : mutant_handle_base + i - mutant_handle_base ≡ i = omega arith in
    let valid : (ltb (mutant_handle_base + i) mutant_handle_base
          || leb mutant_max i
          || not m.in_use)
        ≡ false =
      ground (arith, v.slot, v.used) in
    elim (Bool-cases (m.owner == k.ps.sched.current)) [
      | inr other ↦ rw (index, valid, other) (refused (ground (arith, other)))
      | inl is ↦
          let mine : m.owner ≡ k.ps.sched.current = ground (arith, is) in
          let deep : 0 < m.depth = v.owned (λ e. nz (sym mine ∙ e)) in
          let less : (m.depth + 2 ^ 32 - 1) % 2 ^ 32 ≡ m.depth - 1 = omega (arith, deep, v.small) in
          elim (Bool-cases (m.depth - 1 == 0)) [
            | inl last ↦
                rw (index, valid, is, less, last)
                  (last_level i k ws v mine (ground (arith, last, deep)))
            | inr more ↦
                let next : Mutant = record m { depth = m.depth - 1 } in
                let at = update_self k.mutants i next in
                rw (index, valid, is, less, more)
                  (nested _ mine (ap (λ x. x.owner) at)
                    (ap (λ x. x.depth + 1) at ∙ omega (arith, deep))
                    (replaced i k _ next ws v.slot refl v.used (λ e. absurd (nz (sym mine ∙ e)))
                      (λ _. ground (arith, more)) (omega (arith, v.small)) v.waiting)
                    refl)
          ]
    ]
