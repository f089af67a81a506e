-- ===== src/Syscall/Line/Complete.antt =====
-- Completion by Tab: the one command that the text begins.
use micro_nt.Base.{
  ◌≡◌, refl, ap, ap₂, arith, ◌∙◌, inl, inr, true, ℕ, Option, none, some, List, [], ◌∷◌, ◌++◌,
  if◌then◌else◌, Bool-cases,
}
use micro_nt.Syscall.Line.{extends, complete, tab_complete, commands}

-- The commands that the text begins.
pub candidates : List (List ℕ) → List ℕ → List (List ℕ)
candidates [] buf = []
candidates (c ∷ cs) buf = let rest = candidates cs buf in if extends c buf then c ∷ rest else rest

-- The one element of a list.
pub only : List (List ℕ) → Option (List ℕ)
only [] = none
only (x ∷ []) = some x
only (x ∷ (y ∷ ys)) = none

complete-some :
    (d : List ℕ) (cs : List (List ℕ)) (buf : List ℕ)
    → complete (some d) cs buf ≡ only (d ∷ candidates cs buf)
unfolding complete candidates only
complete-some d [] buf = refl
complete-some d (c ∷ cs) buf = elim (Bool-cases (extends c buf)) [
  | inl hit ↦ rw (hit, complete) refl
  | inr miss ↦ rw (miss, complete) (complete-some d cs buf)
]

complete-none :
    (cs : List (List ℕ)) (buf : List ℕ) → complete none cs buf ≡ only (candidates cs buf)
unfolding complete candidates only
complete-none [] buf = refl
complete-none (c ∷ cs) buf = elim (Bool-cases (extends c buf)) [
  | inl hit ↦ rw (hit, complete) (complete-some c cs buf)
  | inr miss ↦ rw (miss, complete) (complete-none cs buf)
]

extends-append : (buf : List ℕ) (x : ℕ) (xs : List ℕ) → extends (buf ++ x ∷ xs) buf ≡ true
unfolding extends
extends-append [] x xs = refl
extends-append (b ∷ buf) x xs = ground (arith, extends-append buf x xs)

extends-true :
    (c buf : List ℕ) → extends c buf ≡ true → (x : ℕ) × (xs : List ℕ) × (c ≡ buf ++ x ∷ xs)
unfolding extends
extends-true [] buf e = absurd (ground (arith, e))
extends-true (x ∷ xs) [] e = (x, xs, refl)
extends-true (x ∷ xs) (y ∷ ys) e =
    let (z, zs, same) = extends-true xs ys (ground (arith, e)) in
    let first : x ≡ y = ground (arith, e) in (z, zs, ap₂ ◌∷◌ first same)

-- Completion gives the one command that the text begins and that is longer, and none if there is
-- no such command or more than one.
pub tab_complete_lem :
    (buf : List ℕ)
    → (tab_complete buf ≡ only (candidates commands buf))
      × ((c : List ℕ)
          → (extends c buf ≡ true → (x : ℕ) × (xs : List ℕ) × (c ≡ buf ++ x ∷ xs))
            × ((x : ℕ) (xs : List ℕ) → c ≡ buf ++ x ∷ xs → extends c buf ≡ true))
unfolding tab_complete
tab_complete_lem buf = (
  complete-none commands buf,
  λ c. (extends-true c buf, λ x xs e. ap (λ d. extends d buf) e ∙ extends-append buf x xs),
)
