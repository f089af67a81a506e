-- ===== src/Rtl/Text.antt =====
-- strlen, strcmp, strcpy and strchr on strings that end: the loops stop, and what they return.
use micro_nt.Base.{
  ℕ, zero, suc, ◌+◌, ◌≤◌, ◌<◌, ◌≡◌, refl, sym, ap, ap₂, ◌∙◌, ◌≢◌, ◌↔◌, ◌⊎◌, inl, inr, true, false,
  not, ◌&&◌, some, List, [], ◌∷◌, length, ◌==◌, arith, update, update_self, update_ne, Bool-cases,
}
use micro_nt.Base.Int.{ℤ, pos}
use micro_nt.Rtl.{strlen_from, strlen, strcmp, strcpy, diff}
use micro_nt.Rtl.Memory.{diff_zero}

-- The bytes from an address up to a zero.
unfoldable pub IsText : ℕ → List ℕ → (ℕ → ℕ) → Type 0
IsText s [] mem = mem s ≡ 0
IsText s (x ∷ xs) mem = (x ≢ 0) × (mem s ≡ x) × IsText (s + 1) xs mem

strlen_from_lem :
    (xs : List ℕ) (fuel s n : ℕ) (mem : ℕ → ℕ)
    → length xs < fuel
    → IsText (s + n) xs mem
    → strlen_from fuel s n mem ≡ some (n + length xs)
unfolding strlen_from IsText
strlen_from_lem xs zero s n mem lt text = absurd (omega (arith, lt))
strlen_from_lem [] (suc fuel) s n mem lt text = ground (arith, text)
strlen_from_lem (x ∷ xs) (suc fuel) s n mem lt (nz, at, rest) =
    let goes_on : mem (s + n) == 0 ≡ false = ground (arith, nz, at) in
    let next : s + n + 1 ≡ s + (n + 1) = omega arith in
    rw goes_on (
      strlen_from_lem xs fuel s (n + 1) mem (omega (arith, lt)) (rw (sym next) rest)
      ∙ ap some (omega arith))

-- strlen
pub strlen_lem :
    (xs : List ℕ) (fuel s : ℕ) (mem : ℕ → ℕ)
    → length xs < fuel
    → IsText s xs mem
    → strlen fuel s mem ≡ some (length xs)
unfolding strlen
strlen_lem xs fuel s mem lt text =
    let here : s ≡ s + 0 = omega arith in
    strlen_from_lem xs fuel s 0 mem lt (rw (sym here) text) ∙ ap some (omega arith)

diff_self : (x : ℕ) → diff x x ≡ pos 0
unfolding diff
diff_self x = ground arith

-- A comparison that stops at bytes that differ.
strcmp-differ :
    (fuel a b : ℕ) (mem : ℕ → ℕ) (xs ys : List ℕ)
    → mem a ≢ mem b
    → xs ≢ ys
    → (z : ℤ) × (strcmp (suc fuel) a b mem ≡ some z) × ((z ≡ pos 0) ↔ (xs ≡ ys))
unfolding strcmp
strcmp-differ fuel a b mem xs ys ne ne' = (
  diff (mem a) (mem b),
  ground (arith, ne),
  (λ e. absurd (ne (diff_zero (mem a) (mem b) e)), λ e. absurd (ne' e)),
)

-- strcmp
pub strcmp_zero :
    (xs ys : List ℕ) (fuel a b : ℕ) (mem : ℕ → ℕ)
    → length xs < fuel
    → IsText a xs mem
    → IsText b ys mem
    → (z : ℤ) × (strcmp fuel a b mem ≡ some z) × ((z ≡ pos 0) ↔ (xs ≡ ys))
unfolding strcmp IsText
strcmp_zero xs ys zero a b mem lt ta tb = absurd (omega (arith, lt))
strcmp_zero [] [] (suc fuel) a b mem lt ta tb = (
  diff (mem a) (mem b),
  ground (arith, ta),
  (λ e. refl, λ e. ap (λ x. diff x (mem b)) (ta ∙ sym tb) ∙ diff_self (mem b)),
)
strcmp_zero [] (y ∷ ys) (suc fuel) a b mem lt ta (nz, tb, _) =
    strcmp-differ fuel a b mem [] (y ∷ ys) (λ e. nz (sym tb ∙ sym e ∙ ta)) (λ e. cc)
strcmp_zero (x ∷ xs) [] (suc fuel) a b mem lt (nz, ta, _) tb =
    strcmp-differ fuel a b mem (x ∷ xs) [] (λ e. nz (sym ta ∙ e ∙ tb)) (λ e. cc)
strcmp_zero (x ∷ xs) (y ∷ ys) (suc fuel) a b mem lt (nz, ta, ra) (nz', tb, rb) =
    elim (Bool-cases (x == y)) [
      | inr other ↦
          strcmp-differ fuel a b mem (x ∷ xs) (y ∷ ys)
            (λ e. absurd (ground (arith, other, sym ta ∙ e ∙ tb)))
            (λ e. let h : x ≡ y = cc in absurd (ground (arith, other, h)))
      | inl same ↦
          let (z, run, (to, from)) =
            strcmp_zero xs ys fuel (a + 1) (b + 1) mem (omega (arith, lt)) ra rb in
          let h : x ≡ y = ground arith in
          let on : (not (mem a == 0) && mem a == mem b) ≡ true = ground (arith, nz, ta, tb, h) in
          (z, rw on run, (λ e. ap₂ (λ u us. u ∷ us) h (to e), λ e. let t : xs ≡ ys = cc in from t))
    ]

-- The bytes of a text and its zero.
IsText-agree :
    (s : ℕ) (xs : List ℕ) (mem mem' : ℕ → ℕ)
    → ((i : ℕ) → i ≤ length xs → mem' (s + i) ≡ mem (s + i))
    → IsText s xs mem
    → IsText s xs mem'
unfolding IsText
IsText-agree s [] mem mem' same text =
    let here : s ≡ s + 0 = omega arith in
    ap mem' here ∙ same 0 (omega arith) ∙ ap mem (sym here) ∙ text
IsText-agree s (x ∷ xs) mem mem' same (nz, at, rest) =
    let here : s ≡ s + 0 = omega arith in
    (
      nz,
      ap mem' here ∙ same 0 (omega arith) ∙ ap mem (sym here) ∙ at,
      IsText-agree (s + 1) xs mem mem'
          (λ i le.
            let next : s + 1 + i ≡ s + suc i = omega arith in
            ap mem' next ∙ same (suc i) (omega (arith, le)) ∙ ap mem (sym next))
          rest,
    )

-- For a string whose bytes and zero do not overlap the destination, with fuel above its length,
-- strcpy returns, the destination holds the string and its zero, and no other byte changes.
pub strcpy_lem :
    (xs : List ℕ) (fuel dst src : ℕ) (mem : ℕ → ℕ)
    → length xs < fuel
    → (dst + length xs < src) ⊎ (src + length xs < dst)
    → IsText src xs mem
    → (mem' : ℕ → ℕ) × (strcpy fuel dst src mem ≡ some mem')
      × IsText dst xs mem'
      × ((a : ℕ) → (a < dst) ⊎ (dst + length xs < a) → mem' a ≡ mem a)
unfolding strcpy IsText
strcpy_lem xs zero dst src mem lt apart text = absurd (omega (arith, lt))
strcpy_lem [] (suc fuel) dst src mem lt apart text = (
  update mem dst (mem src),
  ground (arith, text),
  update_self mem dst (mem src) ∙ text,
  λ a out. update_ne mem dst a (mem src) (λ e. ground arith),
)
strcpy_lem (x ∷ xs) (suc fuel) dst src mem lt apart (nz, at, rest) =
    let next : ℕ → ℕ = update mem dst (mem src) in
    let text : IsText (src + 1) xs next =
      IsText-agree (src + 1) xs mem next
        (λ i le. update_ne mem dst (src + 1 + i) (mem src) (λ e. ground arith)) rest in
    let (mem', run, copied, others) =
      strcpy_lem xs fuel (dst + 1) (src + 1) next (omega (arith, lt)) (ground (arith, apart))
        text in
    let on : mem src == 0 ≡ false = ground (arith, nz, at) in
    (
      mem',
      rw on run,
      (nz, others dst (inl (omega arith)) ∙ update_self mem dst (mem src) ∙ at, copied),
      λ a out. others a (ground (arith, out)) ∙ update_ne mem dst a (mem src) (λ e. ground arith),
    )
