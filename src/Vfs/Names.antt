-- ===== src/Vfs/Names.antt =====
-- `str_ieq` compares names up to the case of their letters.
use micro_nt.Base.{
  ℕ, ◌≡◌, refl, sym, ◌∙◌, ap₂, Bool, true, ◌&&◌, List, [], ◌∷◌, map, ==→eq, eq→==, arith, length,
}
use micro_nt.Vfs.{to_lower, str_ieq}

pub str_ieq→eq : (s t : List ℕ) → str_ieq s t ≡ true → map to_lower s ≡ map to_lower t
unfolding str_ieq
str_ieq→eq [] [] h = refl
str_ieq→eq [] (b ∷ t) h = cc
str_ieq→eq (a ∷ s) [] h = cc
str_ieq→eq (a ∷ s) (b ∷ t) h = let (x, y) = both _ _ h in ap₂ ◌∷◌ (==→eq _ _ x) (str_ieq→eq s t y)
  where
    both : (p q : Bool) → (p && q) ≡ true → (p ≡ true) × (q ≡ true)
    both p q e = ground arith

pub eq→str_ieq : (s t : List ℕ) → map to_lower s ≡ map to_lower t → str_ieq s t ≡ true
unfolding str_ieq
eq→str_ieq [] [] h = refl
eq→str_ieq [] (b ∷ t) h = cc
eq→str_ieq (a ∷ s) [] h = cc
eq→str_ieq (a ∷ s) (b ∷ t) h =
    let x : to_lower a ≡ to_lower b = cc in
    let y : map to_lower s ≡ map to_lower t = cc in rw (eq→== _ _ x) (eq→str_ieq s t y)

pub str_ieq_refl : (s : List ℕ) → str_ieq s s ≡ true
str_ieq_refl s = eq→str_ieq s s refl

pub str_ieq-sym : (s t : List ℕ) → str_ieq s t ≡ true → str_ieq t s ≡ true
str_ieq-sym s t h = eq→str_ieq t s (sym (str_ieq→eq s t h))

pub str_ieq_trans : (s t u : List ℕ) → str_ieq s t ≡ true → str_ieq t u ≡ true → str_ieq s u ≡ true
str_ieq_trans s t u h k = eq→str_ieq s u (str_ieq→eq s t h ∙ str_ieq→eq t u k)

pub length-str_ieq : (s t : List ℕ) → str_ieq s t ≡ true → length s ≡ length t
unfolding str_ieq
length-str_ieq [] [] h = refl
length-str_ieq [] (b ∷ t) h = cc
length-str_ieq (a ∷ s) [] h = cc
length-str_ieq (a ∷ s) (b ∷ t) h = ground (arith, length-str_ieq s t)
