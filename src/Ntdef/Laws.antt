-- ===== src/Ntdef/Laws.antt =====
-- What `AlignUp` and `AlignDown` compute at a power of two.
use native.Mathlib.Nat.{
  pow-suc, one-le-pow, div-add-mod, mod-eq_of_lt, mod-lt, mul-mod_left, pow-le-pow_right, zero-add,
  suc-add, mul-div_cancel_left, mul-mod_right, div-lt_iff_lt-mul,
}
use micro_nt.Base.{
  ℕ, zero, suc, ◌+◌, ◌-◌, ◌*◌, ◌/◌, ◌%◌, ◌^◌, ◌≤◌, ◌<◌, ◌≡◌, ap, sym, ◌∙◌, bit_and, arith,
}
use micro_nt.Base.Bits.{bit_and-div_pow, bit_and-mod_pow, bit_and-ones, bit_and-zero}
use micro_nt.Ntdef.{word_mod, not64, pred64, align_up, align_down}

pub pow-add : (m n : ℕ) → 2 ^ (m + n) ≡ 2 ^ m * 2 ^ n
pow-add zero n = omega (arith, ap (λ (t : ℕ). 2 ^ t) (zero-add n))
pow-add (suc m) n = omega (
  arith,
  ap (λ (t : ℕ). 2 ^ t) (suc-add m n),
  pow-suc 2 (m + n),
  ap (λ (t : ℕ). t * 2 ^ n) (pow-suc 2 m),
  pow-add m n,
)

-- `& ~(2^k - 1)` clears the low `k` digits.
pub align_mask : (k j x : ℕ) → bit_and x (2 ^ k * (2 ^ j - 1)) ≡ x / 2 ^ k % 2 ^ j * 2 ^ k
align_mask k j x =
    omega (arith, div-add-mod (bit_and x mask) (2 ^ k), ap (λ (t : ℕ). 2 ^ k * t) high, low)
  where
    mask : ℕ
    mask = 2 ^ k * (2 ^ j - 1)

    high : bit_and x mask / 2 ^ k ≡ x / 2 ^ k % 2 ^ j
    high =
        bit_and-div_pow k x mask
        ∙ ap (bit_and (x / 2 ^ k)) (mul-div_cancel_left (2 ^ j - 1) (one-le-pow k 2 (omega arith)))
        ∙ bit_and-ones j (x / 2 ^ k)

    low : bit_and x mask % 2 ^ k ≡ 0
    low =
        bit_and-mod_pow k x mask
        ∙ ap (bit_and (x % 2 ^ k)) (mul-mod_right (2 ^ k) (2 ^ j - 1))
        ∙ bit_and-zero (x % 2 ^ k)

module _ (k : ℕ) (small : k < 64) where
  pub pow_split : 2 ^ k * 2 ^ (64 - k) ≡ word_mod
  pow_split =
      let e : k + (64 - k) ≡ 64 = omega arith in sym (pow-add k (64 - k)) ∙ ap (λ (t : ℕ). 2 ^ t) e

  pub pow-pos : 1 ≤ 2 ^ k
  pow-pos = one-le-pow k 2 (omega arith)

  two-le-rest : 2 ≤ 2 ^ (64 - k)
  two-le-rest = pow-le-pow_right {n = 2} (omega arith) {i = 1} {j = 64 - k} (omega arith)

  rest_split : 2 ^ k * 2 ^ (64 - k) ≡ 2 ^ k * (2 ^ (64 - k) - 1) + 2 ^ k
  rest_split =
      let e : 2 ^ (64 - k) ≡ 2 ^ (64 - k) - 1 + 1 = omega (arith, two-le-rest) in
      ap (λ (t : ℕ). 2 ^ k * t) e ∙ omega arith

  pub pow-lt : 2 ^ k < word_mod
  pow-lt = grind (arith, pow_split, two-le-rest, pow-pos)

  not64_pred : not64 (pred64 (2 ^ k)) ≡ 2 ^ k * (2 ^ (64 - k) - 1)
  not64_pred = omega (arith, pow_split, pow-lt, pow-pos, rest_split)

  align_mask64 : (x : ℕ) → x < word_mod → bit_and x (not64 (pred64 (2 ^ k))) ≡ x / 2 ^ k * 2 ^ k
  align_mask64 x h =
      ap (bit_and x) not64_pred
      ∙ align_mask k (64 - k) x
      ∙ ap (λ (t : ℕ). t * 2 ^ k) (mod-eq_of_lt bound)
    where
      bound : x / 2 ^ k < 2 ^ (64 - k)
      bound = (div-lt_iff_lt-mul pow-pos).1 (omega (arith, pow_split))

  -- `AlignDown` is the multiple of the alignment at or below the value.
  pub align_down_lem : (v : ℕ) → v < word_mod → align_down v (2 ^ k) ≡ v / 2 ^ k * 2 ^ k
  unfolding align_down
  align_down_lem v h = align_mask64 v h

  -- `AlignUp` is the multiple at or above it, if the sum does not wrap.
  pub align_up_lem :
      (v : ℕ) → v + 2 ^ k ≤ word_mod → align_up v (2 ^ k) ≡ (v + 2 ^ k - 1) / 2 ^ k * 2 ^ k
  unfolding align_up
  align_up_lem v h =
      ap (λ (t : ℕ). bit_and t (not64 (pred64 (2 ^ k)))) unwrapped
      ∙ align_mask64 (v + 2 ^ k - 1) (omega (arith, pow-pos))
    where
      unwrapped : (v + 2 ^ k + (word_mod - 1)) % word_mod ≡ v + 2 ^ k - 1
      unwrapped = omega (arith, pow-pos)

  pub align_up_bounds :
      (v : ℕ)
      → v + 2 ^ k ≤ word_mod
      → (v ≤ align_up v (2 ^ k))
        × (align_up v (2 ^ k) < v + 2 ^ k)
        × (align_up v (2 ^ k) % 2 ^ k ≡ 0)
  align_up_bounds v h = (
    omega (
      arith,
      align_up_lem v h,
      div-add-mod (v + 2 ^ k - 1) (2 ^ k),
      mod-lt (v + 2 ^ k - 1) pow-pos,
      pow-pos,
    ),
    omega (arith, align_up_lem v h, div-add-mod (v + 2 ^ k - 1) (2 ^ k), pow-pos),
    rw (align_up_lem v h) (mul-mod_left ((v + 2 ^ k - 1) / 2 ^ k) (2 ^ k)),
  )
