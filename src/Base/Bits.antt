-- ===== src/Base/Bits.antt =====
-- The laws of `&` and `|` at every width: digit by digit, in fields, and under a mask.
use Prim.Native.Nat.{
  ℕ, zero, suc, ◌+◌, ◌-◌, ◌*◌, ◌/◌, ◌%◌, ◌^◌, ◌≤◌, min, max, bit_and, bit_or, digits,
  bit_and-bitwise, bit_or-bitwise,
}
use mathlib.Core.Path.{◌≡◌, refl, sym, ap, ap₂, ◌∙◌}
use native.Mathlib.Nat.{pow-suc, one-le-pow, div-div-eq-div-mul, div-one, div-add-mod, mod-one}
use native.Mathlib.Omega.{arith}

module _ (z : ℕ → ℕ) (f : ℕ → ℕ → ℕ) where
  digits-zero : (b m : ℕ) → digits z f m 0 b ≡ z b
  digits-zero b zero = refl
  digits-zero b (suc m) = refl

  -- More digits to go than the number has change nothing.
  digits_enough : (b m a n : ℕ) → (a ≤ m) × (a ≤ n) → digits z f m a b ≡ digits z f n a b
  digits_enough b m zero n h = digits-zero b m ∙ sym (digits-zero b n)
  digits_enough b zero (suc a) n h = absurd (omega (arith, h.0))
  digits_enough b (suc m) (suc a) zero h = absurd (omega (arith, h.1))
  digits_enough b (suc m) (suc a) (suc n) h =
      rw (digits_enough (b / 2) m (suc a / 2) n (omega (arith, h.0), omega (arith, h.1)))

  -- As many digits as the halved number has are enough for it.
  halved : (a b : ℕ) → digits z f a (suc a / 2) (b / 2) ≡ digits z f (suc a / 2) (suc a / 2) (b / 2)
  halved a b = digits_enough (b / 2) a (suc a / 2) (suc a / 2) (omega arith, omega arith)

-- The lowest digit, and the rest.
pub bit_and_step : (x y : ℕ) → bit_and x y ≡ min (x % 2) (y % 2) + bit_and (x / 2) (y / 2) * 2
bit_and_step zero y = simp bit_and-bitwise (omega arith)
bit_and_step (suc x) y = simp bit_and-bitwise (omega (arith, halved (λ _. 0) min x y))

pub bit_or_step : (x y : ℕ) → bit_or x y ≡ max (x % 2) (y % 2) + bit_or (x / 2) (y / 2) * 2
bit_or_step zero y = simp bit_or-bitwise (omega arith)
bit_or_step (suc x) y = simp bit_or-bitwise (omega (arith, halved (λ t. t) max x y))

div-pow-suc : (a k : ℕ) → a / 2 ^ suc k ≡ a / 2 / 2 ^ k
div-pow-suc a k =
    omega (arith, pow-suc 2 k, div-div-eq-div-mul a 2 (2 ^ k), ap (λ (t : ℕ). a / t) (pow-suc' k))
  where
    pow-suc' : (n : ℕ) → 2 ^ suc n ≡ 2 * 2 ^ n
    pow-suc' n = omega (arith, pow-suc 2 n)

mod-pow-suc : (a k : ℕ) → a % 2 ^ suc k ≡ a / 2 % 2 ^ k * 2 + a % 2
mod-pow-suc a k = omega (
  arith,
  ap₂ ◌*◌ (pow-suc 2 k) (div-pow-suc a k),
  div-add-mod (a / 2) (2 ^ k),
  div-add-mod a (2 ^ suc k),
)

-- A shift to the right acts on each number by itself.
pub bit_and-div_pow : (k a b : ℕ) → bit_and a b / 2 ^ k ≡ bit_and (a / 2 ^ k) (b / 2 ^ k)
bit_and-div_pow zero a b = simp div-one
bit_and-div_pow (suc k) a b = simp (div-pow-suc, bit_and-half) (bit_and-div_pow k (a / 2) (b / 2))
  where
    bit_and-half : bit_and a b / 2 ≡ bit_and (a / 2) (b / 2)
    bit_and-half = omega (arith, bit_and_step a b)

pub bit_or-div_pow : (k a b : ℕ) → bit_or a b / 2 ^ k ≡ bit_or (a / 2 ^ k) (b / 2 ^ k)
bit_or-div_pow zero a b = simp div-one
bit_or-div_pow (suc k) a b = simp (div-pow-suc, bit_or-half) (bit_or-div_pow k (a / 2) (b / 2))
  where
    bit_or-half : bit_or a b / 2 ≡ bit_or (a / 2) (b / 2)
    bit_or-half = omega (arith, bit_or_step a b)

half-mod-pow : (a k : ℕ) → a % 2 ^ suc k / 2 ≡ a / 2 % 2 ^ k
half-mod-pow a k = omega (arith, mod-pow-suc a k)

-- So does dropping the high digits.
pub bit_and-mod_pow : (k a b : ℕ) → bit_and a b % 2 ^ k ≡ bit_and (a % 2 ^ k) (b % 2 ^ k)
bit_and-mod_pow zero a b = simp mod-one
bit_and-mod_pow (suc k) a b = omega (
  arith,
  mod-pow-suc (bit_and a b) k,
  mod-pow-suc a k,
  mod-pow-suc b k,
  bit_and-mod_pow k (a / 2) (b / 2),
  ap (λ (t : ℕ). t % 2 ^ k) (bit_and-half a b),
  bit_and_step a b,
  bit_and_step (a % 2 ^ suc k) (b % 2 ^ suc k),
  ap₂ bit_and (half-mod-pow a k) (half-mod-pow b k),
)
  where
    bit_and-half : (x y : ℕ) → bit_and x y / 2 ≡ bit_and (x / 2) (y / 2)
    bit_and-half x y = omega (arith, bit_and_step x y)

pub bit_or-mod_pow : (k a b : ℕ) → bit_or a b % 2 ^ k ≡ bit_or (a % 2 ^ k) (b % 2 ^ k)
bit_or-mod_pow zero a b = simp mod-one
bit_or-mod_pow (suc k) a b = omega (
  arith,
  mod-pow-suc (bit_or a b) k,
  mod-pow-suc a k,
  mod-pow-suc b k,
  bit_or-mod_pow k (a / 2) (b / 2),
  ap (λ (t : ℕ). t % 2 ^ k) (bit_or-half a b),
  bit_or_step a b,
  bit_or_step (a % 2 ^ suc k) (b % 2 ^ suc k),
  ap₂ bit_or (half-mod-pow a k) (half-mod-pow b k),
)
  where
    bit_or-half : (x y : ℕ) → bit_or x y / 2 ≡ bit_or (x / 2) (y / 2)
    bit_or-half x y = omega (arith, bit_or_step x y)

-- With no digits on one side.
pub zero-bit_or : (b : ℕ) → bit_or 0 b ≡ b
zero-bit_or b = bit_or-bitwise 0 b

pub zero-bit_and : (b : ℕ) → bit_and 0 b ≡ 0
zero-bit_and b = bit_and-bitwise 0 b

bit_or-zero_below : (n a : ℕ) → a ≤ n → bit_or a 0 ≡ a
bit_or-zero_below n zero h = refl
bit_or-zero_below zero (suc a) h = absurd (omega arith)
bit_or-zero_below (suc n) (suc a) h =
    omega (arith, bit_or_step (suc a) 0, bit_or-zero_below n (suc a / 2) (omega arith))

pub bit_or-zero : (a : ℕ) → bit_or a 0 ≡ a
bit_or-zero a = bit_or-zero_below a a (omega arith)

bit_and-zero_below : (n a : ℕ) → a ≤ n → bit_and a 0 ≡ 0
bit_and-zero_below n zero h = refl
bit_and-zero_below zero (suc a) h = absurd (omega arith)
bit_and-zero_below (suc n) (suc a) h =
    omega (arith, bit_and_step (suc a) 0, bit_and-zero_below n (suc a / 2) (omega arith))

pub bit_and-zero : (a : ℕ) → bit_and a 0 ≡ 0
bit_and-zero a = bit_and-zero_below a a (omega arith)

-- A mask of `k` low ones keeps the remainder by `2 ^ k`.
pub bit_and-ones : (k a : ℕ) → bit_and a (2 ^ k - 1) ≡ a % 2 ^ k
bit_and-ones zero a = simp (mod-one, bit_and-zero)
bit_and-ones (suc k) a = omega (
  arith,
  bit_and_step a (2 ^ suc k - 1),
  mod-pow-suc a k,
  bit_and-ones k (a / 2),
  pow-suc 2 k,
  one-le-pow k 2 (omega arith),
  ap (bit_and (a / 2)) half_ones,
)
  where
    half_ones : (2 ^ suc k - 1) / 2 ≡ 2 ^ k - 1
    half_ones = omega (arith, pow-suc 2 k, one-le-pow k 2 (omega arith))

-- The digit with weight `2 ^ k`.
abbrev pub bit_at : ℕ → ℕ → ℕ
bit_at k a = a / 2 ^ k % 2

pub bit_at-bit_or : (k a b : ℕ) → bit_at k (bit_or a b) ≡ max (bit_at k a) (bit_at k b)
bit_at-bit_or k a b = omega (arith, bit_or-div_pow k a b, bit_or_step (a / 2 ^ k) (b / 2 ^ k))

pub bit_at-bit_and : (k a b : ℕ) → bit_at k (bit_and a b) ≡ min (bit_at k a) (bit_at k b)
bit_at-bit_and k a b = omega (arith, bit_and-div_pow k a b, bit_and_step (a / 2 ^ k) (b / 2 ^ k))
