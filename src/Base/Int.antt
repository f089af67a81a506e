-- ===== src/Base/Int.antt =====
-- Signed counters over the native numbers, under the library's names: `negsuc n` is -(n + 1).
use Prim.Native.Nat.{ℕ, zero, suc}
use mathlib.Core.Bool.{Bool, true, false}
use micro_nt.Base.{◌-◌, ◌^◌, ◌+◌, ◌<◌, ◌≡◌, refl, ◌==◌, if◌then◌else◌, arith}

pub data ℤ : Type 0 where
  pos : ℕ → ℤ
  negsuc : ℕ → ℤ

-- ++x in 32 bits: the largest number is followed by the smallest.
abbrev pub inc : ℤ → ℤ
inc (pos n) = if suc n == 2 ^ 31 then negsuc (2 ^ 31 - 1) else pos (suc n)
inc (negsuc zero) = pos 0
inc (negsuc (suc n)) = negsuc n

-- --x in 32 bits
abbrev pub dec : ℤ → ℤ
dec (pos zero) = negsuc 0
dec (pos (suc n)) = pos n
dec (negsuc n) = if suc n == 2 ^ 31 then pos (2 ^ 31 - 1) else negsuc (suc n)

-- x <= 0
abbrev pub is_nonpos : ℤ → Bool
is_nonpos (pos zero) = true
is_nonpos (pos (suc n)) = false
is_nonpos (negsuc n) = true

-- The number, or 0 for a negative one.
abbrev pub magnitude : ℤ → ℕ
magnitude (pos n) = n
magnitude (negsuc n) = 0

-- Below the largest number no increment wraps.
pub inc-pos : (n : ℕ) → n + 1 < 2 ^ 31 → inc (pos n) ≡ pos (suc n)
inc-pos n lt = let small : suc n == 2 ^ 31 ≡ false = ground (arith, lt) in rw small refl
