-- ===== src/Pmm/Bitmap.antt =====
-- Which bits BitmapSet and BitmapClear change.
use micro_nt.Base.{
  ℕ, zero, suc, ◌-◌, ◌/◌, ◌%◌, ◌^◌, ◌<◌, ◌≡◌, refl, Bool, true, false, ◌&&◌, ◌==◌, ==→eq,
  if◌then◌else◌, arith,
}
use micro_nt.Base.Bits.{bit_at, bit_at-bit_or, bit_at-bit_and}
use micro_nt.Pmm.{Bitmap, bitmap_set, bitmap_clear, bitmap_test}

-- Every pair of digits of a byte.
below : ℕ → (ℕ → Bool) → Bool
below zero p = true
below (suc n) p = p n && below n p

below_sound : (n : ℕ) (p : ℕ → Bool) (x : ℕ) → below n p ≡ true → x < n → p x ≡ true
unfolding below
below_sound zero p x h lt = absurd (omega arith)
below_sound (suc n) p x h lt = ground (arith, below_sound n p x)

pairs_sound :
    (p : ℕ → ℕ → Bool) (j k : ℕ)
    → below 8 (λ j. below 8 (p j)) ≡ true
    → j < 8
    → k < 8
    → p j k ≡ true
pairs_sound p j k table hj hk =
    below_sound 8 (p j) k (below_sound 8 (λ i. below 8 (p i)) j table hj) hk

abbrev sets : ℕ → ℕ → Bool
sets j k = bit_at k (2 ^ j) == (if j == k then 1 else 0)

abbrev clears : ℕ → ℕ → Bool
clears j k = bit_at k (255 - 2 ^ j) == (if j == k then 0 else 1)

sets_table : below 8 (λ j. below 8 (sets j)) ≡ true
unfolding below
sets_table = refl

clears_table : below 8 (λ j. below 8 (clears j)) ≡ true
unfolding below
clears_table = refl

set_digit : (j k : ℕ) → j < 8 → k < 8 → bit_at k (2 ^ j) ≡ (if j == k then 1 else 0)
set_digit j k hj hk = ==→eq _ _ (pairs_sound sets j k sets_table hj hk)

clear_digit : (j k : ℕ) → j < 8 → k < 8 → bit_at k (255 - 2 ^ j) ≡ (if j == k then 0 else 1)
clear_digit j k hj hk = ==→eq _ _ (pairs_sound clears j k clears_table hj hk)

module _ (bm : Bitmap) (page other : ℕ) where
  pub test-set :
      bitmap_test (bitmap_set bm page) other
      ≡ (if page == other then true else bitmap_test bm other)
  unfolding bitmap_test bitmap_set
  test-set = ground (
    arith,
    set_digit (page % 8) (other % 8),
    bit_at-bit_or (other % 8) (bm (page / 8)) (2 ^ (page % 8)),
  )

  pub test-clear :
      bitmap_test (bitmap_clear bm page) other
      ≡ (if page == other then false else bitmap_test bm other)
  unfolding bitmap_test bitmap_clear
  test-clear = ground (
    arith,
    clear_digit (page % 8) (other % 8),
    bit_at-bit_and (other % 8) (bm (page / 8)) (255 - 2 ^ (page % 8)),
  )
