-- ===== src/Pmm/Count.antt =====
-- The number of clear bits below a page, which `s_free_pages` counts.
use micro_nt.Base.{ℕ, zero, suc, ◌+◌, ◌≤◌, ◌<◌, ◌≡◌, refl, true, false, if◌then◌else◌, arith}
use micro_nt.Pmm.{Bitmap, bitmap_set, bitmap_clear, bitmap_test}
use micro_nt.Pmm.Bitmap.{test-set, test-clear}

unfoldable pub count_free : Bitmap → ℕ → ℕ
count_free bm zero = 0
count_free bm (suc n) = (if bitmap_test bm n then 0 else 1) + count_free bm n

pub count_free-le : (bm : Bitmap) (n : ℕ) → count_free bm n ≤ n
unfolding count_free
count_free-le bm zero = omega arith
count_free-le bm (suc n) = ground (arith, count_free-le bm n)

count_free-set_above :
    (bm : Bitmap) (n i : ℕ) → n ≤ i → count_free (bitmap_set bm i) n ≡ count_free bm n
unfolding count_free
count_free-set_above bm zero i h = refl
count_free-set_above bm (suc n) i h = ground (arith, test-set bm i n, count_free-set_above bm n i)

count_free-clear_above :
    (bm : Bitmap) (n i : ℕ) → n ≤ i → count_free (bitmap_clear bm i) n ≡ count_free bm n
unfolding count_free
count_free-clear_above bm zero i h = refl
count_free-clear_above bm (suc n) i h =
    ground (arith, test-clear bm i n, count_free-clear_above bm n i)

-- Reserving a free page takes one away, and releasing a used one adds one.
pub count_free-set :
    (bm : Bitmap) (n i : ℕ)
    → i < n
    → bitmap_test bm i ≡ false
    → count_free bm n ≡ suc (count_free (bitmap_set bm i) n)
unfolding count_free
count_free-set bm zero i h e = absurd (omega arith)
count_free-set bm (suc n) i h e =
    ground (arith, test-set bm i n, count_free-set bm n i, count_free-set_above bm n i)

pub count_free-clear :
    (bm : Bitmap) (n i : ℕ)
    → i < n
    → bitmap_test bm i ≡ true
    → count_free (bitmap_clear bm i) n ≡ suc (count_free bm n)
unfolding count_free
count_free-clear bm zero i h e = absurd (omega arith)
count_free-clear bm (suc n) i h e =
    ground (arith, test-clear bm i n, count_free-clear bm n i, count_free-clear_above bm n i)
