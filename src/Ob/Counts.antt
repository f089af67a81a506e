-- ===== src/Ob/Counts.antt =====
-- How many handles an object has, and how Alloc and Free change that.
use micro_nt.Base.{
  ℕ, zero, suc, ◌+◌, ◌<◌, ◌≡◌, refl, ◌≢◌, some, List, [], ◌∷◌, ◌==◌, if◌then◌else◌, arith,
  get_elem?, set, replicate,
}
use micro_nt.Ob.{HandleEntry, free_entry}

pub count_handles : ℕ → List HandleEntry → ℕ
count_handles object [] = 0
count_handles object (e ∷ es) = (if e.object == object then 1 else 0) + count_handles object es

-- A write to an entry takes its old object away and adds the new one.
pub count_handles-set :
    (object : ℕ) (es : List HandleEntry) (k : ℕ) (old new : HandleEntry)
    → get_elem? es k ≡ some old
    → count_handles object (set es k new) + (if old.object == object then 1 else 0)
      ≡ count_handles object es + (if new.object == object then 1 else 0)
unfolding count_handles
count_handles-set object [] k old new at = cc
count_handles-set object (e ∷ es) zero old new at = ground arith
count_handles-set object (e ∷ es) (suc k) old new at =
    ground (arith, count_handles-set object es k old new at)

-- An object with an open entry has a handle.
pub count_handles-pos :
    (es : List HandleEntry) (k : ℕ) (e : HandleEntry)
    → get_elem? es k ≡ some e
    → 0 < count_handles e.object es
unfolding count_handles
count_handles-pos [] k e at = cc
count_handles-pos (x ∷ es) zero e at = ground arith
count_handles-pos (x ∷ es) (suc k) e at = ground (arith, count_handles-pos es k e at)

pub count_handles-free :
    (object n : ℕ) → object ≢ 0 → count_handles object (replicate n free_entry) ≡ 0
unfolding count_handles
count_handles-free object zero ne = refl
count_handles-free object (suc n) ne = ground (arith, count_handles-free object n ne)
