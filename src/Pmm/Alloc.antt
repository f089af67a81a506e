-- ===== src/Pmm/Alloc.antt =====
-- AllocPage and FreePage: which page they choose, and the counters that they keep.
use micro_nt.Base.{
  ℕ, zero, suc, ◌+◌, ◌-◌, ◌*◌, ◌/◌, ◌≤◌, ◌<◌, ◌≡◌, ◌≢◌, inl, inr, true, false, Option, none, some,
  ◌==◌, if◌then◌else◌, ltb, arith, ◌&&◌, Option-cases, Bool-cases,
}
use micro_nt.Ntdef.{page_size}
use micro_nt.Pmm.{Bitmap, Pmm, max_pages, bitmap_test, first_free, alloc_page, free_page}
use micro_nt.Pmm.Bitmap.{test-set, test-clear}
use micro_nt.Pmm.Count.{count_free, count_free-le, count_free-set, count_free-clear}

-- The pages from `i` below `j` are all in use.
abbrev pub AllUsed : Bitmap → ℕ → ℕ → Type 0
AllUsed bm i j = (k : ℕ) → i ≤ k → k < j → bitmap_test bm k ≡ true

-- The counter is exact, and no free page lies below the search hint.
pub record Inv (p : Pmm) : Type 0 where
  pub counted : p.free_pages ≡ count_free p.bitmap max_pages
  pub hint_in : p.search_hint ≤ max_pages
  pub hint_ok : AllUsed p.bitmap 0 p.search_hint

first_free-none :
    (n i k : ℕ) (bm : Bitmap)
    → first_free n i bm ≡ none
    → i ≤ k
    → k < i + n
    → bitmap_test bm k ≡ true
unfolding first_free
first_free-none zero i k bm e lo hi = absurd (omega arith)
first_free-none (suc n) i k bm e lo hi = elim (Bool-cases (k == i)) [
  | inl same ↦ ground arith
  | inr other ↦ ground (arith, first_free-none n (suc i) k bm)
]

first_free-some :
    (n i : ℕ) (bm : Bitmap) (j : ℕ)
    → first_free n i bm ≡ some j
    → (i ≤ j) × (j < i + n) × (bitmap_test bm j ≡ false)
unfolding first_free
first_free-some zero i bm j e = cc
first_free-some (suc n) i bm j e = ground (arith, first_free-some n (suc i) bm j)

first_free-first :
    (n i k : ℕ) (bm : Bitmap) (j : ℕ)
    → first_free n i bm ≡ some j
    → i ≤ k
    → k < j
    → bitmap_test bm k ≡ true
unfolding first_free
first_free-first zero i k bm j e lo hi = cc
first_free-first (suc n) i k bm j e lo hi = elim (Bool-cases (k == i)) [
  | inl same ↦ ground arith
  | inr other ↦ ground (arith, first_free-first n (suc i) k bm j)
]

-- What AllocPage does: it fails only when every page is in use, and otherwise reserves the lowest
-- free page and no other.
pub data Allocates (p : Pmm) : ℕ × Pmm → Type 0 where
  exhausted : AllUsed p.bitmap 0 max_pages → Allocates p (0, p)
  reserved :
      (i : ℕ) (q : Pmm)
      → i < max_pages
      → bitmap_test p.bitmap i ≡ false
      → AllUsed p.bitmap 0 i
      → bitmap_test q.bitmap i ≡ true
      → ((j : ℕ) → j ≢ i → bitmap_test q.bitmap j ≡ bitmap_test p.bitmap j)
      → suc q.free_pages ≡ p.free_pages
      → Allocates p (i * page_size, q)

module _ (p : Pmm) (v : Inv p) where
  all_used :
      first_free (max_pages - p.search_hint) p.search_hint p.bitmap ≡ none
      → AllUsed p.bitmap 0 max_pages
  all_used e k lo hi = elim (Bool-cases (ltb k p.search_hint)) [
    | inl below ↦ v.hint_ok k (omega arith) (ground arith)
    | inr above ↦
        first_free-none (max_pages - p.search_hint) p.search_hint k p.bitmap e (ground arith)
          (ground (arith, v.hint_in))
  ]

  lowest :
      {i : ℕ}
      → first_free (max_pages - p.search_hint) p.search_hint p.bitmap ≡ some i
      → AllUsed p.bitmap 0 i
  lowest {i} e k lo hi = elim (Bool-cases (ltb k p.search_hint)) [
    | inl below ↦ v.hint_ok k (omega arith) (ground arith)
    | inr above ↦
        first_free-first (max_pages - p.search_hint) p.search_hint k p.bitmap i e (ground arith) hi
  ]

-- If the free counter is exact and no free page lies below the hint, AllocPage fails, with 0 and
-- no change, only when every page is in use; otherwise it reserves the lowest free page and no
-- other, returns its address, and counts it out.
pub alloc_page-Allocates : (p : Pmm) → Inv p → Allocates p (alloc_page p)
unfolding alloc_page
alloc_page-Allocates p v = elim (Option-cases found) [
  | inl e ↦ rw (e, alloc_page) (exhausted (all_used p v e))
  | inr (i, e) ↦
      let (_, hi, free) = first_free-some (max_pages - p.search_hint) p.search_hint p.bitmap i e in
      rw (e, alloc_page)
        (reserved i _ (omega (arith, v.hint_in)) free (lowest p v e)
          (ground (arith, test-set p.bitmap i i)) (λ j other. ground (arith, test-set p.bitmap i j))
          (omega (
            arith,
            v.counted,
            count_free-set p.bitmap max_pages i (omega (arith, v.hint_in)) free,
          )))
]
  where
    found : Option ℕ
    found = first_free (max_pages - p.search_hint) p.search_hint p.bitmap

-- AllocPage keeps the free counter exact and the hint below every free page.
pub alloc_page-Inv : (p : Pmm) → Inv p → Inv (alloc_page p).1
unfolding alloc_page
alloc_page-Inv p v = elim (Option-cases found) [
  | inl e ↦ rw (e, alloc_page) v
  | inr (i, e) ↦
      let (_, hi, free) = first_free-some (max_pages - p.search_hint) p.search_hint p.bitmap i e in
      rw (e, alloc_page)
        (record {
          counted = omega (
            arith,
            v.counted,
            count_free-set p.bitmap max_pages i (omega (arith, v.hint_in)) free,
          );
          hint_in = omega (arith, v.hint_in);
          hint_ok = λ k lo below. ground (arith, test-set p.bitmap i k, lowest p v e k lo);
        })
]
  where
    found : Option ℕ
    found = first_free (max_pages - p.search_hint) p.search_hint p.bitmap

-- FreePage keeps the free counter exact and the hint below every free page, whatever its
-- argument.
pub free_page-Inv : (p : Pmm) (addr : ℕ) → Inv p → Inv (free_page p addr)
unfolding free_page
free_page-Inv p addr v = record {
  counted = ground (
    arith,
    v.counted,
    count_free-le p.bitmap max_pages,
    count_free-clear p.bitmap max_pages (addr / page_size),
  );
  hint_in = ground (arith, v.hint_in);
  hint_ok = λ k lo hi. ground (arith, v.hint_ok k, test-clear p.bitmap (addr / page_size) k);
}

-- After FreePage the page of the address, if it is below 8 GB, is free, and every other page is
-- as it was.
pub free_page_lem :
    (p : Pmm) (addr j : ℕ)
    → bitmap_test (free_page p addr).bitmap j
      ≡ (if (j == addr / page_size) && ltb j max_pages then false else bitmap_test p.bitmap j)
unfolding free_page
free_page_lem p addr j = ground (arith, test-clear p.bitmap (addr / page_size) j)
