-- ===== src/Pmm/Run.antt =====
-- AllocPages: the first run of free pages that is long enough.
use micro_nt.Base.{
  ℕ, zero, suc, ◌+◌, ◌-◌, ◌*◌, ◌≤◌, ◌<◌, ◌≡◌, inl, inr, Bool, true, false, none, some, ◌==◌, ◌&&◌,
  if◌then◌else◌, leb, ltb, arith, Option-cases, Bool-cases,
}
use micro_nt.Ntdef.{page_size}
use micro_nt.Pmm.{Bitmap, Pmm, max_pages, bitmap_test, reserve, find_run, reserve_run, alloc_pages}
use micro_nt.Pmm.Bitmap.{test-set}
use micro_nt.Pmm.Count.{count_free-set}
use micro_nt.Pmm.Alloc.{Inv}

-- The pages from `i` below `j` are all free.
abbrev pub AllFree : Bitmap → ℕ → ℕ → Type 0
AllFree bm i j = (k : ℕ) → i ≤ k → k < j → bitmap_test bm k ≡ false

find_run_sound :
    (n i run count : ℕ) (bm : Bitmap) (start : ℕ)
    → find_run n i run count bm ≡ some start
    → run < count
    → run ≤ i
    → AllFree bm (i - run) i
    → (start + count ≤ i + n) × AllFree bm start (start + count)
unfolding find_run
find_run_sound zero i run count bm start e short back free = cc
find_run_sound (suc n) i run count bm start e short back free =
    elim (Bool-cases (bitmap_test bm i)) [
      | inl used ↦
          let (a, b) =
            find_run_sound n (suc i) 0 count bm start (ground arith) (omega arith) (omega arith)
              (λ k lo hi. absurd (omega arith)) in
          (omega arith, b)
      | inr clear ↦ elim (Bool-cases (run + 1 == count)) [
        | inl full ↦ (ground arith, λ k lo hi. extend clear k (ground arith) (ground arith))
        | inr more ↦
            let (a, b) =
              find_run_sound n (suc i) (run + 1) count bm start (ground arith) (ground arith)
                (omega arith) (extend clear) in
            (omega arith, b)
      ]
    ]
  where
    extend : bitmap_test bm i ≡ false → AllFree bm (suc i - (run + 1)) (suc i)
    extend clear k lo hi = elim (Bool-cases (k == i)) [
      | inl same ↦ ground arith
      | inr other ↦ free k (omega arith) (ground arith)
    ]

find_run_complete :
    (n i run count : ℕ) (bm : Bitmap) (start : ℕ)
    → find_run n i run count bm ≡ none
    → run < count
    → i ≤ start + run
    → start + count ≤ i + n
    → AllFree bm start (start + count)
    → ⊥
unfolding find_run
find_run_complete zero i run count bm start e short near fits free = omega arith
find_run_complete (suc n) i run count bm start e short near fits free =
    elim (Bool-cases (bitmap_test bm i)) [
      | inl used ↦
          find_run_complete n (suc i) 0 count bm start (ground arith) (omega arith) (before used)
            (omega arith) free
      | inr clear ↦ elim (Bool-cases (run + 1 == count)) [
        | inl full ↦ ground arith
        | inr more ↦
            find_run_complete n (suc i) (run + 1) count bm start (ground arith) (ground arith)
              (omega arith) (omega arith) free
      ]
    ]
  where
    before : bitmap_test bm i ≡ true → suc i ≤ start + 0
    before used = ground (arith, free i)

-- Reserving a free page keeps the invariant.
pub reserve-Inv :
    (p : Pmm) (i : ℕ)
    → Inv p
    → i < max_pages
    → bitmap_test p.bitmap i ≡ false
    → Inv (reserve p i) × (suc (reserve p i).free_pages ≡ p.free_pages)
unfolding reserve
reserve-Inv p i v hi free = (
  record {
    counted = omega (arith, v.counted, count_free-set p.bitmap max_pages i hi free);
    hint_in = v.hint_in;
    hint_ok = λ k lo below. ground (arith, test-set p.bitmap i k, v.hint_ok k);
  },
  omega (arith, v.counted, count_free-set p.bitmap max_pages i hi free),
)

pub test-reserve :
    (p : Pmm) (i j : ℕ)
    → bitmap_test (reserve p i).bitmap j ≡ (if i == j then true else bitmap_test p.bitmap j)
unfolding reserve
test-reserve p i j = test-set p.bitmap i j

-- A page lies in the run that starts at `start`.
abbrev pub in_run : ℕ → ℕ → ℕ → Bool
in_run start count j = leb start j && ltb j (start + count)

record Reserved (p : Pmm) (start count : ℕ) (q : Pmm) : Type 0 where
  inv : Inv q
  fewer : q.free_pages + count ≡ p.free_pages
  bits :
      (j : ℕ)
      → bitmap_test q.bitmap j ≡ (if in_run start count j then true else bitmap_test p.bitmap j)

reserve_run-Reserved :
    (n start : ℕ) (p : Pmm)
    → Inv p
    → start + n ≤ max_pages
    → AllFree p.bitmap start (start + n)
    → Reserved p start n (reserve_run n start p)
unfolding reserve_run
reserve_run-Reserved zero start p v hi free = record {
  inv = v;
  fewer = omega arith;
  bits = λ j. ground arith;
}
reserve_run-Reserved (suc n) start p v hi free =
    let first = reserve-Inv p start v (omega arith) (free start (omega arith) (omega arith)) in
    let rest =
      reserve_run-Reserved n (suc start) (reserve p start) first.0 (omega arith)
        (λ k lo h. ground (arith, test-reserve p start k, free k)) in
    record {
      inv = rest.inv;
      fewer = omega (arith, rest.fewer, first.1);
      bits = λ j. ground (arith, rest.bits j, test-reserve p start j);
    }

-- What AllocPages returns.
pub data AllocatesRun (p : Pmm) (count : ℕ) : ℕ × Pmm → Type 0 where
  nothing_asked : count ≡ 0 → AllocatesRun p count (0, p)
  no_run :
      ((start : ℕ) → start + count ≤ max_pages → ¬ AllFree p.bitmap start (start + count))
      → AllocatesRun p count (0, p)
  reserved :
      (start : ℕ) (q : Pmm)
      → 0 < count
      → start + count ≤ max_pages
      → AllFree p.bitmap start (start + count)
      → ((j : ℕ)
          → bitmap_test q.bitmap j
            ≡ (if in_run start count j then true else bitmap_test p.bitmap j))
      → q.free_pages + count ≡ p.free_pages
      → AllocatesRun p count (start * page_size, q)

-- If the free counter is exact and no free page lies below the hint, AllocPages returns 0 and
-- changes nothing when no page is asked for or no run of that many free pages exists; otherwise
-- it returns the start of such a run, marks the pages of the run and no others, and counts them
-- out. The counter stays exact and the hint below every free page.
pub alloc_pages-AllocatesRun :
    (p : Pmm) (count : ℕ)
    → Inv p
    → AllocatesRun p count (alloc_pages p count) × Inv (alloc_pages p count).1
unfolding alloc_pages
alloc_pages-AllocatesRun p count v = elim (Bool-cases (count == 0)) [
  | inl nil ↦ rw (nil, alloc_pages) (nothing_asked (ground arith), v)
  | inr some_pages ↦ elim (Option-cases (find_run max_pages 0 0 count p.bitmap)) [
    | inl e ↦
        rw (some_pages, alloc_pages) (rw (e, alloc_pages) (no_run (missing (ground arith) e), v))
    | inr (start, e) ↦
        let (fits, free) = found start (ground arith) e in
        let q = reserve_run-Reserved count start p v fits free in
        rw (some_pages, alloc_pages)
          (rw (e, alloc_pages) (reserved start _ (ground arith) fits free q.bits q.fewer, q.inv))
  ]
]
  where
    missing :
        0 < count
        → find_run max_pages 0 0 count p.bitmap ≡ none
        → (start : ℕ) → start + count ≤ max_pages
        → ¬ AllFree p.bitmap start (start + count)
    missing pos e start fits free =
        find_run_complete max_pages 0 0 count p.bitmap start e pos (omega arith) (omega arith) free

    found :
        (start : ℕ)
        → 0 < count
        → find_run max_pages 0 0 count p.bitmap ≡ some start
        → (start + count ≤ max_pages) × AllFree p.bitmap start (start + count)
    found start pos e =
        let (fits, free) =
          find_run_sound max_pages 0 0 count p.bitmap start e pos (omega arith)
            (λ k lo hi. absurd (omega arith)) in
        (omega arith, free)
