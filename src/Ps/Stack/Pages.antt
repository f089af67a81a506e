-- ===== src/Ps/Stack/Pages.antt =====
-- The pages of a stack: a run of pages if the lowest free pages are one, and otherwise not.
use micro_nt.Base.{
  ℕ, zero, suc, ◌+◌, ◌-◌, ◌*◌, ◌/◌, ◌%◌, ◌≤◌, ◌<◌, ◌≡◌, refl, ap, subst, ◌∙◌, ◌≢◌, ◌⊎◌, inl, inr,
  true, false, ◌==◌, ltb, arith, Bool-cases,
}
use micro_nt.Ntdef.{page_size, word_mod}
use micro_nt.Pmm.{Pmm, Bitmap, max_pages, bitmap_test, alloc_page}
use micro_nt.Pmm.Alloc.{
  Inv, AllUsed, Allocates, exhausted, reserved, alloc_page-Allocates, alloc_page-Inv,
}
use micro_nt.Ps.Stack.{alloc_rest, alloc_stack}

-- The lowest free page.
pub record Lowest (p : Pmm) (i : ℕ) : Type 0 where
  pub bound : i < max_pages
  pub below : AllUsed p.bitmap 0 i
  pub free : bitmap_test p.bitmap i ≡ false

-- AllocPage takes the lowest free page.
record Takes (p : Pmm) (i : ℕ) (r : ℕ × Pmm) : Type 0 where
  address : r.0 ≡ i * page_size
  taken : bitmap_test r.1.bitmap i ≡ true
  others : (j : ℕ) → j ≢ i → bitmap_test r.1.bitmap j ≡ bitmap_test p.bitmap j

Lowest-Takes : (p : Pmm) (i : ℕ) (r : ℕ × Pmm) → Lowest p i → Allocates p r → Takes p i r
Lowest-Takes p i _ low (exhausted full) = absurd (ground (arith, full i, low.free, low.bound))
Lowest-Takes p i _ low (reserved n q small free lowest taken others counted) =
    let same : n ≡ i = elim (Bool-cases (ltb n i)) [
      | inl less ↦ absurd (ground (arith, free, low.below n (omega arith) (ground (arith, less))))
      | inr not_less ↦ elim (Bool-cases (ltb i n)) [
        | inl more ↦
            absurd (ground (arith, low.free, lowest i (omega arith) (ground (arith, more))))
        | inr not_more ↦ ground (arith, not_less, not_more)
      ]
    ] in
    record {
      address = ap (λ x. x * page_size) same;
      taken = subst (λ x. bitmap_test q.bitmap x ≡ true) same taken;
      others = λ j ne. others j (λ e. ne (e ∙ same));
    }

-- AllocPage succeeds if the first page is in use and some page is free.
Allocates-some :
    (p : Pmm) (j : ℕ) (r : ℕ × Pmm)
    → j < max_pages
    → bitmap_test p.bitmap j ≡ false
    → bitmap_test p.bitmap 0 ≡ true
    → Allocates p r
    → (r.0 == 0) ≡ false
Allocates-some p j _ lj free zero_used (exhausted full) = absurd (ground (arith, full j, free, lj))
Allocates-some p j _ lj free zero_used (reserved n q small free' lowest taken others counted) =
    let ne : n ≢ 0 = λ e. absurd (ground (arith, zero_used, free', ap (bitmap_test p.bitmap) e)) in
    ground (arith, ne)

alloc_page-Takes : (p : Pmm) (i : ℕ) → Inv p → Lowest p i → Takes p i (alloc_page p)
alloc_page-Takes p i v low = Lowest-Takes p i (alloc_page p) low (alloc_page-Allocates p v)

-- The pages from `i` below `j` are free.
abbrev pub AllFree : Bitmap → ℕ → ℕ → Type 0
AllFree bm i j = (k : ℕ) → i ≤ k → k < j → bitmap_test bm k ≡ false

-- The rest of a run of free pages is taken.
record Run (p q : Pmm) (i j : ℕ) : Type 0 where
  mine : AllUsed q.bitmap i j
  others : (k : ℕ) → (k < i) ⊎ (j ≤ k) → bitmap_test q.bitmap k ≡ bitmap_test p.bitmap k

-- The first page of a run is taken, then the rest of it.
page-Run :
    (n : ℕ) (p : Pmm) (i : ℕ)
    → Inv p
    → 0 < i
    → i + suc n ≤ max_pages
    → AllUsed p.bitmap 0 i
    → AllFree p.bitmap i (i + suc n)
    → (AllUsed (alloc_page p).1.bitmap 0 (suc i)
        → AllFree (alloc_page p).1.bitmap (suc i) (suc i + n)
        → ((alloc_rest n (alloc_page p).1).0 ≡ true)
          × Run (alloc_page p).1 (alloc_rest n (alloc_page p).1).1 (suc i) (suc i + n))
    → ((alloc_page p).0 ≡ i * page_size)
      × ((alloc_rest n (alloc_page p).1).0 ≡ true)
      × Run p (alloc_rest n (alloc_page p).1).1 i (i + suc n)
page-Run n p i v pos fits below free next =
    let low : Lowest p i = record {
      bound = omega (arith, fits);
      below = below;
      free = free i (omega arith) (omega arith);
    } in
    let t = alloc_page-Takes p i v low in
    let below' : AllUsed (alloc_page p).1.bitmap 0 (suc i) = λ k lo hi. elim (Bool-cases (k == i)) [
      | inl same ↦ let e : k ≡ i = ground arith in rw e t.taken
      | inr other ↦ t.others k (λ e. ground arith) ∙ below k lo (ground (arith, hi, other))
    ] in
    let (ok, run) = next below' (λ k lo hi.
      t.others k (omega (arith, lo)) ∙ free k (omega (arith, lo)) (omega (arith, hi))) in
    (
      t.address,
      ok,
      record {
        mine = λ k lo hi. elim (Bool-cases (k == i)) [
          | inl same ↦
              let e : k ≡ i = ground arith in rw e (run.others i (inl (omega arith)) ∙ t.taken)
          | inr other ↦ run.mine k (ground (arith, lo, other)) (omega (arith, hi))
        ];
        others = λ k out. elim out [
          | inl less ↦ run.others k (inl (omega (arith, less))) ∙ t.others k (omega (arith, less))
          | inr far ↦ run.others k (inr (omega (arith, far))) ∙ t.others k (omega (arith, far))
        ];
      },
    )

alloc_rest-Run :
    (n : ℕ) (p : Pmm) (i : ℕ)
    → Inv p
    → 0 < i
    → i + n ≤ max_pages
    → AllUsed p.bitmap 0 i
    → AllFree p.bitmap i (i + n)
    → ((alloc_rest n p).0 ≡ true) × Run p (alloc_rest n p).1 i (i + n)
unfolding alloc_rest
alloc_rest-Run zero p i v pos fits below free =
    (refl, record { mine = λ k lo hi. absurd (omega (arith, lo, hi)); others = λ k out. refl })
alloc_rest-Run (suc n) p i v pos fits below free =
    let (address, ok, run) = page-Run n p i v pos fits below free (λ b f.
      alloc_rest-Run n (alloc_page p).1 (suc i) (alloc_page-Inv p v) (omega arith)
        (omega (arith, fits)) b f) in
    let page : (alloc_page p).0 == 0 ≡ false = ground (arith, address, pos) in
    rw (page, alloc_rest) (ok, run)

-- If the allocator's counter and hint are right and the lowest free pages, none of them page 0,
-- are a run long enough for a size other than 0 that does not wrap, AllocStack returns the start
-- of the run, all its pages are in use after, and no other page changes.
pub alloc_stack-AllUsed :
    (size : ℕ) (p : Pmm) (i n : ℕ)
    → Inv p
    → 0 < i
    → 0 < size
    → size + page_size ≤ word_mod
    → n ≡ (size + page_size - 1) / page_size
    → i + n ≤ max_pages
    → AllUsed p.bitmap 0 i
    → AllFree p.bitmap i (i + n)
    → let (base, q) = alloc_stack size p in
      (base ≡ i * page_size)
      × AllUsed q.bitmap i (i + n)
      × ((k : ℕ) → (k < i) ⊎ (i + n ≤ k) → bitmap_test q.bitmap k ≡ bitmap_test p.bitmap k)
unfolding alloc_stack
alloc_stack-AllUsed size p i zero v pos some_size small count fits below free =
    absurd (omega (arith, count, some_size))
alloc_stack-AllUsed size p i (suc n) v pos some_size small count fits below free =
    let (address, ok, run) = page-Run n p i v pos fits below free (λ b f.
      alloc_rest-Run n (alloc_page p).1 (suc i) (alloc_page-Inv p v) (omega arith)
        (omega (arith, fits)) b f) in
    let page : (alloc_page p).0 == 0 ≡ false = ground (arith, address, pos) in
    let pages : (size + page_size - 1) % word_mod / page_size - 1 ≡ n =
      omega (arith, count, small, some_size) in
    rw (pages, page, ok, alloc_stack) (address, run.mine, run.others)

-- If the allocator's counter and hint are right, the lowest free page is not page 0, the page
-- after it is in use, and some other page is free, AllocStack of a size of two pages returns the
-- lowest free page, so that the second page of the stack is one that was in use.
pub alloc_stack_scattered :
    (size : ℕ) (p : Pmm) (i j : ℕ)
    → Inv p
    → 0 < i
    → page_size < size
    → size ≤ 2 * page_size
    → i < max_pages
    → AllUsed p.bitmap 0 i
    → bitmap_test p.bitmap i ≡ false
    → bitmap_test p.bitmap (i + 1) ≡ true
    → j < max_pages
    → j ≢ i
    → bitmap_test p.bitmap j ≡ false
    → let base = (alloc_stack size p).0 in
      (base ≡ i * page_size) × (bitmap_test p.bitmap ((base + page_size) / page_size) ≡ true)
unfolding alloc_stack alloc_rest
alloc_stack_scattered size p i j v pos least most bound below free taken lj ne free' =
    let low : Lowest p i = record { bound = bound; below = below; free = free } in
    let t = alloc_page-Takes p i v low in
    let after : Pmm = (alloc_page p).1 in
    let page : (alloc_page p).0 == 0 ≡ false = ground (arith, t.address, pos) in
    let pages : (size + page_size - 1) % word_mod / page_size - 1 ≡ 1 =
      omega (arith, least, most) in
    let second =
      Allocates-some after j (alloc_page after) lj (t.others j ne ∙ free')
        (t.others 0 (omega arith) ∙ below 0 (omega arith) pos)
        (alloc_page-Allocates after (alloc_page-Inv p v)) in
    let next : (i * page_size + page_size) / page_size ≡ i + 1 = omega arith in
    rw (pages, page, second, alloc_stack, alloc_rest)
      (
        t.address,
        ap (λ x. bitmap_test p.bitmap ((x + page_size) / page_size)) t.address
            ∙ ap (bitmap_test p.bitmap) next
            ∙ taken,
      )
