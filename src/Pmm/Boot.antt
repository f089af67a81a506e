-- ===== src/Pmm/Boot.antt =====
-- PMM::Init: which pages are free once the firmware's memory map is read.
use micro_nt.Base.{
  ℕ, zero, suc, ◌+◌, ◌-◌, ◌*◌, ◌/◌, ◌%◌, ◌^◌, ◌≤◌, ◌<◌, ◌≡◌, refl, ap, ◌∙◌, Bool, true, false, some,
  ◌==◌, ◌&&◌, ◌||◌, not, if◌then◌else◌, leb, ltb, arith, List, [], ◌∷◌, eq→==,
}
use micro_nt.BootInfo.{BootInfo, BootMemoryEntry, bootinfo_magic, is_available}
use micro_nt.Ntdef.{page_size, word_mod, align_up, align_down}
use micro_nt.Ntdef.Laws.{align_up_lem, align_down_lem}
use micro_nt.Pmm.{
  Pmm, max_pages, bitmap_bytes, low_pages, bitmap_test, reserve, mark_page, mark_range, mark_entry,
  mark_entries, reserve_span, reserve_low, init,
}
use micro_nt.Pmm.Bitmap.{test-clear}
use micro_nt.Pmm.Run.{test-reserve}

test-mark_page :
    (b : Bool) (page : ℕ) (p : Pmm) (j : ℕ)
    → bitmap_test (mark_page b page p).bitmap j
      ≡ (if b && page == j then false else bitmap_test p.bitmap j)
unfolding mark_page
test-mark_page true page p j = test-clear p.bitmap page j
test-mark_page false page p j = refl

-- The pages of `[first, first + n)` are released, if the entry is available.
test-mark_range :
    (n first addr : ℕ) (b : Bool) (p : Pmm) (j : ℕ)
    → addr ≡ first * page_size
    → j < max_pages
    → bitmap_test (mark_range n addr b p).bitmap j
      ≡ (if b && leb first j && ltb j (first + n) then false else bitmap_test p.bitmap j)
unfolding mark_range
test-mark_range zero first addr b p j e hj = ground arith
test-mark_range (suc n) first addr b p j e hj =
    let page : addr / page_size ≡ first = omega arith in
    rw page (
      ground (
        arith,
        test-mark_page b first p j,
        test-mark_range n (suc first) (addr + page_size) b (mark_page b first p) j (omega arith) hj,
      ))

-- An entry of the map lies within the address space, with a page to spare.
abbrev pub Fits : BootMemoryEntry → Type 0
Fits e = e.base + e.length + page_size ≤ word_mod

abbrev pub AllFit : List BootMemoryEntry → Type 0
AllFit [] = Unit {0}
AllFit (e ∷ es) = Fits e × AllFit es

-- The whole page lies in the entry, and the entry is available.
abbrev pub covers : BootMemoryEntry → ℕ → Bool
covers e j =
    is_available e.type
    && leb e.base (j * page_size)
    && leb (j * page_size + page_size) (e.base + e.length)

abbrev pub is_covered : List BootMemoryEntry → ℕ → Bool
is_covered [] j = false
is_covered (e ∷ es) j = covers e j || is_covered es j

test-mark_entry :
    (e : BootMemoryEntry) (p : Pmm) (j : ℕ)
    → Fits e
    → j < max_pages
    → bitmap_test (mark_entry e p).bitmap j ≡ (if covers e j then false else bitmap_test p.bitmap j)
unfolding mark_entry
test-mark_entry e p j fits hj =
    let up : align_up e.base page_size ≡ (e.base + 4095) / 4096 * 4096 =
      align_up_lem 12 (omega arith) e.base (omega arith) ∙ omega arith in
    let down : align_down ((e.base + e.length) % word_mod) page_size
        ≡ (e.base + e.length) / 4096 * 4096 =
      align_down_lem 12 (omega arith) _ (omega arith) ∙ omega arith in
    rw (up, down, mark_entry)
      (ground (
        arith,
        test-mark_range
            (((e.base + e.length) / 4096 * 4096 - (e.base + 4095) / 4096 * 4096) / page_size)
            ((e.base + 4095) / 4096) ((e.base + 4095) / 4096 * 4096) (is_available e.type) p j refl
            hj,
      ))

test-mark_entries :
    (es : List BootMemoryEntry) (p : Pmm) (j : ℕ)
    → AllFit es
    → j < max_pages
    → bitmap_test (mark_entries es p).bitmap j
      ≡ (if is_covered es j then false else bitmap_test p.bitmap j)
unfolding mark_entries
test-mark_entries [] p j fit hj = refl
test-mark_entries (e ∷ es) p j fit hj =
    ground (arith, test-mark_entry e p j fit.0 hj, test-mark_entries es (mark_entry e p) j fit.1 hj)

test-reserve_span :
    (n first addr : ℕ) (p : Pmm) (j : ℕ)
    → addr ≡ first * page_size
    → j < max_pages
    → bitmap_test (reserve_span n addr p).bitmap j
      ≡ (if leb first j && ltb j (first + n) then true else bitmap_test p.bitmap j)
unfolding reserve_span
test-reserve_span zero first addr p j e hj = ground arith
test-reserve_span (suc n) first addr p j e hj =
    let page : addr / page_size ≡ first = omega arith in
    let p' =
      if ltb first max_pages && not (bitmap_test p.bitmap first) then reserve p first else p in
    rw (page, reserve_span)
      (ground (
        arith,
        test-reserve p first j,
        test-reserve_span n (suc first) (addr + page_size) p' j (omega arith) hj,
      ))

test-reserve_low :
    (n first : ℕ) (p : Pmm) (j : ℕ)
    → bitmap_test (reserve_low n first p).bitmap j
      ≡ (if leb first j && ltb j (first + n) then true else bitmap_test p.bitmap j)
unfolding reserve_low
test-reserve_low zero first p j = ground arith
test-reserve_low (suc n) first p j =
    let p' = if not (bitmap_test p.bitmap first) then reserve p first else p in
    ground (arith, test-reserve p first j, test-reserve_low n (suc first) p' j)

-- A page that holds a part of the bitmap.
abbrev pub holds_bitmap : ℕ → ℕ → Bool
holds_bitmap bm_start j =
    leb (bm_start / page_size) j && ltb (j * page_size) (bm_start + bitmap_bytes)

ones : (k : ℕ) → k < 8 → 255 / 2 ^ k % 2 ≡ 1
ones zero h = refl
ones (suc zero) h = refl
ones (suc (suc zero)) h = refl
ones (suc (suc (suc zero))) h = refl
ones (suc (suc (suc (suc zero)))) h = refl
ones (suc (suc (suc (suc (suc zero))))) h = refl
ones (suc (suc (suc (suc (suc (suc zero)))))) h = refl
ones (suc (suc (suc (suc (suc (suc (suc zero))))))) h = refl
ones (suc (suc (suc (suc (suc (suc (suc (suc k)))))))) h = absurd (omega arith)

pub all_reserved : (j : ℕ) → bitmap_test (λ _. 255) j ≡ true
unfolding bitmap_test
all_reserved j = ground (arith, ones (j % 8))

-- With valid boot information, whose entries end below 2^64 with a page to spare, Init leaves a
-- page below 8 GB free exactly when an available entry covers the whole page, it holds no part of
-- the bitmap, and it lies above the first 2 MB.
pub init-pages :
    (bm_start : ℕ) (bi : BootInfo) (p : Pmm) (j : ℕ)
    → bi.magic ≡ bootinfo_magic
    → AllFit bi.memory_map
    → bm_start + bitmap_bytes + page_size ≤ word_mod
    → j < max_pages
    → bitmap_test (init bm_start (some bi) p).bitmap j
      ≡ not (is_covered bi.memory_map j && not (holds_bitmap bm_start j) && leb low_pages j)
unfolding init
init-pages bm_start bi p j magic fit room hj =
    let first : align_down bm_start page_size ≡ bm_start / 4096 * 4096 =
      align_down_lem 12 (omega arith) _ (omega arith) ∙ omega arith in
    let last : align_up ((bm_start + bitmap_bytes) % word_mod) page_size
        ≡ (bm_start + bitmap_bytes + 4095) / 4096 * 4096 =
      ap (λ (t : ℕ). align_up t page_size) {y = bm_start + bitmap_bytes} (omega arith)
      ∙ align_up_lem 12 (omega arith) _ (omega arith)
      ∙ omega arith in
    let blank = record p { bitmap = λ _. 255 } in
    let marked = mark_entries bi.memory_map blank in
    let rounds =
      ((bm_start + bitmap_bytes + 4095) / 4096 * 4096 - bm_start / 4096 * 4096) / page_size in
    rw (first, last, eq→== _ _ magic, init)
      (ground (
        arith,
        all_reserved j,
        test-mark_entries bi.memory_map blank j fit hj,
        test-reserve_span rounds (bm_start / 4096) (bm_start / 4096 * 4096) marked j refl hj,
        test-reserve_low low_pages 0 (reserve_span rounds (bm_start / 4096 * 4096) marked) j,
      ))
