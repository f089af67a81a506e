-- ===== src/Pmm.antt =====
-- kernel/mm/physical_memory.cpp: the bitmap of physical pages, one bit for each 4 KB page.
-- The bitmap is a function from its byte indices; the counters are 64-bit words.
pub mod Bitmap
pub mod Count
pub mod Alloc
pub mod Run
pub mod Boot
pub mod Tests
use micro_nt.Base.{
  ℕ, zero, suc, ◌+◌, ◌-◌, ◌*◌, ◌/◌, ◌%◌, ◌^◌, bit_and, bit_or, Bool, true, false, not, ◌&&◌, ◌||◌,
  Option, none, some, List, [], ◌∷◌, ltb, leb, ◌==◌, if◌then◌else◌, update,
}
use micro_nt.BootInfo.{BootInfo, BootMemoryEntry, bootinfo_magic, is_available}
use micro_nt.Ntdef.{page_size, word_mod, align_up, align_down}

-- 8 GB of pages.
abbrev pub max_pages : ℕ
max_pages = 2097152

abbrev pub bitmap_bytes : ℕ
bitmap_bytes = 262144

abbrev pub Bitmap : Type 0
Bitmap = ℕ → ℕ

pub record Pmm : Type 0 where
  pub bitmap : Bitmap
  pub total_pages : ℕ
  pub free_pages : ℕ
  pub search_hint : ℕ

-- `page & 7` is `page % 8`, and `(u8)~(1u << b)` is `255 - 2 ^ b`.
pub bitmap_set : Bitmap → ℕ → Bitmap
bitmap_set bm page = update bm (page / 8) (bit_or (bm (page / 8)) (2 ^ (page % 8)))

pub bitmap_clear : Bitmap → ℕ → Bitmap
bitmap_clear bm page = update bm (page / 8) (bit_and (bm (page / 8)) (255 - 2 ^ (page % 8)))

pub bitmap_test : Bitmap → ℕ → Bool
bitmap_test bm page = bm (page / 8) / 2 ^ (page % 8) % 2 == 1

-- BitmapSet(i); if (s_free_pages) --s_free_pages;
pub reserve : Pmm → ℕ → Pmm
reserve p i = record p { bitmap = bitmap_set p.bitmap i; free_pages = p.free_pages - 1 }

-- The search loop of AllocPage: the first clear bit of the `rounds` from `i` on.
first_free : ℕ → ℕ → Bitmap → Option ℕ
first_free zero i bm = none
first_free (suc rounds) i bm = elim (bitmap_test bm i) [
  | true ↦ first_free rounds (suc i) bm
  | false ↦ some i
]

pub alloc_page : Pmm → ℕ × Pmm
unfolding reserve
alloc_page p = elim (first_free (max_pages - p.search_hint) p.search_hint p.bitmap) [
  | none ↦ (0, p)
  | some i ↦ (i * page_size, record (reserve p i) { search_hint = i + 1 })
]

pub free_page : Pmm → ℕ → Pmm
free_page p phys_addr =
    let page = phys_addr / page_size in
    if leb max_pages page || not (bitmap_test p.bitmap page) then p else record p {
      bitmap = bitmap_clear p.bitmap page;
      free_pages = (p.free_pages + 1) % word_mod;
      search_hint = if ltb page p.search_hint then page else p.search_hint;
    }

-- The search loop of AllocPages: the first page of a run of `count` clear bits.
find_run : ℕ → ℕ → ℕ → ℕ → Bitmap → Option ℕ
find_run zero i run count bm = none
find_run (suc rounds) i run count bm = elim (bitmap_test bm i) [
  | true ↦ find_run rounds (suc i) 0 count bm
  | false ↦ elim (run + 1 == count) [
    | true ↦ some (i + 1 - count)
    | false ↦ find_run rounds (suc i) (run + 1) count bm
  ]
]

-- for (j = start; j <= i; ++j) reserve j
reserve_run : ℕ → ℕ → Pmm → Pmm
unfolding reserve
reserve_run zero j p = p
reserve_run (suc n) j p = reserve_run n (suc j) (reserve p j)

pub alloc_pages : Pmm → ℕ → ℕ × Pmm
alloc_pages p count = if count == 0 then (0, p) else elim (find_run max_pages 0 0 count p.bitmap) [
  | none ↦ (0, p)
  | some start ↦ (start * page_size, reserve_run count start p)
]

-- One round of the walk over an entry of the memory map.
mark_page : Bool → ℕ → Pmm → Pmm
mark_page true page p = record p {
  bitmap = bitmap_clear p.bitmap page;
  free_pages = (p.free_pages + 1) % word_mod;
  total_pages = (p.total_pages + 1) % word_mod;
}
mark_page false page p = record p { total_pages = (p.total_pages + 1) % word_mod }

-- for (addr = base; addr < end; addr += PAGE_SIZE), left at MAX_PAGES
mark_range : ℕ → ℕ → Bool → Pmm → Pmm
mark_range zero addr is_free p = p
mark_range (suc rounds) addr is_free p =
    let rest =
      mark_range rounds (addr + page_size) is_free (mark_page is_free (addr / page_size) p) in
    if leb max_pages (addr / page_size) then p else rest

mark_entry : BootMemoryEntry → Pmm → Pmm
mark_entry e p =
    let base = align_up e.base page_size in
    let end = align_down ((e.base + e.length) % word_mod) page_size in
    if leb end base then p else mark_range ((end - base) / page_size) base (is_available e.type) p

mark_entries : List BootMemoryEntry → Pmm → Pmm
mark_entries [] p = p
mark_entries (e ∷ es) p = mark_entries es (mark_entry e p)

-- The pages that hold the bitmap, from `addr` on.
reserve_span : ℕ → ℕ → Pmm → Pmm
reserve_span zero addr p = p
reserve_span (suc rounds) addr p =
    let page = addr / page_size in
    reserve_span rounds (addr + page_size)
      (if ltb page max_pages && not (bitmap_test p.bitmap page) then reserve p page else p)

-- The first 2 MB.
reserve_low : ℕ → ℕ → Pmm → Pmm
reserve_low zero page p = p
reserve_low (suc rounds) page p =
    reserve_low rounds (suc page) (if not (bitmap_test p.bitmap page) then reserve p page else p)

abbrev pub low_pages : ℕ
low_pages = 512

-- PMM::Init; `bm_start` is the address at which the bitmap is linked.
pub init : ℕ → Option BootInfo → Pmm → Pmm
init bm_start none p = record p { bitmap = λ _. 255 }
init bm_start (some bi) p =
    let blank = record p { bitmap = λ _. 255 } in
    let marked = mark_entries bi.memory_map blank in
    let first = align_down bm_start page_size in
    let last = align_up ((bm_start + bitmap_bytes) % word_mod) page_size in
    if bi.magic == bootinfo_magic
    then reserve_low low_pages 0 (reserve_span ((last - first) / page_size) first marked)
    else blank

used_pages : Pmm → ℕ
used_pages p = (p.total_pages + word_mod - p.free_pages) % word_mod
