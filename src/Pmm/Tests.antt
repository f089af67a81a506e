-- ===== src/Pmm/Tests.antt =====
-- The page allocator on a machine with one or two free pages.
use micro_nt.Base.{ℕ, zero, suc, ◌≡◌, refl, false, some, [], ◌∷◌, arith}
use micro_nt.BootInfo.{BootInfo, bootinfo_magic, available}
use micro_nt.Pmm.{
  first_free, bitmap_clear, bitmap_set, reserve, Pmm, max_pages, bitmap_test, alloc_page, free_page,
  alloc_pages, init,
}
use micro_nt.Pmm.Count.{count_free}
use micro_nt.Pmm.Alloc.{Inv, Allocates, alloc_page-Allocates, free_page-Inv}
use micro_nt.Pmm.Run.{AllocatesRun, alloc_pages-AllocatesRun}
use micro_nt.Pmm.Boot.{all_reserved, init-pages}

-- Every page is in use.
abbrev pub full : Pmm
full = record { bitmap = λ _. 255; total_pages = 4096; free_pages = 0; search_hint = 0 }

none_free : (n : ℕ) → count_free (λ _. 255) n ≡ 0
unfolding count_free
none_free zero = refl
none_free (suc n) = ground (arith, none_free n, all_reserved n)

pub full-Inv : Inv full
full-Inv = record {
  counted = omega (arith, none_free max_pages);
  hint_in = omega arith;
  hint_ok = λ k lo hi. absurd (omega (arith, hi));
}

abbrev two_free : Pmm
two_free = free_page (free_page full 0x5000) 0x6000

two_free-Inv : Inv two_free
two_free-Inv = free_page-Inv (free_page full 0x5000) 0x6000 (free_page-Inv full 0x5000 full-Inv)

alloc_page-Allocates_example : Allocates two_free (alloc_page two_free)
alloc_page-Allocates_example = alloc_page-Allocates two_free two_free-Inv

alloc_pages-AllocatesRun_example :
    AllocatesRun two_free 2 (alloc_pages two_free 2) × Inv (alloc_pages two_free 2).1
alloc_pages-AllocatesRun_example = alloc_pages-AllocatesRun two_free 2 two_free-Inv

-- 16 MB of memory from 0.
abbrev boot_info : BootInfo
boot_info = record {
  magic = bootinfo_magic;
  memory_map = record { base = 0; length = 0x1000000; type = available } ∷ [];
  boot_files = [];
  efi_runtime_va = 0;
}

init-pages_example : bitmap_test (init 0x200000 (some boot_info) full).bitmap 4000 ≡ false
init-pages_example =
    init-pages 0x200000 boot_info full 4000 refl (omega arith, _) (omega arith) (omega arith)

abbrev pub three_free : Pmm
three_free = free_page (free_page (free_page full 0x5000) 0x6000) 0x7000

pub first_of_three : (alloc_page three_free).0 ≡ 0x5000
unfolding alloc_page first_free bitmap_test free_page bitmap_clear bitmap_set reserve
first_of_three = refl

pub second_of_three : (alloc_page (alloc_page three_free).1).0 ≡ 0x6000
unfolding alloc_page first_free bitmap_test free_page bitmap_clear bitmap_set reserve
second_of_three = refl
