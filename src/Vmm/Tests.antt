-- ===== src/Vmm/Tests.antt =====
-- Page tables at concrete addresses: a PML4 at 0x1000, a PDPT at 0x2000, a page directory at 0x3000 and
-- a page table at 0x4000, for the first 2 MB.
use micro_nt.Base.{
  ◌⊎◌, ℕ, suc, ◌<◌, ◌≡◌, refl, ap, true, false, inl, inr, arith, update, ◌==◌, Bool-cases,
}
use micro_nt.Pmm.{bitmap_test, free_page}
use micro_nt.Pmm.Alloc.{Inv, free_page-Inv, free_page_lem}
use micro_nt.Pmm.Boot.{all_reserved}
use micro_nt.Pmm.Tests.{full, full-Inv, three_free, first_of_three, second_of_three}
use micro_nt.Vmm.{
  get_or_alloc, Words, Vmm, slot, descends, is_present, is_huge, address, map_page_into,
  unmap_page_from, translate_in_pml4, create_user_pml4,
}
use micro_nt.Vmm.Entry.{IsFlags, zero_entry}
use micro_nt.Vmm.Walk.{Tables, IsTree}
use micro_nt.Vmm.Grow.{Space}
use micro_nt.Vmm.Page.{page}
use micro_nt.Vmm.Map.{Maps, map_page_into-Maps}
use micro_nt.Vmm.Edit.{map_unmap}
use micro_nt.Vmm.User.{Creates, create_user_pml4-Creates}

three_free-Inv : Inv three_free
three_free-Inv =
    free_page-Inv (free_page (free_page full 0x5000) 0x6000) 0x7000
      (free_page-Inv (free_page full 0x5000) 0x6000 (free_page-Inv full 0x5000 full-Inv))

low_taken : (i : ℕ) → i < 5 → bitmap_test three_free.bitmap i ≡ true
low_taken i lt = ground (
  arith,
  free_page_lem (free_page (free_page full 0x5000) 0x6000) 0x7000 i,
  free_page_lem (free_page full 0x5000) 0x6000 i,
  free_page_lem full 0x5000 i,
  all_reserved i,
)

abbrev pub words : Words
words =
    update (update (update (update (λ _. 0) 0x1000 0x2003) 0x2000 0x3003) 0x3000 0x4003) 0x4008
      0x9003

abbrev pub tables : Tables
tables = record {
  height = update (update (update (update (λ _. 0) 0x1000 4) 0x2000 3) 0x3000 2) 0x4000 1;
  owner = update (update (update (λ _. 0) 0x2000 0x1000) 0x3000 0x2000) 0x4000 0x3000;
}

abbrev pub start : Vmm
start = record {
  mem = words;
  pmm = three_free;
  pml4_phys = 0x1000;
  kvirt_next = 0xFFFFFF8000000000;
}

-- The slots that are not empty.
only_slots :
    (t k i : ℕ)
    → tables.height t ≡ suc (suc k)
    → i < 512
    → descends (words (slot t i)) ≡ true
    → ((slot t i ≡ 0x1000) × (k ≡ 2))
      ⊎ ((slot t i ≡ 0x2000) × (k ≡ 1))
      ⊎ ((slot t i ≡ 0x3000) × (k ≡ 0))
unfolding descends
only_slots t k i ht lt d = elim (Bool-cases (slot t i == 0x1000)) [
  | inl e ↦ inl (ground arith, ground arith)
  | inr n1 ↦ elim (Bool-cases (slot t i == 0x2000)) [
    | inl e ↦ inr (inl (ground arith, ground arith))
    | inr n2 ↦ elim (Bool-cases (slot t i == 0x3000)) [
      | inl e ↦ inr (inr (ground arith, ground arith))
      | inr n3 ↦
          let out : slot t i < 0x4000 = ground arith in
          let empty : words (slot t i) ≡ 0 = ground arith in
          absurd (ground (arith, d, ap is_present empty, zero_entry))
    ]
  ]
]

start-IsTree : IsTree tables words
unfolding descends is_present is_huge address
start-IsTree = record {
  aligned = λ t h. ground arith;
  low = λ t. ground arith;
  child = λ t k i ht lt d. elim (only_slots t k i ht lt d) [
    | inl (at, same) ↦ rw (at, same) (refl, refl)
    | inr (inl (at, same)) ↦ rw (at, same) (refl, refl)
    | inr (inr (at, same)) ↦ rw (at, same) (refl, refl)
  ];
}

pub start-Space : Space tables start
start-Space = record {
  tree = start-IsTree;
  inv = three_free-Inv;
  used = λ i h lt. low_taken i (ground arith);
}

IsFlags-6 : IsFlags 6
unfolding IsFlags
IsFlags-6 = refl

IsFlags-4 : IsFlags 4
unfolding IsFlags
IsFlags-4 = refl

pub small_root : is_huge (words 0x1000) ≡ false
unfolding is_huge
small_root = refl

map_page_into-Maps_example :
    Maps tables 0x1000 0x234000 0x88000 6 start (map_page_into 0x1000 0x234000 0x88000 6 start)
map_page_into-Maps_example =
    map_page_into-Maps tables 0x1000 0x234000 0x88000 6 start start-Space refl IsFlags-6

map_done : (map_page_into 0x1000 0x5000 0x88000 6 start).0 ≡ true
unfolding map_page_into get_or_alloc is_present is_huge address
map_done = refl

map_unmap_example :
    translate_in_pml4 0x1000 0x5123
      (unmap_page_from 0x1000 0x5000 (map_page_into 0x1000 0x5000 0x88000 6 start).1)
    ≡ 0
unfolding page
map_unmap_example =
    map_unmap tables 0x1000 0x5000 0x88000 6 start start-Space refl IsFlags-6 map_done 0x5123

create_user_pml4-Creates_example : Creates start (create_user_pml4 start)
create_user_pml4-Creates_example = create_user_pml4-Creates tables start start-Space refl small_root

pub new_root : (create_user_pml4 start).0 ≡ 0x5000
unfolding create_user_pml4
new_root = rw (first_of_three, second_of_three) refl
