-- ===== src/Vmm/Alloc.antt =====
-- get_or_alloc: the table it adds is empty, and no address comes to translate otherwise.
use micro_nt.Base.{
  ℕ, suc, ◌*◌, ◌<◌, ◌≡◌, refl, ◌∙◌, ◌≢◌, inl, inr, true, false, ◌==◌, if◌then◌else◌, arith, update,
  update_ne, Bool-cases,
}
use micro_nt.Ntdef.{page_size}
use micro_nt.Pmm.{Pmm, alloc_page, bitmap_test, max_pages}
use micro_nt.Pmm.Alloc.{Inv, Allocates, exhausted, reserved, alloc_page-Allocates, alloc_page-Inv}
use micro_nt.Vmm.{Vmm, slot, is_present, is_huge, address, descends, zero_words, get_or_alloc}
use micro_nt.Vmm.Entry.{table_entry}
use micro_nt.Vmm.Walk.{Tables}
use micro_nt.Vmm.Grow.{Space, Step, grown-Step}

-- A free page holds no table.
pub fresh_page :
    (ts : Tables) (s : Vmm)
    → Space ts s
    → (n : ℕ) → n < max_pages
    → bitmap_test s.pmm.bitmap n ≡ false
    → ts.height (n * page_size) ≡ 0
fresh_page ts s space n small free = elim (Bool-cases (ts.height (n * page_size) == 0)) [
  | inl none_there ↦ ground arith
  | inr there ↦ absurd (ground (arith, free, space.used n (λ e. ground arith) small))
]

module _ (ts : Tables) (s : Vmm) (space : Space ts s) (t k i : ℕ) where
  -- Nothing is written.
  idle :
      (r : ℕ) (p : Pmm)
      → Inv p
      → ((x : ℕ) → ts.height (x * page_size) ≢ 0 → x < max_pages → bitmap_test p.bitmap x ≡ true)
      → (r ≢ 0 → (descends (s.mem (slot t i)) ≡ true) × (address (s.mem (slot t i)) ≡ r))
      → Step ts s t k i (r, record s { pmm = p })
  idle r p inv used child = record {
    tables = ts;
    space = record { tree = space.tree; inv = inv; used = used };
    grows = λ u j h. h;
    kept = λ u j v h. refl;
    stays = λ u j x h lx d. refl;
    child = child;
  }

  module _ (ht : ts.height t ≡ suc (suc k)) (lt : i < 512) where
    -- The page that AllocPage gives.
    allocated :
        (r : ℕ × Pmm)
        → Allocates s.pmm r
        → Inv r.1
        → is_present (s.mem (slot t i)) ≡ false
        → Step ts s t k i (
            if r.0 == 0 then (0, record s { pmm = r.1 }) else (
              r.0,
              record s {
                pmm = r.1;
                mem = update (zero_words 512 r.0 s.mem) (slot t i) (table_entry r.0);
              },
            ))
    allocated _ (exhausted full) inv absent = idle 0 s.pmm inv space.used (λ ne. absurd (ne refl))
    allocated _ (reserved n q small free lowest taken others counted) inv absent =
        elim (Bool-cases (n * page_size == 0)) [
          | inl null ↦ rw null (
              idle 0 q inv
                (λ x h lx. elim (Bool-cases (x == n)) [
                  | inl same ↦ let at : x ≡ n = ground arith in rw at taken
                  | inr other ↦ others x (λ e. ground arith) ∙ space.used x h lx
                ])
                (λ ne. absurd (ne refl)))
          | inr page ↦ rw page (
              grown-Step ts s t k i (n * page_size) space.tree ht lt absent
                (fresh_page ts s space n small free) (omega arith) (omega (arith, small)) q inv
                λ x h lx. elim (Bool-cases (x == n)) [
                  | inl same ↦ let at : x ≡ n = ground arith in rw at taken
                  | inr other ↦
                      others x (λ e. ground arith)
                      ∙ space.used x
                          (λ e. h (
                            update_ne ts.height (n * page_size) (x * page_size) (suc k)
                              (λ e'. ground arith)
                            ∙ e))
                          lx
                ])
        ]

    pub get_or_alloc-Step : Step ts s t k i (get_or_alloc (slot t i) true s)
    unfolding get_or_alloc descends
    get_or_alloc-Step = elim (Bool-cases (is_present (s.mem (slot t i)))) [
      | inl present ↦ elim (Bool-cases (is_huge (s.mem (slot t i)))) [
        | inl large ↦
            rw (present, large) (idle 0 s.pmm space.inv space.used (λ ne. absurd (ne refl)))
        | inr small ↦
            rw (present, small)
              (idle (address (s.mem (slot t i))) s.pmm space.inv space.used
                (λ _. (ground (arith, present, small), refl)))
      ]
      | inr absent ↦ rw absent (
          allocated (alloc_page s.pmm) (alloc_page-Allocates s.pmm space.inv)
            (alloc_page-Inv s.pmm space.inv) absent)
    ]
