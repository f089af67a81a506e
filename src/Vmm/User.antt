-- ===== src/Vmm/User.antt =====
-- CreateUserPml4: the address space of a new process.
mod Pages
use micro_nt.Base.{
  ltb, ℕ, zero, suc, ◌+◌, ◌*◌, ◌/◌, ◌%◌, ◌^◌, ◌≤◌, ◌<◌, ◌≡◌, refl, sym, ap, subst, ◌∙◌, ◌≢◌, inl,
  inr, Bool, true, false, not, ◌&&◌, ◌==◌, if◌then◌else◌, arith, update, update_self, update_ne,
  Bool-cases, bit_or, ◌⊎◌,
}
use micro_nt.Ntdef.{page_size}
use micro_nt.Pmm.{Pmm, free_page, alloc_page, bitmap_test, max_pages}
use micro_nt.Pmm.Alloc.{Inv, Allocates, exhausted, reserved, alloc_page-Allocates, alloc_page-Inv}
use micro_nt.Vmm.{
  pte_user, Words, Vmm, slot, is_present, is_huge, address, descends, zero_words, share_entries,
  copy_words, user_tables, create_user_pml4, translate_in_pml4,
}
use micro_nt.Vmm.Entry.{table_entry, table_entry_lem, zero_entry}
use micro_nt.Vmm.Walk.{
  Tables, IsTree, index, index_lt, translate, translate-into, translate-entry, translate-agree,
  slot-eq,
}
use micro_nt.Vmm.Grow.{Space}
use micro_nt.Vmm.Alloc.{fresh_page}
use micro_nt.Vmm.Zero.{zero_words_in, zero_words_out}
use micro_nt.Vmm.Page.{translate_in_pml4-translate}
use micro_nt.Vmm.User.Pages.{shared_kept, final_kept, translate-final}

-- How CreateUserPml4 ends.
pub data Creates (s : Vmm) : ℕ × Vmm → Type 0 where
  refused :
      (q : Vmm)
      → ((v : ℕ) → translate_in_pml4 s.pml4_phys v q ≡ translate_in_pml4 s.pml4_phys v s)
      → Creates s (0, q)
  created :
      (new : ℕ) (q : Vmm)
      → new ≢ 0
      → ((v : ℕ) → translate_in_pml4 s.pml4_phys v q ≡ translate_in_pml4 s.pml4_phys v s)
      → ((v : ℕ)
          → v < 2 ^ 39
          → translate_in_pml4 new v q
            ≡ (if ltb v (2 ^ 32) then translate_in_pml4 s.pml4_phys v s else 0))
      → Creates s (new, q)

module _ (ts : Tables) (s : Vmm) (space : Space ts s) (top : ts.height s.pml4_phys ≡ 4)
    (flat : is_huge (s.mem (slot s.pml4_phys 0)) ≡ false) where
  kept_by :
      (q : Vmm)
      → ((v : ℕ) → translate 3 s.pml4_phys v q.mem ≡ translate 3 s.pml4_phys v s.mem)
      → (v : ℕ) → translate_in_pml4 s.pml4_phys v q ≡ translate_in_pml4 s.pml4_phys v s
  kept_by q kept v =
      translate_in_pml4-translate s.pml4_phys v q
      ∙ kept v
      ∙ sym (translate_in_pml4-translate s.pml4_phys v s)

  -- There is no second page; the first goes back.
  taken_back :
      (p : Pmm) (n : ℕ)
      → n < max_pages
      → bitmap_test s.pmm.bitmap n ≡ false
      → Creates s (
        0,
        record s {
          pmm = p;
          mem =
              share_entries 511 1 s.pml4_phys
                (n * page_size)
                (zero_words 512 (n * page_size) s.mem);
        },
      )
  taken_back p n small free = refused _ (
      kept_by _ (λ v.
        shared_kept ts s.mem s.pml4_phys (n * page_size) space.tree
          (fresh_page ts s space n small free) (omega arith) v top))

  -- Both pages are there.
  both_given :
      (p : Pmm) (n n' : ℕ)
      → n < max_pages
      → n' < max_pages
      → bitmap_test s.pmm.bitmap n ≡ false
      → bitmap_test s.pmm.bitmap n' ≡ false
      → n ≢ n'
      → (n * page_size == 0) ≡ false
      → Creates s (
        n * page_size,
        record s {
          pmm = p;
          mem = user_tables s.pml4_phys (n * page_size) (n' * page_size) (
              share_entries 511 1 s.pml4_phys
                (n * page_size)
                (zero_words 512 (n * page_size) s.mem));
        },
      )
  both_given p n n' small small' free free' ne page =
      let a : ℕ = n * page_size in
      let b : ℕ = n' * page_size in
      let fa : ts.height a ≡ 0 = fresh_page ts s space n small free in
      let fb : ts.height b ≡ 0 = fresh_page ts s space n' small' free' in
      let aa : a % 4096 ≡ 0 = omega arith in
      let ab : b % 4096 ≡ 0 = omega arith in
      let lo : b < 2 ^ 52 = omega (arith, small') in
      let apart' : a ≢ b = λ e. ne (omega (arith, e)) in
      let q : Vmm = record s {
        pmm = p;
        mem =
            user_tables s.pml4_phys a b
              (share_entries 511 1 s.pml4_phys a (zero_words 512 a s.mem));
      } in
      created a q (λ e. ground (arith, page))
        (kept_by q (final_kept ts s.mem s.pml4_phys a b space.tree top fa fb aa ab lo apart'))
        (λ v lt.
          translate_in_pml4-translate a v q
          ∙ translate-final ts s.mem s.pml4_phys a b space.tree top fa fb aa ab lo apart' flat v lt
          ∙ ap (λ x. if ltb v (2 ^ 32) then x else 0)
              (sym (translate_in_pml4-translate s.pml4_phys v s)))

  -- The two pages that AllocPage gives.
  with_pages :
      (r1 r2 : ℕ × Pmm)
      → Allocates s.pmm r1
      → Inv r1.1
      → Allocates r1.1 r2
      → Creates s (
          let shared' = share_entries 511 1 s.pml4_phys r1.0 (zero_words 512 r1.0 s.mem) in
          if r1.0 == 0
          then (0, record s { pmm = r1.1 })
          else if r2.0 == 0
          then (0, record s { pmm = free_page r2.1 r1.0; mem = shared' })
          else (r1.0, record s { pmm = r2.1; mem = user_tables s.pml4_phys r1.0 r2.0 shared' }))
  with_pages _ r2 (exhausted full) inv a2 = refused s (λ v. refl)
  with_pages _ _ (reserved n q small free lowest taken others counted) inv (exhausted full) =
      elim (Bool-cases (n * page_size == 0)) [
        | inl null ↦ rw null (refused _ (kept_by (record s { pmm = q }) (λ v. refl)))
        | inr page ↦ rw page (taken_back (free_page q (n * page_size)) n small free)
      ]
  with_pages _ _ (reserved n q small free lowest taken others counted) inv
        (reserved n' q' small' free' lowest' taken' others' counted') =
      let ne : n' ≢ n = λ e. absurd (ground (arith, taken, free', ap (bitmap_test q.bitmap) e)) in
      elim (Bool-cases (n * page_size == 0)) [
        | inl null ↦ rw null (refused _ (kept_by (record s { pmm = q }) (λ v. refl)))
        | inr page ↦ elim (Bool-cases (n' * page_size == 0)) [
          | inl null' ↦ rw (page, null') (taken_back (free_page q' (n * page_size)) n small free)
          | inr page' ↦
              rw (page, page')
                (both_given q' n n' small small' free (sym (others n' ne) ∙ free') (λ e. ne (sym e))
                  page)
        ]
      ]

-- If the kernel's tables form a tree whose pages the allocator does not hold free, the
-- allocator's counter and hint are right, and the kernel's first entry has no PS bit,
-- CreateUserPml4 either fails, with 0, or returns a new root from which an address below 4 GB
-- translates as in the kernel's tables and any other address below 512 GB is not translated. In
-- both cases the kernel's tables translate every address as before.
pub create_user_pml4-Creates :
    (ts : Tables) (s : Vmm)
    → Space ts s
    → ts.height s.pml4_phys ≡ 4
    → is_huge (s.mem (slot s.pml4_phys 0)) ≡ false
    → Creates s (create_user_pml4 s)
unfolding create_user_pml4
create_user_pml4-Creates ts s space top flat =
    let inv = alloc_page-Inv s.pmm space.inv in
    with_pages ts s space top flat (alloc_page s.pmm) (alloc_page (alloc_page s.pmm).1)
      (alloc_page-Allocates s.pmm space.inv) inv (alloc_page-Allocates (alloc_page s.pmm).1 inv)
