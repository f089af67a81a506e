-- ===== src/Vmm/Edit.antt =====
-- UnmapPageFrom, ProtectPageInto and GetPteInto, at the page table entry that a walk ends at.
use micro_nt.Base.{
  not, Bool, ◌&&◌, ℕ, ◌+◌, ◌%◌, ◌≡◌, refl, sym, ap, subst, ◌∙◌, ◌≢◌, inl, inr, true, false, none,
  some, ◌==◌, if◌then◌else◌, arith, update, update_self, Bool-cases, Option-cases,
}
use micro_nt.Vmm.{
  map_page_into, Vmm, slot, is_present, is_huge, address, descends, make_pte, unmap_page_from,
  unmap_page, protect_page_into, get_pte_into, translate_in_pml4, v2p, pml4_idx,
}
use micro_nt.Vmm.Entry.{IsFlags, make_pte_lem, zero_entry}
use micro_nt.Vmm.Walk.{Tables, IsTree, leaf, translate, translate-leaf}
use micro_nt.Vmm.Write.{leaf-In, leaf-update}
use micro_nt.Vmm.Grow.{Space}
use micro_nt.Vmm.Map.{map_page_into-Maps, Maps-Space, Maps-true}
use micro_nt.Vmm.Page.{
  entry_at, get_pte_into-leaf, page, in_4kb_lem, leaf-page, entry_written,
  translate_in_pml4-translate,
}

unmap_page_from-leaf :
    (root v : ℕ) (s : Vmm)
    → unmap_page_from root v s
      ≡ elim (leaf 3 root v s.mem) [ none ↦ s | some x ↦ record s { mem = update s.mem x 0 } ]
unfolding unmap_page_from leaf
unmap_page_from-leaf root v s = ground arith

protect_page_into-leaf :
    (root v flags : ℕ) (s : Vmm)
    → protect_page_into root v flags s ≡ elim (leaf 3 root v s.mem) [
      | none ↦ (false, s)
      | some x ↦
          if is_present (s.mem x)
          then (true, record s { mem = update s.mem x (make_pte (s.mem x) flags) })
          else (false, s)
    ]
unfolding protect_page_into leaf
protect_page_into-leaf root v flags s = ground arith

-- If the entry of an address in the kernel's PML4 has no PS bit, V2P gives what TranslateInPml4
-- gives in the kernel's tables.
pub v2p-translate_in_pml4 :
    (v : ℕ) (s : Vmm)
    → is_huge (s.mem (slot s.pml4_phys (pml4_idx v))) ≡ false
    → v2p v s ≡ translate_in_pml4 s.pml4_phys v s
unfolding v2p translate_in_pml4
v2p-translate_in_pml4 v s small = ground arith

pub unmap_page-unmap_page_from :
    (v : ℕ) (s : Vmm)
    → is_huge (s.mem (slot s.pml4_phys (pml4_idx v))) ≡ false
    → unmap_page v s ≡ unmap_page_from s.pml4_phys v s
unfolding unmap_page unmap_page_from descends
unmap_page-unmap_page_from v s small = ground arith

-- What an entry makes of the addresses of its page.
entry_translates :
    (root virt x v : ℕ) (s : Vmm)
    → leaf 3 root virt s.mem ≡ some x
    → page v ≡ page virt
    → translate_in_pml4 root v s
      ≡ (if is_present (s.mem x) then address (s.mem x) + v % 4096 else 0)
entry_translates root virt x v s at same =
    translate_in_pml4-translate root v s
    ∙ translate-leaf 3 root v x s.mem (leaf-page root v virt s.mem same ∙ at)
    ∙ ap (λ a. if is_present (s.mem x) then a else 0) (in_4kb_lem (s.mem x) v)

module _ (ts : Tables) (root : ℕ) (s : Vmm) (tree : IsTree ts s.mem)
    (top : ts.height root ≡ 4) where
  -- What a write of the entry of `virt` does, in the words of TranslateInPml4 and GetPteInto.
  pub written_entry :
      (virt x w : ℕ) (q : Vmm)
      → leaf 3 root virt s.mem ≡ some x
      → q.mem ≡ update s.mem x w
      → (get_pte_into root virt q ≡ w)
        × ((v : ℕ)
            → page v ≡ page virt
            → translate_in_pml4 root v q ≡ (if is_present w then address w + v % 4096 else 0))
        × ((v : ℕ) → page v ≢ page virt → translate_in_pml4 root v q ≡ translate_in_pml4 root v s)
        × IsTree ts q.mem
  unfolding entry_at
  written_entry virt x w q at e =
      let (here, others, kept) = entry_written ts root s tree top virt x w at in
      let inside = leaf-In ts s.mem 3 root virt x tree top at in
      let still : leaf 3 root virt q.mem ≡ some x =
        ap (leaf 3 root virt) e ∙ leaf-update ts s.mem x w tree inside 3 root virt top ∙ at in
      (
        get_pte_into-leaf root virt q
            ∙ ap (λ o. entry_at o q.mem) still
            ∙ ap (λ m. m x) e
            ∙ update_self s.mem x w,
        λ v same. translate_in_pml4-translate root v q ∙ ap (translate 3 root v) e ∙ here v same,
        λ v other.
            translate_in_pml4-translate root v q
            ∙ ap (translate 3 root v) e
            ∙ others v other
            ∙ sym (translate_in_pml4-translate root v s),
        subst (IsTree ts) (sym e) kept,
      )

  -- If the tables of the root form a tree, GetPteInto gives 0 for the address after
  -- UnmapPageFrom; TranslateInPml4 gives 0 for each address of its page if the page had an
  -- entry other than 0, and what it gave before for every other address, and for every address
  -- if there was no such entry. The tables form a tree after the call too.
  pub unmap_page_from_lem :
      (virt : ℕ)
      → (get_pte_into root virt (unmap_page_from root virt s) ≡ 0)
        × ((v : ℕ)
            → translate_in_pml4 root v (unmap_page_from root virt s) ≡ (
                if page v == page virt && not (get_pte_into root virt s == 0)
                then 0
                else translate_in_pml4 root v s))
        × IsTree ts (unmap_page_from root virt s).mem
  unfolding entry_at
  unmap_page_from_lem virt = elim (Option-cases (leaf 3 root virt s.mem)) [
    | inl e ↦
        let pte : get_pte_into root virt s ≡ 0 = get_pte_into-leaf root virt s ∙ rw e refl in
        rw (unmap_page_from-leaf root virt s, e, pte) (refl, λ v. ground arith, tree)
    | inr (x, e) ↦
        let pte : get_pte_into root virt s ≡ s.mem x = get_pte_into-leaf root virt s ∙ rw e refl in
        let q : Vmm = record s { mem = update s.mem x 0 } in
        let (gone, here, others, kept) = written_entry virt x 0 q e refl in
        let cleared : (v : ℕ) → page v ≡ page virt → translate_in_pml4 root v q ≡ 0 =
          λ v same. here v same ∙ rw zero_entry refl in
        rw (unmap_page_from-leaf root virt s, e, pte)
          (
            gone,
            λ v. elim (Bool-cases (page v == page virt)) [
              | inr other ↦ rw other (others v (λ e. ground arith))
              | inl same ↦
                  let eq : page v ≡ page virt = ground arith in
                  rw same (
                    ground (arith, cleared v eq, entry_translates root virt x v s e eq, zero_entry))
            ],
            kept,
          )
  ]

  -- If the tables of the root form a tree and the flags leave the bits of the frame alone,
  -- ProtectPageInto succeeds exactly when GetPteInto gives a present entry; then it gives that
  -- entry's frame with the new flags, and otherwise what it gave before. TranslateInPml4 gives
  -- for every address what it gave before, and the tables form a tree.
  pub protect_page_into_lem :
      (virt flags : ℕ)
      → IsFlags flags
      → ((protect_page_into root virt flags s).0 ≡ is_present (get_pte_into root virt s))
        × ((v : ℕ)
            → translate_in_pml4 root v (protect_page_into root virt flags s).1
              ≡ translate_in_pml4 root v s)
        × (get_pte_into root virt (protect_page_into root virt flags s).1 ≡ (
            if is_present (get_pte_into root virt s)
            then make_pte (get_pte_into root virt s) flags
            else get_pte_into root virt s))
        × IsTree ts (protect_page_into root virt flags s).1.mem
  unfolding entry_at
  protect_page_into_lem virt flags ok = elim (Option-cases (leaf 3 root virt s.mem)) [
    | inl e ↦
        let pte : get_pte_into root virt s ≡ 0 = get_pte_into-leaf root virt s ∙ rw e refl in
        rw (protect_page_into-leaf root virt flags s, e, pte, zero_entry)
          (refl, λ v. refl, refl, tree)
    | inr (x, e) ↦
        let pte : get_pte_into root virt s ≡ s.mem x = get_pte_into-leaf root virt s ∙ rw e refl in
        elim (Bool-cases (is_present (s.mem x))) [
          | inr off ↦
              rw (protect_page_into-leaf root virt flags s, e, pte, off)
                (refl, λ v. refl, pte, tree)
          | inl on ↦
              let w : ℕ = make_pte (s.mem x) flags in
              let q : Vmm = record s { mem = update s.mem x w } in
              let (now, here, others, kept) = written_entry virt x w q e refl in
              let (on', frame) = make_pte_lem (s.mem x) flags ok in
              let same_page : (v : ℕ)
                  → page v ≡ page virt
                  → translate_in_pml4 root v q ≡ translate_in_pml4 root v s =
                λ v eq.
                  ground
                    (arith, here v eq, entry_translates root virt x v s e eq, on, on', frame) in
              rw (protect_page_into-leaf root virt flags s, e, pte, on)
                (
                  refl,
                  λ v. elim (Bool-cases (page v == page virt)) [
                    | inl same ↦ same_page v (ground arith)
                    | inr other ↦ others v (λ e. ground arith)
                  ],
                  now,
                  kept,
                )
        ]
  ]

-- Under the conditions of MapPageInto's theorem, if MapPageInto succeeds, a following
-- UnmapPageFrom of the address leaves its page untranslated, and TranslateInPml4 gives for every
-- other address what it gave before both calls.
pub map_unmap :
    (ts : Tables) (root virt phys flags : ℕ) (s : Vmm)
    → Space ts s
    → ts.height root ≡ 4
    → IsFlags flags
    → (map_page_into root virt phys flags s).0 ≡ true
    → (v : ℕ)
    → translate_in_pml4 root v (unmap_page_from root virt (map_page_into root virt phys flags s).1)
      ≡ (if page v == page virt then 0 else translate_in_pml4 root v s)
map_unmap ts root virt phys flags s space top ok done v =
    let r : Bool × Vmm = map_page_into root virt phys flags s in
    let how = map_page_into-Maps ts root virt phys flags s space top ok in
    let (more, sp, h) = Maps-Space ts root virt phys flags s r how in
    let (pte, all) = Maps-true ts root virt phys flags s r how done in
    let (_, cleared, _) = unmap_page_from_lem more root r.1 sp.tree h virt in
    ground (arith, cleared v, all v, pte, (make_pte_lem phys flags ok).0, zero_entry)
