-- ===== src/Vmm/Map.antt =====
-- MapPageInto, UnmapPageFrom, ProtectPageInto and GetPteInto by what each address translates to.
use micro_nt.Base.{
  ℕ, suc, ◌+◌, ◌%◌, ◌<◌, ◌≡◌, refl, sym, ap, subst, ◌∙◌, inl, inr, Bool, true, false, some, ◌==◌,
  if◌then◌else◌, arith, update, update_self, Bool-cases,
}
use micro_nt.Vmm.{
  Words, Vmm, slot, address, descends, make_pte, get_or_alloc, map_page_into, get_pte_into,
  translate_in_pml4,
}
use micro_nt.Vmm.Entry.{IsFlags, make_pte_lem}
use micro_nt.Vmm.Walk.{Tables, IsTree, index, index_lt, leaf, translate}
use micro_nt.Vmm.Write.{leaf-In, leaf-update}
use micro_nt.Vmm.Grow.{Space, Step}
use micro_nt.Vmm.Alloc.{get_or_alloc-Step}
use micro_nt.Vmm.Page.{
  entry_at, get_pte_into-leaf, page, entry_written, translate_in_pml4-translate,
}

-- A walk through an entry to the next table.
leaf-into :
    (k t v c : ℕ) (m : Words)
    → descends (m (slot t (index (suc k) v))) ≡ true
    → address (m (slot t (index (suc k) v))) ≡ c
    → leaf (suc k) t v m ≡ leaf k c v m
unfolding leaf
leaf-into k t v c m d a = rw (d, a) refl

-- How MapPageInto ends: with the page mapped to the frame, or with no change of any translation.
-- The other pages translate as before in both cases.
pub data Maps (ts : Tables) (root virt phys flags : ℕ) (s : Vmm) : Bool × Vmm → Type 0 where
  mapped :
      (q : Vmm) (more : Tables)
      → Space more q
      → more.height root ≡ 4
      → get_pte_into root virt q ≡ make_pte phys flags
      → ((v : ℕ)
          → translate_in_pml4 root v q
            ≡ (if page v == page virt then address phys + v % 4096 else translate_in_pml4 root v s))
      → Maps ts root virt phys flags s (true, q)
  failed :
      (q : Vmm) (more : Tables)
      → Space more q
      → more.height root ≡ 4
      → ((v : ℕ) → translate_in_pml4 root v q ≡ translate_in_pml4 root v s)
      → Maps ts root virt phys flags s (false, q)

module _ (ts : Tables) (root virt phys flags : ℕ) (s : Vmm) (space : Space ts s)
    (top : ts.height root ≡ 4) where
  -- Tables that were extended, without a change of what the root translates.
  stopped :
      (q : Vmm) (more : Tables)
      → Space more q
      → more.height root ≡ 4
      → ((v : ℕ) → translate 3 root v q.mem ≡ translate 3 root v s.mem)
      → Maps ts root virt phys flags s (false, q)
  stopped q more sp h kept = failed q more sp h (λ v.
      translate_in_pml4-translate root v q ∙ kept v ∙ sym (translate_in_pml4-translate root v s))

  still :
      (more : Tables) (q : Vmm) (x : ℕ)
      → IsTree more q.mem
      → more.height root ≡ 4
      → leaf 3 root virt q.mem ≡ some x
      → leaf 3 root virt (update q.mem x (make_pte phys flags)) ≡ some x
  still more q x tree h at =
      leaf-update more q.mem x (make_pte phys flags) tree
        (leaf-In more q.mem 3 root virt x tree h at) 3 root virt h
      ∙ at

  -- The entry is written at the end of the walk.
  written :
      (q : Vmm) (more : Tables) (x : ℕ)
      → IsFlags flags
      → Space more q
      → more.height root ≡ 4
      → ((v : ℕ) → translate 3 root v q.mem ≡ translate 3 root v s.mem)
      → leaf 3 root virt q.mem ≡ some x
      → Maps ts root virt phys flags s
          (true, record q { mem = update q.mem x (make_pte phys flags) })
  unfolding entry_at
  written q more x ok sp h kept at =
      let (here, others, tree) =
        entry_written more root q sp.tree h virt x (make_pte phys flags) at in
      let q' : Vmm = record q { mem = update q.mem x (make_pte phys flags) } in
      let (on, frame) = make_pte_lem phys flags ok in
      mapped q' more (record { tree = tree; inv = sp.inv; used = sp.used }) h
        (get_pte_into-leaf root virt q'
          ∙ ap (λ o. entry_at o q'.mem) (still more q x sp.tree h at)
          ∙ update_self q.mem x (make_pte phys flags))
        (λ v. elim (Bool-cases (page v == page virt)) [
          | inl same ↦ rw same (
              translate_in_pml4-translate root v q'
              ∙ here v (ground arith)
              ∙ ap (λ b. if b then address (make_pte phys flags) + v % 4096 else 0) on
              ∙ ap (λ a. a + v % 4096) frame)
          | inr other ↦ rw other (
              translate_in_pml4-translate root v q'
              ∙ others v (λ e. ground arith)
              ∙ kept v
              ∙ sym (translate_in_pml4-translate root v s))
        ])

  -- The calls of get_or_alloc have led to the table `t` of level `k`.
  record Walked (k t : ℕ) (q : Vmm) : Type 0 where
    more : Tables
    sp : Space more q
    above : more.height root ≡ 4
    here : more.height t ≡ suc k
    kept : (v : ℕ) → translate 3 root v q.mem ≡ translate 3 root v s.mem
    path :
        (m : Words)
        → ((u j x : ℕ)
            → more.height u ≡ suc (suc j)
            → x < 512
            → descends (q.mem (slot u x)) ≡ true
            → m (slot u x) ≡ q.mem (slot u x))
        → leaf 3 root virt m ≡ leaf k t virt m

  module _ (k t : ℕ) (q : Vmm) (w : Walked (suc k) t q) where
    call :
        Step w.more q t k (index (suc k) virt) (get_or_alloc (slot t (index (suc k) virt)) true q)
    call = get_or_alloc-Step w.more q w.sp t k (index (suc k) virt) w.here (index_lt (suc k) virt)

    refused :
        Maps ts root virt phys flags s
          (false, (get_or_alloc (slot t (index (suc k) virt)) true q).1)
    refused =
        stopped (get_or_alloc (slot t (index (suc k) virt)) true q).1 call.tables call.space
          (call.grows root 3 w.above) (λ v. call.kept root 3 v w.above ∙ w.kept v)

    advance :
        ((get_or_alloc (slot t (index (suc k) virt)) true q).0 == 0) ≡ false
        → Walked k
            (get_or_alloc (slot t (index (suc k) virt)) true q).0
            (get_or_alloc (slot t (index (suc k) virt)) true q).1
    advance ok =
        let q' = (get_or_alloc (slot t (index (suc k) virt)) true q).1 in
        let (d, a) = call.child (λ e. ground arith) in
        record {
          more = call.tables;
          sp = call.space;
          above = call.grows root 3 w.above;
          here =
              ap call.tables.height (sym a)
              ∙ (call.space.tree.child t k (index (suc k) virt) (call.grows t (suc k) w.here)
                  (index_lt (suc k) virt) d).0;
          kept = λ v. call.kept root 3 v w.above ∙ w.kept v;
          path = λ m agree.
              w.path m (λ u j x h lx d'.
                let st = call.stays u j x h lx d' in
                agree u j x (call.grows u (suc j) h) lx (subst (λ e. descends e ≡ true) (sym st) d')
                ∙ st)
              ∙ (let e =
                    agree t k (index (suc k) virt) (call.grows t (suc k) w.here)
                      (index_lt (suc k) virt) d in
                  leaf-into k t virt (get_or_alloc (slot t (index (suc k) virt)) true q).0 m
                    (subst (λ b. descends b ≡ true) (sym e) d) (ap address e ∙ a));
        }

  begin : Walked 3 root s
  begin = record {
    more = ts;
    sp = space;
    above = top;
    here = top;
    kept = λ v. refl;
    path = λ m agree. refl;
  }

  arrived :
      (pt : ℕ) (q : Vmm)
      → IsFlags flags
      → Walked 0 pt q
      → Maps ts root virt phys flags s
          (true, record q { mem = update q.mem (slot pt (index 0 virt)) (make_pte phys flags) })
  unfolding leaf
  arrived pt q ok w =
      written q w.more (slot pt (index 0 virt)) ok w.sp w.above w.kept
        (w.path q.mem (λ u j x h lx d. refl))

  -- If the tables of the root form a tree whose pages the allocator does not hold free, the
  -- allocator's counter and hint are right and the flags leave the bits of the frame alone,
  -- MapPageInto either succeeds: GetPteInto then gives the entry written, TranslateInPml4 gives
  -- the frame with the offset for each address of the page, and what it gave before for every
  -- other address; or it fails, and TranslateInPml4 gives what it gave before for every
  -- address. The tables form such a tree after the call too.
  pub map_page_into-Maps :
      IsFlags flags → Maps ts root virt phys flags s (map_page_into root virt phys flags s)
  unfolding map_page_into
  map_page_into-Maps ok =
      let (pdpt, s1) = get_or_alloc (slot root (index 3 virt)) true s in
      let (pd, s2) = get_or_alloc (slot pdpt (index 2 virt)) true s1 in
      let (pt, s3) = get_or_alloc (slot pd (index 1 virt)) true s2 in
      elim (Bool-cases (pdpt == 0)) [
        | inl null ↦ rw null (refused 2 root s begin)
        | inr ok1 ↦
            let w1 : Walked 2 pdpt s1 = advance 2 root s begin ok1 in
            elim (Bool-cases (pd == 0)) [
              | inl null ↦ rw (ok1, null) (refused 1 pdpt s1 w1)
              | inr ok2 ↦
                  let w2 : Walked 1 pd s2 = advance 1 pdpt s1 w1 ok2 in
                  elim (Bool-cases (pt == 0)) [
                    | inl null ↦ rw (ok1, ok2, null) (refused 0 pd s2 w2)
                    | inr ok3 ↦ rw (ok1, ok2, ok3) (arrived pt s3 ok (advance 0 pd s2 w2 ok3))
                  ]
            ]
      ]

-- The tables after MapPageInto.
pub Maps-Space :
    (ts : Tables) (root virt phys flags : ℕ) (s : Vmm) (r : Bool × Vmm)
    → Maps ts root virt phys flags s r
    → (more : Tables) × Space more r.1 × (more.height root ≡ 4)
Maps-Space ts root virt phys flags s _ (mapped q more sp h _ _) = (more, sp, h)
Maps-Space ts root virt phys flags s _ (failed q more sp h _) = (more, sp, h)

-- What a mapped page translates to.
pub Maps-true :
    (ts : Tables) (root virt phys flags : ℕ) (s : Vmm) (r : Bool × Vmm)
    → Maps ts root virt phys flags s r
    → r.0 ≡ true
    → (get_pte_into root virt r.1 ≡ make_pte phys flags)
      × ((v : ℕ)
          → translate_in_pml4 root v r.1
            ≡ (if page v == page virt then address phys + v % 4096 else translate_in_pml4 root v s))
Maps-true ts root virt phys flags s _ (mapped q more sp h pte all) ok = (pte, all)
Maps-true ts root virt phys flags s _ (failed q more sp h kept) ok = absurd (ground (arith, ok))
