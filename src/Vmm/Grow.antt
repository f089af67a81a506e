-- ===== src/Vmm/Grow.antt =====
-- A new page becomes an empty table below an entry.
use micro_nt.Base.{
  ℕ, zero, suc, ◌*◌, ◌%◌, ◌^◌, ◌<◌, ◌≡◌, refl, sym, ap, subst, ◌∙◌, ◌≢◌, inl, inr, true, false,
  ◌==◌, arith, update, update_self, update_ne, Bool-cases,
}
use micro_nt.Ntdef.{page_size}
use micro_nt.Pmm.{Pmm, bitmap_test, max_pages}
use micro_nt.Pmm.Alloc.{Inv}
use micro_nt.Vmm.{Words, Vmm, slot, is_present, address, descends, zero_words}
use micro_nt.Vmm.Entry.{table_entry, table_entry_lem, zero_entry}
use micro_nt.Vmm.Walk.{Tables, IsTree, index, index_lt, translate, translate-entry, slot-eq}
use micro_nt.Vmm.Zero.{zero_words_in, zero_words_out, translate_empty}

-- The tables of a root, with the allocator: what holds a table is not free.
pub record Space (ts : Tables) (s : Vmm) : Type 0 where
  pub tree : IsTree ts s.mem
  pub inv : Inv s.pmm
  pub used :
      (i : ℕ) → ts.height (i * page_size) ≢ 0 → i < max_pages → bitmap_test s.pmm.bitmap i ≡ true

-- What get_or_alloc keeps and gives at the entry `i` of the table `t`: its result is the child table,
-- unless it is null; the tables there were are tables, and translate as before.
pub record Step (ts : Tables) (s : Vmm) (t k i : ℕ) (r : ℕ × Vmm) : Type 0 where
  pub tables : Tables
  pub space : Space tables r.1
  pub grows : (u j : ℕ) → ts.height u ≡ suc j → tables.height u ≡ suc j
  pub kept : (u j v : ℕ) → ts.height u ≡ suc j → translate j u v r.1.mem ≡ translate j u v s.mem
  pub stays :
      (u j x : ℕ)
      → ts.height u ≡ suc (suc j)
      → x < 512
      → descends (s.mem (slot u x)) ≡ true
      → r.1.mem (slot u x) ≡ s.mem (slot u x)
  pub child :
      r.0 ≢ 0 → (descends (r.1.mem (slot t i)) ≡ true) × (address (r.1.mem (slot t i)) ≡ r.0)

-- A new page `p` becomes the table of the absent entry `i` of the table `t`.
module _ (ts : Tables) (s : Vmm) (t k i p : ℕ) (tree : IsTree ts s.mem)
    (ht : ts.height t ≡ suc (suc k)) (lt : i < 512) (absent : is_present (s.mem (slot t i)) ≡ false)
    (fresh : ts.height p ≡ 0) (aligned : p % 4096 ≡ 0) (low : p < 2 ^ 52) where
  abbrev pub grown : Words
  grown = update (zero_words 512 p s.mem) (slot t i) (table_entry p)

  abbrev pub more : Tables
  more = record { height = update ts.height p (suc k); owner = update ts.owner p (slot t i) }

  ne_fresh : (u j : ℕ) → ts.height u ≡ suc j → u ≢ p
  ne_fresh u j hu e = absurd (omega (arith, sym hu ∙ ap ts.height e ∙ fresh))

  table_slot :
      (u j x : ℕ)
      → ts.height u ≡ suc j
      → x < 512
      → slot u x ≢ slot t i
      → grown (slot u x) ≡ s.mem (slot u x)
  table_slot u j x hu lx ne =
      update_ne (zero_words 512 p s.mem) (slot t i) (slot u x) (table_entry p) ne
      ∙ zero_words_out 512 p s.mem (slot u x) (λ y ly e.
        let (same, _) = slot-eq u p x y (tree.aligned u (omega (arith, hu))) aligned lx ly e in
        ne_fresh u j hu same)

  new_slot : grown (slot t i) ≡ table_entry p
  new_slot = update_self (zero_words 512 p s.mem) (slot t i) (table_entry p)

  fresh_slot : (x : ℕ) → x < 512 → grown (slot p x) ≡ 0
  fresh_slot x lx =
      update_ne (zero_words 512 p s.mem) (slot t i) (slot p x) (table_entry p) (λ e.
        let (same, _) = slot-eq p t x i aligned (tree.aligned t (omega (arith, ht))) lx lt e in
        ne_fresh t (suc k) ht (sym same))
      ∙ zero_words_in 512 p s.mem x lx

  pub more-height : (u j : ℕ) → ts.height u ≡ suc j → more.height u ≡ suc j
  more-height u j hu = update_ne ts.height p u (suc k) (ne_fresh u j hu) ∙ hu

  place : (u j x : ℕ) → ts.height u ≡ suc j → x < 512 → slot u x ≡ slot t i → u ≡ t
  place u j x hu lx e =
      (slot-eq u t x i (tree.aligned u (omega (arith, hu))) (tree.aligned t (omega (arith, ht))) lx
        lt e).0

  pub grown-descends : (descends (grown (slot t i)) ≡ true) × (address (grown (slot t i)) ≡ p)
  unfolding descends
  grown-descends =
      let (pr, hg, ad) = table_entry_lem p aligned low in rw new_slot (ground (arith, pr, hg), ad)

  pub grown-translate :
      (j u v : ℕ) → ts.height u ≡ suc j → translate j u v grown ≡ translate j u v s.mem
  unfolding translate
  grown-translate zero u v hu =
      let e = table_slot u 0 (index 0 v) hu (index_lt 0 v) (λ q.
        absurd (
          omega (arith, sym hu ∙ ap ts.height (place u 0 (index 0 v) hu (index_lt 0 v) q) ∙ ht))) in
      rw e refl
  grown-translate (suc j) u v hu = elim (Bool-cases (slot u (index (suc j) v) == slot t i)) [
    | inl hit ↦
        let at : slot u (index (suc j) v) ≡ slot t i = ground arith in
        let (pr, hg, ad) = table_entry_lem p aligned low in
        rw (at, new_slot, absent, pr, hg, ad, translate_empty j p v grown fresh_slot) refl
    | inr miss ↦
        translate-entry j u u v s.mem grown
          (table_slot u (suc j) (index (suc j) v) hu (index_lt (suc j) v) (λ q. ground arith))
          (λ d.
            let (h, _) = tree.child u j (index (suc j) v) hu (index_lt (suc j) v) d in
            grown-translate j (address (s.mem (slot u (index (suc j) v)))) v h)
  ]

  pub grown-stays :
      (u j x : ℕ)
      → ts.height u ≡ suc (suc j)
      → x < 512
      → descends (s.mem (slot u x)) ≡ true
      → grown (slot u x) ≡ s.mem (slot u x)
  unfolding descends
  grown-stays u j x hu lx d = table_slot u (suc j) x hu lx (λ e.
      let off : is_present (s.mem (slot u x)) ≡ false = ap (λ a. is_present (s.mem a)) e ∙ absent in
      absurd (ground (arith, d, off)))

  pub more-IsTree : IsTree more grown
  unfolding descends
  more-IsTree = record {
    aligned = λ u h. ground (arith, tree.aligned u);
    low = λ u. ground (arith, tree.low u, tree.low t);
    child = λ u j x hu lx d. elim (Bool-cases (u == p)) [
      | inl new ↦
          let at : u ≡ p = ground arith in
          let empty : grown (slot u x) ≡ 0 = rw at (fresh_slot x lx) in
          absurd (ground (arith, d, ap is_present empty, zero_entry))
      | inr old ↦
          let hu' : ts.height u ≡ suc (suc j) = ground (arith, hu) in
          elim (Bool-cases (slot u x == slot t i)) [
            | inl hit ↦
                let at : slot u x ≡ slot t i = ground arith in
                let same = place u (suc j) x hu' lx at in
                let (_, _, ad) = table_entry_lem p aligned low in
                rw (at, new_slot, ad)
                  (
                    update_self ts.height p (suc k) ∙ omega (arith, hu', ht, ap ts.height same),
                    update_self ts.owner p (slot t i),
                  )
            | inr miss ↦
                let e = table_slot u (suc j) x hu' lx (λ q. ground arith) in
                let (h, o) = tree.child u j x hu' lx (subst (λ a. descends a ≡ true) e d) in
                let ne = ne_fresh (address (s.mem (slot u x))) j h in
                rw e (
                  update_ne ts.height p (address (s.mem (slot u x))) (suc k) ne ∙ h,
                  update_ne ts.owner p (address (s.mem (slot u x))) (slot t i) ne ∙ o,
                )
          ]
    ];
  }

  -- The allocator has given the page.
  pub grown-Step :
      (q : Pmm)
      → Inv q
      → ((x : ℕ) → more.height (x * page_size) ≢ 0 → x < max_pages → bitmap_test q.bitmap x ≡ true)
      → Step ts s t k i (p, record s { pmm = q; mem = grown })
  grown-Step q inv used = record {
    tables = more;
    space = record { tree = more-IsTree; inv = inv; used = used };
    grows = more-height;
    kept = λ u j. grown-translate j u;
    stays = grown-stays;
    child = λ _. grown-descends;
  }
