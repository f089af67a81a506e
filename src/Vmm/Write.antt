-- ===== src/Vmm/Write.antt =====
-- A write of a page table entry, and the walks that see it.
use micro_nt.Base.{
  ℕ, zero, suc, ◌<◌, ◌≡◌, refl, sym, ap, subst, ◌∙◌, ◌≢◌, inl, inr, true, some, arith, update,
  update_ne, Bool-cases,
}
use micro_nt.Vmm.{Words, slot, address, descends}
use micro_nt.Vmm.Walk.{
  Tables, IsTree, index, index_lt, leaf, leaf-descends, translate, translate-entry, slot-eq,
  table_aligned,
}

-- The slot of a walk is in a page table.
pub record In (ts : Tables) (s : ℕ) : Type 0 where
  pub table : ℕ
  pub place : ℕ
  pub is_leaf : ts.height table ≡ 1
  pub bound : place < 512
  pub at : s ≡ slot table place

pub leaf-In :
    (ts : Tables) (mem : Words) (k t v s : ℕ)
    → IsTree ts mem
    → ts.height t ≡ suc k
    → leaf k t v mem ≡ some s
    → In ts s
unfolding leaf
leaf-In ts mem zero t v s tree ht e = record {
  table = t;
  place = index 0 v;
  is_leaf = ht;
  bound = index_lt 0 v;
  at = ground arith;
}
leaf-In ts mem (suc k) t v s tree ht e =
    let (d, rest) = leaf-descends k t v s mem e in
    let (h, o) = tree.child t k (index (suc k) v) ht (index_lt (suc k) v) d in
    leaf-In ts mem k (address (mem (slot t (index (suc k) v)))) v s tree h rest

-- A write to a page table entry: the tables stay, and so does each walk.
module _ (ts : Tables) (mem : Words) (s w : ℕ) (tree : IsTree ts mem) (inside : In ts s) where
  upper_kept :
      (t k i : ℕ) → ts.height t ≡ suc (suc k) → i < 512 → update mem s w (slot t i) ≡ mem (slot t i)
  upper_kept t k i ht lt = update_ne mem s (slot t i) w (λ e.
      let (same, _) =
        slot-eq t inside.table i inside.place (table_aligned ts mem t (suc k) tree ht)
          (table_aligned ts mem inside.table 0 tree inside.is_leaf) lt inside.bound
          (e ∙ inside.at) in
      absurd (omega (arith, sym ht ∙ ap ts.height same ∙ inside.is_leaf)))

  pub update-IsTree : IsTree ts (update mem s w)
  update-IsTree = record {
    aligned = tree.aligned;
    low = tree.low;
    child = λ t k i ht lt d.
        subst (λ e. (ts.height (address e) ≡ suc k) × (ts.owner (address e) ≡ slot t i))
          (sym (upper_kept t k i ht lt))
          (tree.child t k i ht lt (subst (λ e. descends e ≡ true) (upper_kept t k i ht lt) d));
  }

  pub leaf-update : (k t v : ℕ) → ts.height t ≡ suc k → leaf k t v (update mem s w) ≡ leaf k t v mem
  unfolding leaf
  leaf-update zero t v ht = refl
  leaf-update (suc k) t v ht =
      let e = upper_kept t k (index (suc k) v) ht (index_lt (suc k) v) in
      elim (Bool-cases (descends (mem (slot t (index (suc k) v))))) [
        | inr stops ↦ rw (e, stops) refl
        | inl goes_on ↦
            let (h, _) = tree.child t k (index (suc k) v) ht (index_lt (suc k) v) goes_on in
            rw (e, goes_on) (leaf-update k (address (mem (slot t (index (suc k) v)))) v h)
      ]

  -- Only the walks that end at the slot see the write.
  pub translate-update :
      (k t v : ℕ)
      → ts.height t ≡ suc k
      → leaf k t v mem ≢ some s
      → translate k t v (update mem s w) ≡ translate k t v mem
  unfolding leaf translate
  translate-update zero t v ht other =
      let e = update_ne mem s (slot t (index 0 v)) w (λ q. other (ap some q)) in rw e refl
  translate-update (suc k) t v ht other =
      translate-entry k t t v mem (update mem s w)
        (upper_kept t k (index (suc k) v) ht (index_lt (suc k) v))
        (λ d.
          let (h, _) = tree.child t k (index (suc k) v) ht (index_lt (suc k) v) d in
          translate-update k (address (mem (slot t (index (suc k) v)))) v h
            (λ q. other (rw (leaf, d) q)))
