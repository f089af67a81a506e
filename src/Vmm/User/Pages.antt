-- ===== src/Vmm/User/Pages.antt =====
-- The tables that CreateUserPml4 fills in two new pages.
use micro_nt.Base.{
  ltb, ℕ, zero, suc, ◌+◌, ◌%◌, ◌^◌, ◌≤◌, ◌<◌, ◌≡◌, refl, sym, ap, ◌∙◌, ◌≢◌, inl, inr, true, false,
  if◌then◌else◌, arith, update, update_self, update_ne, Bool-cases, bit_or, ◌⊎◌,
}
use micro_nt.Vmm.{
  pte_user, Words, slot, is_present, is_huge, address, descends, zero_words, share_entries,
  copy_words, user_tables,
}
use micro_nt.Vmm.Entry.{table_entry, table_entry_lem, zero_entry}
use micro_nt.Vmm.Walk.{
  Tables, IsTree, index, index_lt, translate, translate-into, translate-entry, translate-agree,
  slot-eq,
}
use micro_nt.Vmm.Zero.{zero_words_in, zero_words_out}

-- Outside the page of the new PML4 the shared entries change nothing.
pub share_entries_out :
    (n i kernel new : ℕ) (mem : Words) (a : ℕ)
    → ((j : ℕ) → j < i + n → a ≢ slot new j)
    → share_entries n i kernel new mem a ≡ mem a
unfolding share_entries
share_entries_out zero i kernel new mem a out = refl
share_entries_out (suc n) i kernel new mem a out =
    elim (Bool-cases (is_present (mem (slot kernel i)))) [
      | inl on ↦ rw on (
          share_entries_out n (suc i) kernel new
            (update mem (slot new i) (bit_or (mem (slot kernel i)) pte_user)) a
            (λ j lt. out j (omega (arith, lt)))
          ∙ update_ne mem (slot new i) a (bit_or (mem (slot kernel i)) pte_user)
              (out i (omega arith)))
      | inr off ↦
          rw off (share_entries_out n (suc i) kernel new mem a (λ j lt. out j (omega (arith, lt))))
    ]

pub copy_words_out :
    (n from to : ℕ) (mem : Words) (a : ℕ)
    → ((j : ℕ) → j < n → a ≢ slot to j)
    → copy_words n from to mem a ≡ mem a
unfolding copy_words
copy_words_out zero from to mem a out = refl
copy_words_out (suc n) from to mem a out =
    copy_words_out n (from + 8) (to + 8) (update mem to (mem from)) a
      (λ j lt e. out (suc j) (omega (arith, lt)) (omega (arith, e)))
    ∙ update_ne mem to a (mem from) (λ e. out 0 (omega arith) (omega (arith, e)))

-- The words of a source apart from the destination.
pub copy_words_in :
    (n from to : ℕ) (mem : Words) (i : ℕ)
    → ((x y : ℕ) → x < n → y < n → slot from x ≢ slot to y)
    → i < n
    → copy_words n from to mem (slot to i) ≡ mem (slot from i)
unfolding copy_words
copy_words_in zero from to mem i apart lt = absurd (omega (arith, lt))
copy_words_in (suc n) from to mem zero apart lt =
    let at : slot to 0 ≡ to = omega arith in
    let here : slot from 0 ≡ from = omega arith in
    rw (at, here)
      (copy_words_out n (from + 8) (to + 8) (update mem to (mem from)) to
          (λ j l e. absurd (omega (arith, e)))
        ∙ update_self mem to (mem from))
copy_words_in (suc n) from to mem (suc i) apart lt =
    let at : slot to (suc i) ≡ slot (to + 8) i = omega arith in
    let here : slot from (suc i) ≡ slot (from + 8) i = omega arith in
    rw (at, here)
      (copy_words_in n (from + 8) (to + 8) (update mem to (mem from)) i
          (λ x y lx ly e.
            apart (suc x) (suc y) (omega (arith, lx)) (omega (arith, ly)) (omega (arith, e)))
          (omega (arith, lt))
        ∙ update_ne mem to (slot (from + 8) i) (mem from)
            (λ e. apart (suc i) 0 lt (omega arith) (omega (arith, e))))

pub apart :
    (t u i j : ℕ) → t % 4096 ≡ 0 → u % 4096 ≡ 0 → t ≢ u → i < 512 → j < 512 → slot t i ≢ slot u j
apart t u i j at au ne li lj e = ne (slot-eq t u i j at au li lj e).0

pub other : (ts : Tables) (u j p : ℕ) → ts.height u ≡ suc j → ts.height p ≡ 0 → u ≢ p
other ts u j p hu hp e = absurd (omega (arith, sym hu ∙ ap ts.height e ∙ hp))

-- A new page `a` becomes a PML4, with the kernel's entries from the second on.
module _ (ts : Tables) (mem : Words) (root a : ℕ) (tree : IsTree ts mem) (fresh_a : ts.height a ≡ 0)
    (aligned_a : a % 4096 ≡ 0) where
  abbrev shared : Words
  shared = share_entries 511 1 root a (zero_words 512 a mem)

  shared_table : (u j i : ℕ) → ts.height u ≡ suc j → i < 512 → shared (slot u i) ≡ mem (slot u i)
  shared_table u j i hu li =
      let out : (x : ℕ) → x < 512 → slot u i ≢ slot a x = λ x lx.
        apart u a i x (tree.aligned u (omega (arith, hu))) aligned_a (other ts u j a hu fresh_a) li
          lx in
      share_entries_out 511 1 root a (zero_words 512 a mem) (slot u i) out
      ∙ zero_words_out 512 a mem (slot u i) out

  pub shared_kept :
      (v : ℕ) → ts.height root ≡ 4 → translate 3 root v shared ≡ translate 3 root v mem
  shared_kept v top = translate-agree ts mem shared tree shared_table 3 root v top

-- Two new pages `a` and `b` become the PML4 and the PDPT of an address space.
module _ (ts : Tables) (mem : Words) (root a b : ℕ) (tree : IsTree ts mem)
    (top : ts.height root ≡ 4) (fresh_a : ts.height a ≡ 0) (fresh_b : ts.height b ≡ 0)
    (aligned_a : a % 4096 ≡ 0) (aligned_b : b % 4096 ≡ 0) (low : b < 2 ^ 52) (ne : a ≢ b) where
  abbrev blank : Words
  blank = zero_words 512 b (shared ts mem root a tree fresh_a aligned_a)

  abbrev final : Words
  final = user_tables root a b (shared ts mem root a tree fresh_a aligned_a)

  blank_table : (u j i : ℕ) → ts.height u ≡ suc j → i < 512 → blank (slot u i) ≡ mem (slot u i)
  blank_table u j i hu li =
      zero_words_out 512 b (shared ts mem root a tree fresh_a aligned_a) (slot u i) (λ x lx.
        apart u b i x (tree.aligned u (omega (arith, hu))) aligned_b (other ts u j b hu fresh_b) li
          lx)
      ∙ shared_table ts mem root a tree fresh_a aligned_a u j i hu li

  abbrev first : ℕ
  first = mem (slot root 0)

  seeded : Words
  seeded = if is_present first then copy_words 4 (address first) b blank else blank

  final_lem : (x : ℕ) → final x ≡ update seeded (slot a 0) (table_entry b) x
  unfolding user_tables seeded
  final_lem x = rw (blank_table root 3 0 top (omega arith)) refl

  final_table : (u j i : ℕ) → ts.height u ≡ suc j → i < 512 → final (slot u i) ≡ mem (slot u i)
  unfolding seeded
  final_table u j i hu li =
      let out : (x : ℕ) → x < 512 → slot u i ≢ slot b x = λ x lx.
        apart u b i x (tree.aligned u (omega (arith, hu))) aligned_b (other ts u j b hu fresh_b) li
          lx in
      final_lem (slot u i)
      ∙ update_ne seeded (slot a 0) (slot u i) (table_entry b) (
          apart u a i 0 (tree.aligned u (omega (arith, hu))) aligned_a (other ts u j a hu fresh_a)
            li (omega arith))
      ∙ elim (Bool-cases (is_present first)) [
        | inl on ↦ rw on (
            copy_words_out 4 (address first) b blank (slot u i) (λ x lx. out x (omega (arith, lx)))
            ∙ blank_table u j i hu li)
        | inr off ↦ rw off (blank_table u j i hu li)
      ]

  final-seeded : (i : ℕ) → i < 512 → final (slot b i) ≡ seeded (slot b i)
  final-seeded i li =
      final_lem (slot b i)
      ∙ update_ne seeded (slot a 0) (slot b i) (table_entry b)
          (apart b a i 0 aligned_b aligned_a (λ e. ne (sym e)) li (omega arith))

  -- The new PDPT beyond its fourth entry, or without a kernel PDPT, is empty.
  final_empty : (i : ℕ) → i < 512 → (4 ≤ i) ⊎ (is_present first ≡ false) → final (slot b i) ≡ 0
  unfolding seeded
  final_empty i li why = final-seeded i li ∙ elim (Bool-cases (is_present first)) [
    | inr off ↦ rw off (zero_words_in 512 b (shared ts mem root a tree fresh_a aligned_a) i li)
    | inl on ↦ elim why [
      | inl far ↦ rw on (
          copy_words_out 4 (address first) b blank (slot b i)
            (λ x lx e. absurd (omega (arith, e, lx, far)))
          ∙ zero_words_in 512 b (shared ts mem root a tree fresh_a aligned_a) i li)
      | inr off ↦ absurd (ground (arith, on, off))
    ]
  ]

  final_seed :
      is_present first ≡ true
      → is_huge first ≡ false
      → (i : ℕ) → i < 4
      → final (slot b i) ≡ mem (slot (address first) i)
  unfolding seeded descends
  final_seed on small i li =
      let (h, _) = tree.child root 2 0 top (omega arith) (ground (arith, on, small)) in
      final-seeded i (omega (arith, li))
      ∙ rw on (
          copy_words_in 4 (address first) b blank i
            (λ x y lx ly.
              apart (address first) b x y (tree.aligned (address first) (omega (arith, h)))
                aligned_b (other ts (address first) 2 b h fresh_b) (omega (arith, lx))
                (omega (arith, ly)))
            li
          ∙ blank_table (address first) 2 i h (omega (arith, li)))

  final_root :
      (is_present (final (slot a 0)) ≡ true)
      × (is_huge (final (slot a 0)) ≡ false)
      × (address (final (slot a 0)) ≡ b)
  final_root =
      rw (final_lem (slot a 0), update_self seeded (slot a 0) (table_entry b))
        (table_entry_lem b aligned_b low)

  -- An address of the first 512 GB is translated by the new PDPT.
  final_pdpt : (v : ℕ) → v < 2 ^ 39 → translate 3 a v final ≡ translate 2 b v final
  final_pdpt v small =
      let i : index 3 v ≡ 0 = omega (arith, small) in
      let (on, hg, ad) = final_root in translate-into 2 a v b final (rw i on) (rw i hg) (rw i ad)

  final_high : (v : ℕ) → v < 2 ^ 39 → 2 ^ 32 ≤ v → translate 3 a v final ≡ 0
  unfolding translate
  final_high v small far =
      let e = final_empty (index 2 v) (index_lt 2 v) (inl (omega (arith, small, far))) in
      final_pdpt v small ∙ rw (e, zero_entry) refl

  final_low :
      is_huge first ≡ false → (v : ℕ) → v < 2 ^ 32 → translate 3 a v final ≡ translate 3 root v mem
  unfolding translate descends
  final_low flat v small =
      let i : index 3 v ≡ 0 = omega (arith, small) in
      final_pdpt v (omega (arith, small)) ∙ elim (Bool-cases (is_present first)) [
        | inr off ↦
            let e = final_empty (index 2 v) (index_lt 2 v) (inr off) in
            rw (i, e, zero_entry, off) refl
        | inl on ↦
            let (h, _) = tree.child root 2 0 top (omega arith) (ground (arith, on, flat)) in
            translate-entry 1 (address first) b v mem final
              (final_seed on flat (index 2 v) (omega (arith, small)))
              (λ d.
                let (h', _) = tree.child (address first) 1 (index 2 v) h (index_lt 2 v) d in
                translate-agree ts mem final tree final_table 1
                  (address (mem (slot (address first) (index 2 v)))) v h')
            ∙ sym (translate-into 2 root v (address first) mem (rw i on) (rw i flat) (rw i refl))
      ]

  pub translate-final :
      is_huge first ≡ false
      → (v : ℕ) → v < 2 ^ 39
      → translate 3 a v final ≡ (if ltb v (2 ^ 32) then translate 3 root v mem else 0)
  translate-final flat v small = elim (Bool-cases (ltb v (2 ^ 32))) [
    | inl near ↦ rw near (final_low flat v (ground (arith, near)))
    | inr far ↦ rw far (final_high v small (ground (arith, far)))
  ]

  pub final_kept : (v : ℕ) → translate 3 root v final ≡ translate 3 root v mem
  final_kept v = translate-agree ts mem final tree final_table 3 root v top
