-- ===== src/Vmm/Page.antt =====
-- TranslateInPml4 and GetPteInto as walks, and the page that an entry maps.
use micro_nt.Base.{
  ℕ, ◌+◌, ◌/◌, ◌%◌, ◌^◌, ◌≡◌, refl, ap, ◌∙◌, ◌≢◌, Option, none, some, if◌then◌else◌, arith, update,
  update_self, bit_and, bit_or,
}
use micro_nt.Base.Bits.{bit_and-ones, bit_or-div_pow, bit_or-mod_pow, bit_or-zero, zero-bit_or}
use micro_nt.Vmm.{Words, Vmm, is_present, address, in_4kb, get_pte_into, translate_in_pml4}
use micro_nt.Vmm.Entry.{address_lem}
use micro_nt.Vmm.Walk.{Tables, IsTree, index, leaf, translate, Same, leaf-Same, translate-leaf}
use micro_nt.Vmm.Write.{leaf-In, leaf-update, translate-update, update-IsTree}

-- TranslateInPml4 is the walk from the fourth level.
pub translate_in_pml4-translate :
    (pml4 virt : ℕ) (s : Vmm) → translate_in_pml4 pml4 virt s ≡ translate 3 pml4 virt s.mem
unfolding translate_in_pml4 translate
translate_in_pml4-translate pml4 virt s = ground arith

-- The entry of a page, 0 if no walk ends at it.
unfoldable pub entry_at : Option ℕ → Words → ℕ
entry_at none mem = 0
entry_at (some x) mem = mem x

pub get_pte_into-leaf :
    (root v : ℕ) (s : Vmm) → get_pte_into root v s ≡ entry_at (leaf 3 root v s.mem) s.mem
unfolding get_pte_into leaf entry_at
get_pte_into-leaf root v s = ground arith

-- The page of an address, as the walk sees it.
unfoldable pub page : ℕ → ℕ
page v = v / 4096 % 2 ^ 36

Same-page : (v w : ℕ) → Same 3 v w → page v ≡ page w
unfolding page Same
Same-page v w same =
    omega (
      arith,
      same 0 (omega arith),
      same 1 (omega arith),
      same 2 (omega arith),
      same 3 (omega arith),
    )

-- The addresses of a page share their walk.
pub leaf-page : (root v w : ℕ) (m : Words) → page v ≡ page w → leaf 3 root v m ≡ leaf 3 root w m
unfolding page leaf
leaf-page root v w m e =
    let e3 : index 3 v ≡ index 3 w = omega (arith, e) in
    let e2 : index 2 v ≡ index 2 w = omega (arith, e) in
    let e1 : index 1 v ≡ index 1 w = omega (arith, e) in
    let e0 : index 0 v ≡ index 0 w = omega (arith, e) in rw (e3, e2, e1, e0) refl

-- An entry's frame, and the offset in the page.
pub in_4kb_lem : (e v : ℕ) → in_4kb e v ≡ address e + v % 4096
unfolding in_4kb
in_4kb_lem e v =
    let a : ℕ = address e in
    let b : ℕ = bit_and v 0xFFF in
    let low : b ≡ v % 4096 = bit_and-ones 12 v in
    let quot : bit_or a b / 4096 ≡ a / 4096 =
      bit_or-div_pow 12 a b
      ∙ ap (bit_or (a / 4096)) (omega (arith, low))
      ∙ bit_or-zero (a / 4096) in
    let rem : bit_or a b % 4096 ≡ b % 4096 =
      bit_or-mod_pow 12 a b
      ∙ ap (λ x. bit_or x (b % 4096)) (omega (arith, address_lem e))
      ∙ zero-bit_or (b % 4096) in
    omega (arith, address_lem e, quot, rem, low)

module _ (ts : Tables) (root : ℕ) (s : Vmm) (tree : IsTree ts s.mem)
    (top : ts.height root ≡ 4) where
  -- A write of a page table entry changes what one page translates to.
  pub entry_written :
      (virt x w : ℕ)
      → leaf 3 root virt s.mem ≡ some x
      → ((v : ℕ)
          → page v ≡ page virt
          → translate 3 root v (update s.mem x w)
            ≡ (if is_present w then address w + v % 4096 else 0))
        × ((v : ℕ)
            → page v ≢ page virt
            → translate 3 root v (update s.mem x w) ≡ translate 3 root v s.mem)
        × IsTree ts (update s.mem x w)
  entry_written virt x w at =
      let inside = leaf-In ts s.mem 3 root virt x tree top at in
      (
        λ v same.
            translate-leaf 3 root v x (update s.mem x w) (
              leaf-update ts s.mem x w tree inside 3 root v top
              ∙ leaf-page root v virt s.mem same
              ∙ at)
            ∙ ap (λ e. if is_present e then in_4kb e v else 0) (update_self s.mem x w)
            ∙ ap (λ a. if is_present w then a else 0) (in_4kb_lem w v),
        λ v other. translate-update ts s.mem x w tree inside 3 root v top (λ e.
            let (_, same) = leaf-Same ts s.mem 3 root root v virt x tree top top e at in
            other (Same-page v virt same)),
        update-IsTree ts s.mem x w tree inside,
      )
