-- ===== src/Vmm/Walk.antt =====
-- The walk over the tables of one root, from a level down: the slot that it ends at, and the address
-- that it translates to. Level 0 is the page table, level 3 the PML4.
use micro_nt.Base.{
  ℕ, zero, suc, ◌/◌, ◌%◌, ◌^◌, ◌≤◌, ◌<◌, ◌≡◌, refl, sym, ap, subst, ◌∙◌, ◌≢◌, inl, inr, true, false,
  not, Option, none, some, ◌==◌, if◌then◌else◌, arith, Bool-cases,
}
use micro_nt.Vmm.{Words, slot, is_present, is_huge, address, descends, in_1gb, in_2mb, in_4kb}

-- The index of an address at a level.
abbrev pub index : ℕ → ℕ → ℕ
index zero v = v / 2 ^ 12 % 512
index (suc zero) v = v / 2 ^ 21 % 512
index (suc (suc zero)) v = v / 2 ^ 30 % 512
index (suc (suc (suc k))) v = v / 2 ^ 39 % 512

pub index_lt : (k v : ℕ) → index k v < 512
index_lt zero v = omega arith
index_lt (suc zero) v = omega arith
index_lt (suc (suc zero)) v = omega arith
index_lt (suc (suc (suc k))) v = omega arith

-- What an entry of a level with a huge page translates to.
abbrev pub huge : ℕ → ℕ → ℕ → ℕ
huge zero e v = 0
huge (suc zero) e v = in_2mb e v
huge (suc (suc zero)) e v = in_1gb e v
huge (suc (suc (suc k))) e v = 0

-- The slot of the page table entry, if the tables are there.
unfoldable pub leaf : ℕ → ℕ → ℕ → Words → Option ℕ
leaf zero t v mem = some (slot t (index 0 v))
leaf (suc k) t v mem =
    let rest = leaf k (address (mem (slot t (index (suc k) v)))) v mem in
    if descends (mem (slot t (index (suc k) v))) then rest else none

unfoldable pub translate : ℕ → ℕ → ℕ → Words → ℕ
translate zero t v mem =
    if is_present (mem (slot t (index 0 v))) then in_4kb (mem (slot t (index 0 v))) v else 0
translate (suc k) t v mem =
    let e = mem (slot t (index (suc k) v)) in
    let rest = translate k (address e) v mem in
    if not (is_present e) then 0 else if is_huge e then huge (suc k) e v else rest

-- The tables of a root: a height for each table, 0 for other pages, and the one slot that leads to
-- it. A level is one less than a height.
pub record Tables : Type 0 where
  pub height : ℕ → ℕ
  pub owner : ℕ → ℕ

pub record IsTree (ts : Tables) (mem : Words) : Type 0 where
  pub aligned : (t : ℕ) → ts.height t ≢ 0 → t % 4096 ≡ 0
  pub low : (t : ℕ) → ts.height t ≤ 4
  pub child :
      (t k i : ℕ)
      → ts.height t ≡ suc (suc k)
      → i < 512
      → descends (mem (slot t i)) ≡ true
      → (ts.height (address (mem (slot t i))) ≡ suc k)
        × (ts.owner (address (mem (slot t i))) ≡ slot t i)

-- Slots of different tables are different.
pub slot-eq :
    (t u i j : ℕ)
    → t % 4096 ≡ 0
    → u % 4096 ≡ 0
    → i < 512
    → j < 512
    → slot t i ≡ slot u j
    → (t ≡ u) × (i ≡ j)
slot-eq t u i j at au hi hj e = (omega arith, omega arith)

pub leaf-descends :
    (k t v s : ℕ) (mem : Words)
    → leaf (suc k) t v mem ≡ some s
    → (descends (mem (slot t (index (suc k) v))) ≡ true)
      × (leaf k (address (mem (slot t (index (suc k) v)))) v mem ≡ some s)
unfolding leaf
leaf-descends k t v s mem e = ground arith

-- The same indices at all levels up to `k`.
unfoldable pub Same : ℕ → ℕ → ℕ → Type 0
Same k v w = (j : ℕ) → j ≤ k → index j v ≡ index j w

pub Same-suc : (k v w : ℕ) → Same k v w → index (suc k) v ≡ index (suc k) w → Same (suc k) v w
unfolding Same
Same-suc k v w below here j le = elim (Bool-cases (j == suc k)) [
  | inl hit ↦ let e : j ≡ suc k = ground arith in subst (λ i. index i v ≡ index i w) (sym e) here
  | inr miss ↦ below j (ground arith)
]

pub Same-zero : (v w : ℕ) → index 0 v ≡ index 0 w → Same 0 v w
unfolding Same
Same-zero v w here j le =
    let e : j ≡ 0 = omega (arith, le) in subst (λ i. index i v ≡ index i w) (sym e) here

pub table_aligned :
    (ts : Tables) (mem : Words) (t k : ℕ) → IsTree ts mem → ts.height t ≡ suc k → t % 4096 ≡ 0
table_aligned ts mem t k tree ht = tree.aligned t (omega (arith, ht))

some-eq : (a b s : ℕ) → some a ≡ some s → some b ≡ some s → a ≡ b
some-eq a b s e f = ground arith

-- Two walks that end at the same slot went the same way.
pub leaf-Same :
    (ts : Tables) (mem : Words) (k t u v w s : ℕ)
    → IsTree ts mem
    → ts.height t ≡ suc k
    → ts.height u ≡ suc k
    → leaf k t v mem ≡ some s
    → leaf k u w mem ≡ some s
    → (t ≡ u) × Same k v w
unfolding leaf
leaf-Same ts mem zero t u v w s tree ht hu e f =
    let (same, here) =
      slot-eq t u (index 0 v) (index 0 w) (table_aligned ts mem t 0 tree ht)
        (table_aligned ts mem u 0 tree hu) (index_lt 0 v) (index_lt 0 w) (some-eq _ _ s e f) in
    (same, Same-zero v w here)
leaf-Same ts mem (suc k) t u v w s tree ht hu e f =
    let (d, e') = leaf-descends k t v s mem e in
    let (d', f') = leaf-descends k u w s mem f in
    let (h, o) = tree.child t k (index (suc k) v) ht (index_lt (suc k) v) d in
    let (h', o') = tree.child u k (index (suc k) w) hu (index_lt (suc k) w) d' in
    let (child, below) =
      leaf-Same ts mem k (address (mem (slot t (index (suc k) v))))
        (address (mem (slot u (index (suc k) w)))) v w s tree h h' e' f' in
    let (same, here) =
      slot-eq t u (index (suc k) v) (index (suc k) w) (table_aligned ts mem t (suc k) tree ht)
        (table_aligned ts mem u (suc k) tree hu) (index_lt (suc k) v) (index_lt (suc k) w)
        (sym o ∙ ap ts.owner child ∙ o') in
    (same, Same-suc k v w below here)

-- A walk that ends at a slot translates by the entry there.
pub translate-leaf :
    (k t v s : ℕ) (mem : Words)
    → leaf k t v mem ≡ some s
    → translate k t v mem ≡ (if is_present (mem s) then in_4kb (mem s) v else 0)
unfolding leaf translate descends
translate-leaf zero t v s mem e = let at : slot t (index 0 v) ≡ s = ground arith in rw at refl
translate-leaf (suc k) t v s mem e =
    let (d, rest) = leaf-descends k t v s mem e in
    ground (arith, d, translate-leaf k (address (mem (slot t (index (suc k) v)))) v s mem rest)

-- A walk through an entry to the next table.
pub translate-into :
    (k t v c : ℕ) (m : Words)
    → is_present (m (slot t (index (suc k) v))) ≡ true
    → is_huge (m (slot t (index (suc k) v))) ≡ false
    → address (m (slot t (index (suc k) v))) ≡ c
    → translate (suc k) t v m ≡ translate k c v m
unfolding translate
translate-into k t v c m on small a = rw (on, small, a) refl

-- Two walks through the same entry, that translate alike below it.
pub translate-entry :
    (k t u v : ℕ) (m m' : Words)
    → m' (slot u (index (suc k) v)) ≡ m (slot t (index (suc k) v))
    → (descends (m (slot t (index (suc k) v))) ≡ true
        → translate k (address (m (slot t (index (suc k) v)))) v m'
          ≡ translate k (address (m (slot t (index (suc k) v)))) v m)
    → translate (suc k) u v m' ≡ translate (suc k) t v m
unfolding translate descends
translate-entry k t u v m m' e below =
    let a : ℕ = m (slot t (index (suc k) v)) in
    elim (Bool-cases (is_present a)) [
      | inr absent ↦ rw (e, absent) refl
      | inl present ↦ elim (Bool-cases (is_huge a)) [
        | inl large ↦ rw (e, present, large) refl
        | inr small ↦ rw (e, present, small) (below (ground (arith, present, small)))
      ]
    ]

-- A walk sees the entries of tables only.
pub translate-agree :
    (ts : Tables) (mem mem' : Words)
    → IsTree ts mem
    → ((u j i : ℕ) → ts.height u ≡ suc j → i < 512 → mem' (slot u i) ≡ mem (slot u i))
    → (k t v : ℕ) → ts.height t ≡ suc k
    → translate k t v mem' ≡ translate k t v mem
unfolding translate
translate-agree ts mem mem' tree agree zero t v ht =
    rw (agree t 0 (index 0 v) ht (index_lt 0 v)) refl
translate-agree ts mem mem' tree agree (suc k) t v ht =
    translate-entry k t t v mem mem' (agree t (suc k) (index (suc k) v) ht (index_lt (suc k) v))
      (λ d.
        let (h, _) = tree.child t k (index (suc k) v) ht (index_lt (suc k) v) d in
        translate-agree ts mem mem' tree agree k (address (mem (slot t (index (suc k) v)))) v h)
