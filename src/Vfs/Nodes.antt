-- ===== src/Vfs/Nodes.antt =====
-- The table of writable nodes: lookup, creation and deletion by name.
pub mod Search
use micro_nt.Base.{
  lt→ltb, replicate, length-replicate, ℕ, zero, suc, ◌+◌, ◌-◌, ◌≤◌, ◌<◌, ◌≡◌, refl, ap, sym, subst,
  ◌∙◌, ◌≢◌, ◌⊎◌, Bool, true, false, ◌&&◌, not, Option, none, some, List, [], ◌∷◌, ◌==◌, ltb,
  if◌then◌else◌, arith, length, get_elem?, set, take, length-set, length-take, take-all,
  get_elem?-set_self, get_elem?-set_ne, Bool-cases, inl, inr,
}
use micro_nt.Vfs.{
  WNode, blank, named, wnode_max, wnode_name_max, wnode_data_max, str_ieq, wfind_from, wfind,
  first_unused, wfind_or_create, mkdir, delete,
}
use micro_nt.Vfs.Names.{str_ieq_refl, str_ieq-sym, str_ieq_trans, length-str_ieq}
use micro_nt.Vfs.Nodes.Search.{
  answers, Hit, wfind-le, wfind-Hit, wfind-miss, wfind-none, wfind-set, first_unused-hit,
  first_unused-free,
}

-- Sixteen slots; the nodes in use have names and sizes that fit their arrays, and no two of them
-- have the same name up to case.
pub record Inv (ns : List WNode) : Type 0 where
  pub slots : length ns ≡ wnode_max
  pub short : (i : ℕ) (n : WNode) → get_elem? ns i ≡ some n → length n.name < wnode_name_max
  pub sized : (i : ℕ) (n : WNode) → get_elem? ns i ≡ some n → n.size ≤ wnode_data_max
  pub unique :
      (i j : ℕ) (n m : WNode)
      → get_elem? ns i ≡ some n
      → get_elem? ns j ≡ some m
      → n.used ≡ true
      → answers n.name m ≡ true
      → i ≡ j

-- The node at a slot after a write to slot `k`.
set-cases :
    (ns : List WNode) (k : ℕ) (v : WNode) (i : ℕ) (n : WNode)
    → k < length ns
    → get_elem? (set ns k v) i ≡ some n
    → ((i ≡ k) × (n ≡ v)) ⊎ ((i ≢ k) × (get_elem? ns i ≡ some n))
set-cases ns k v i n h e = elim (Bool-cases (i == k)) [
  | inl same ↦
      let i-k : i ≡ k = ground arith in let self = get_elem?-set_self ns k v h in inl (i-k, cc)
  | inr other ↦ inr (ground arith, sym (get_elem?-set_ne ns k i v (ground arith)) ∙ e)
]

-- Writing a node that clashes with no other keeps the invariant.
pub set-Inv :
    (ns : List WNode) (k : ℕ) (v : WNode)
    → Inv ns
    → k < wnode_max
    → length v.name < wnode_name_max
    → v.size ≤ wnode_data_max
    → ((j : ℕ) (m : WNode)
        → j ≢ k
        → get_elem? ns j ≡ some m
        → v.used ≡ true
        → answers v.name m ≡ false)
    → Inv (set ns k v)
set-Inv ns k v inv hk short sized clash = record {
  slots = length-set ns k v ∙ inv.slots;
  short = λ i n e. elim (set-cases ns k v i n (omega (arith, inv.slots)) e) [
    | inl (_, same) ↦ rw same short
    | inr (_, old) ↦ inv.short i n old
  ];
  sized = λ i n e. elim (set-cases ns k v i n (omega (arith, inv.slots)) e) [
    | inl (_, same) ↦ rw same sized
    | inr (_, old) ↦ inv.sized i n old
  ];
  unique = λ i j n m e f u a. elim (set-cases ns k v i n (omega (arith, inv.slots)) e) [
    | inl (i-k, n-v) ↦ elim (set-cases ns k v j m (omega (arith, inv.slots)) f) [
      | inl (j-k, _) ↦ i-k ∙ sym j-k
      | inr (j-ne, old) ↦ absurd (
          cc (
            clash j m j-ne old (subst (λ (x : WNode). x.used ≡ true) n-v u),
            subst (λ (x : WNode). answers x.name m ≡ true) n-v a,
          ))
    ]
    | inr (i-ne, old) ↦ elim (set-cases ns k v j m (omega (arith, inv.slots)) f) [
      | inl (_, m-v) ↦ absurd (
          ground (
            arith,
            clash i n i-ne old,
            str_ieq-sym v.name n.name,
            subst (λ (x : WNode). answers n.name x ≡ true) m-v a,
          ))
      | inr (_, old') ↦ inv.unique i j n m old old' u a
    ]
  ];
}

pub replicate-blank : (n j : ℕ) (m : WNode) → get_elem? (replicate n blank) j ≡ some m → m ≡ blank
replicate-blank zero j m e = cc
replicate-blank (suc n) zero m e = cc
replicate-blank (suc n) (suc j) m e = replicate-blank n j m e

-- The table that Init starts from.
pub empty-Inv : Inv (replicate wnode_max blank)
empty-Inv = record {
  slots = length-replicate wnode_max blank;
  short = λ i n e. rw (replicate-blank wnode_max i n e) (omega arith);
  sized = λ i n e. rw (replicate-blank wnode_max i n e) (omega arith);
  unique = λ i j n m e f u a.
      absurd (cc (subst (λ (x : WNode). x.used ≡ true) (replicate-blank wnode_max i n e) u));
}

name-named : (name : List ℕ) (d : Bool) → length name < wnode_name_max → (named name d).name ≡ name
unfolding named
name-named name d short = take-all 63 name (omega arith)

-- A node in the table that answers to a name keeps the name within its array.
long_misses :
    (name : List ℕ) (ns : List WNode)
    → Inv ns
    → wnode_name_max ≤ length name
    → wfind name ns ≡ wnode_max
unfolding wfind
long_misses name ns inv long =
    wfind-none 0 name ns (λ j n e. ground (arith, inv.short j n e, length-str_ieq n.name name))

-- What WFindOrCreate does: it finds the node, or takes a free slot, or the table is full.
pub data Creates (name : List ℕ) (d : Bool) (ns : List WNode) : ℕ × List WNode → Type 0 where
  found :
      (h : Hit name 0 ns (wfind name ns))
      → wfind name ns < wnode_max
      → Creates name d ns (wfind name ns, ns)
  created :
      (k : ℕ)
      → wnode_max ≤ wfind name ns
      → k < wnode_max
      → ((n : WNode) → get_elem? ns k ≡ some n → n.used ≡ false)
      → Creates name d ns (k, set ns k (named name d))
  full :
      wnode_max ≤ wfind name ns → wnode_max ≤ first_unused 0 ns → Creates name d ns (wnode_max, ns)

-- WFindOrCreate returns the first node that answers to the name and changes nothing, or, when
-- there is none, writes a node of that name to a slot that is not in use, or returns 16 and
-- changes nothing when no slot is free.
pub wfind_or_create-Creates :
    (name : List ℕ) (d : Bool) (ns : List WNode) → Creates name d ns (wfind_or_create name d ns)
unfolding wfind_or_create
wfind_or_create-Creates name d ns = elim (Bool-cases (ltb (wfind name ns) wnode_max)) [
  | inl hit ↦ rw (hit, wfind_or_create) (found (wfind-Hit 0 name ns (ground arith)) (ground arith))
  | inr missing ↦ elim (Bool-cases (ltb (first_unused 0 ns) wnode_max)) [
    | inl room ↦
        rw (missing, room, wfind_or_create)
          (created _ (ground arith) (ground arith)
            (λ n e. first_unused-free 0 ns _ n (omega arith) (ground arith) e))
    | inr none_left ↦ rw (missing, none_left, wfind_or_create) (full (ground arith) (ground arith))
  ]
]

Creates-Inv :
    (name : List ℕ) (d : Bool) (ns : List WNode) (r : ℕ × List WNode)
    → Inv ns
    → length name < wnode_name_max
    → Creates name d ns r
    → Inv r.1
Creates-Inv name d ns r inv short (found h hit) = inv
Creates-Inv name d ns r inv short (created k miss lt free) =
    set-Inv ns k (named name d) inv lt (rw (name-named name d short) short)
      (unfold named in omega arith)
      (λ j m ne e u.
        rw (name-named name d short)
          (wfind-miss 0 name ns j m (omega (arith, inv.slots)) (unfold wfind in miss) e))
Creates-Inv name d ns r inv short (full miss none_left) = inv

-- Creating a node keeps the table well formed, if the name fits its array.
pub wfind_or_create-Inv :
    (name : List ℕ) (d : Bool) (ns : List WNode)
    → Inv ns
    → length name < wnode_name_max
    → Inv (wfind_or_create name d ns).1
wfind_or_create-Inv name d ns inv short =
    Creates-Inv name d ns _ inv short (wfind_or_create-Creates name d ns)

Creates-wfind :
    (name : List ℕ) (d : Bool) (ns : List WNode) (r : ℕ × List WNode)
    → Inv ns
    → length name < wnode_name_max
    → Creates name d ns r
    → wfind name r.1 ≡ r.0
unfolding wfind
Creates-wfind name d ns r inv short (found h hit) = refl
Creates-wfind name d ns r inv short (created k miss lt free) =
    wfind-set 0 name ns k (named name d) (omega (arith, inv.slots)) miss (omega (arith, inv.slots))
      (rw (name-named name d short) (unfold named in str_ieq_refl name))
    ∙ omega arith
Creates-wfind name d ns r inv short (full miss none_left) =
    omega (arith, wfind-le 0 name ns (omega (arith, inv.slots)))

-- In a well-formed table, and for a name shorter than 64 bytes, WFind after WFindOrCreate gives
-- the index that WFindOrCreate returned, 16 where the table was full.
pub wfind-wfind_or_create :
    (name : List ℕ) (d : Bool) (ns : List WNode)
    → Inv ns
    → length name < wnode_name_max
    → wfind name (wfind_or_create name d ns).1 ≡ (wfind_or_create name d ns).0
wfind-wfind_or_create name d ns inv short =
    Creates-wfind name d ns _ inv short (wfind_or_create-Creates name d ns)

length-named : (name : List ℕ) (d : Bool) → length (named name d).name < wnode_name_max
unfolding named
length-named name d = omega (arith, length-take 63 name)

-- In a well-formed table with a free slot, MkDir with a name of 64 bytes or more reports success,
-- and the name is not found afterwards.
pub mkdir_long :
    (c : ℕ) (cs : List ℕ) (ns : List WNode)
    → Inv ns
    → wnode_name_max ≤ length (c ∷ cs)
    → first_unused 0 ns < wnode_max
    → ((mkdir (c ∷ cs) ns).0 ≡ true) × (wfind (c ∷ cs) (mkdir (c ∷ cs) ns).1 ≡ wnode_max)
unfolding mkdir wfind_or_create
mkdir_long c cs ns inv long room =
    let miss = long_misses (c ∷ cs) ns inv long in
    let test : ltb (wfind (c ∷ cs) ns) wnode_max ≡ false = ground arith in
    let free = lt→ltb _ _ room in rw (test, free, mkdir, wfind_or_create) (free, lost)
  where
    kept :
        (j : ℕ) (n : WNode)
        → get_elem? (set ns (first_unused 0 ns) (named (c ∷ cs) true)) j ≡ some n
        → answers (c ∷ cs) n ≡ false
    kept j n e = elim (set-cases ns _ _ j n (omega (arith, inv.slots)) e) [
      | inl (_, new) ↦ rw new (
          ground
            (arith, length-named (c ∷ cs) true, length-str_ieq (named (c ∷ cs) true).name (c ∷ cs)))
      | inr (_, old) ↦ ground (arith, inv.short j n old, length-str_ieq n.name (c ∷ cs))
    ]

    lost : wfind (c ∷ cs) (set ns (first_unused 0 ns) (named (c ∷ cs) true)) ≡ wnode_max
    lost = unfold wfind in wfind-none 0 (c ∷ cs) _ kept

-- Delete keeps the table well formed.
pub delete-Inv : (name : List ℕ) (ns : List WNode) → Inv ns → Inv (delete name ns).1
unfolding delete
delete-Inv name ns inv = elim (Bool-cases (ltb (wfind name ns) wnode_max)) [
  | inl hit ↦
      rw (hit, delete)
        (set-Inv ns _ blank inv (ground arith) (omega arith) (omega arith) (λ j m ne e u. cc))
  | inr missing ↦ rw (missing, delete) inv
]

Hit-wfind :
    (name : List ℕ) (ns : List WNode) (k : ℕ)
    → Inv ns
    → k < wnode_max
    → Hit name 0 ns k
    → wfind name (set ns k blank) ≡ wnode_max
unfolding wfind
Hit-wfind name ns k inv lt h = wfind-none 0 name _ λ j n e.
    elim (set-cases ns k blank j n (omega (arith, inv.slots)) e) [
      | inl (_, new) ↦ rw new
      | inr (ne, old) ↦ elim (Bool-cases (answers name n)) [
        | inl same ↦ absurd (ne (sym (again j n old same)))
        | inr other ↦ other
      ]
    ]
  where
    slot : k ≡ h.slot
    slot = omega (arith, h.at)

    again : (j : ℕ) (n : WNode) → get_elem? ns j ≡ some n → answers name n ≡ true → k ≡ j
    again j n old same =
        slot
        ∙ inv.unique h.slot j h.node n h.there old (ground (arith, h.matches)) (
            ground (
              arith,
              h.matches,
              str_ieq-sym h.node.name name,
              str_ieq_trans n.name name h.node.name,
            ))

-- In a well-formed table, no node answers to a name after Delete of that name.
pub wfind-delete :
    (name : List ℕ) (ns : List WNode) → Inv ns → wfind name (delete name ns).1 ≡ wnode_max
unfolding delete
wfind-delete name ns inv = elim (Bool-cases (ltb (wfind name ns) wnode_max)) [
  | inl hit ↦
      rw (hit, delete)
        (Hit-wfind name ns _ inv (ground arith)
          (unfold wfind in wfind-Hit 0 name ns (ground arith)))
  | inr missing ↦ rw (missing, delete) (ground (arith, bounded))
]
  where
    bounded : wfind name ns ≤ wnode_max
    bounded = unfold wfind in wfind-le 0 name ns (omega (arith, inv.slots))
