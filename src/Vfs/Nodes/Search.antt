-- ===== src/Vfs/Nodes/Search.antt =====
-- What the searches of the node table find.
use micro_nt.Base.{
  ℕ, zero, suc, ◌+◌, ◌≤◌, ◌<◌, ◌≡◌, refl, Bool, true, false, ◌&&◌, some, List, [], ◌∷◌, arith,
  length, get_elem?, set, Bool-cases, inl, inr,
}
use micro_nt.Vfs.{WNode, wnode_max, str_ieq, wfind_from, first_unused}

-- The node is in use under that name.
abbrev pub answers : List ℕ → WNode → Bool
answers name n = n.used && str_ieq n.name name

pub record Hit (name : List ℕ) (i : ℕ) (ns : List WNode) (k : ℕ) : Type 0 where
  pub slot : ℕ
  pub node : WNode
  pub at : k ≡ i + slot
  pub there : get_elem? ns slot ≡ some node
  pub matches : answers name node ≡ true

pub wfind-Hit :
    (i : ℕ) (name : List ℕ) (ns : List WNode)
    → wfind_from i name ns < wnode_max
    → Hit name i ns (wfind_from i name ns)
unfolding wfind_from
wfind-Hit i name [] h = absurd (omega arith)
wfind-Hit i name (n ∷ ns) h = elim (Bool-cases (answers name n)) [
  | inl yes_it ↦
      rw (yes_it, wfind_from)
        (record { slot = 0; node = n; at = omega arith; there = refl; matches = yes_it })
  | inr other ↦
      let h' : wfind_from (suc i) name ns < wnode_max = rw (other, wfind_from) at h in
      let r = wfind-Hit (suc i) name ns h' in
      rw (other, wfind_from)
        (record {
          slot = suc r.slot;
          node = r.node;
          at = omega (arith, r.at);
          there = r.there;
          matches = r.matches;
        })
]

pub wfind-miss :
    (i : ℕ) (name : List ℕ) (ns : List WNode) (j : ℕ) (n : WNode)
    → i + length ns ≤ wnode_max
    → wnode_max ≤ wfind_from i name ns
    → get_elem? ns j ≡ some n
    → answers name n ≡ false
unfolding wfind_from
wfind-miss i name [] j n fits h e = cc
wfind-miss i name (x ∷ ns) zero n fits h e = ground arith
wfind-miss i name (x ∷ ns) (suc j) n fits h e = ground (arith, wfind-miss (suc i) name ns j n)

pub wfind-none :
    (i : ℕ) (name : List ℕ) (ns : List WNode)
    → ((j : ℕ) (n : WNode) → get_elem? ns j ≡ some n → answers name n ≡ false)
    → wfind_from i name ns ≡ wnode_max
unfolding wfind_from
wfind-none i name [] h = refl
wfind-none i name (n ∷ ns) h =
    ground (arith, h 0 n refl, wfind-none (suc i) name ns (λ j m e. h (suc j) m e))

-- The first node that answers to a name, after a node with that name is written to slot `j`.
pub wfind-set :
    (i : ℕ) (name : List ℕ) (ns : List WNode) (j : ℕ) (n : WNode)
    → i + length ns ≤ wnode_max
    → wnode_max ≤ wfind_from i name ns
    → j < length ns
    → answers name n ≡ true
    → wfind_from i name (set ns j n) ≡ i + j
unfolding wfind_from
wfind-set i name [] j n fits h lt m = absurd (omega arith)
wfind-set i name (x ∷ ns) zero n fits h lt m = ground arith
wfind-set i name (x ∷ ns) (suc j) n fits h lt m = ground (arith, wfind-set (suc i) name ns j n)

pub first_unused-hit :
    (i : ℕ) (ns : List WNode)
    → first_unused i ns < wnode_max
    → (i ≤ first_unused i ns) × (first_unused i ns < i + length ns)
unfolding first_unused
first_unused-hit i [] h = absurd (omega arith)
first_unused-hit i (n ∷ ns) h = ground (arith, first_unused-hit (suc i) ns)

pub first_unused-free :
    (i : ℕ) (ns : List WNode) (j : ℕ) (n : WNode)
    → first_unused i ns ≡ i + j
    → first_unused i ns < wnode_max
    → get_elem? ns j ≡ some n
    → n.used ≡ false
unfolding first_unused
first_unused-free i [] j n e h at = cc
first_unused-free i (x ∷ ns) zero n e h at = ground (arith, first_unused-hit (suc i) ns)
first_unused-free i (x ∷ ns) (suc j) n e h at = ground (arith, first_unused-free (suc i) ns j n)

pub wfind-le :
    (i : ℕ) (name : List ℕ) (ns : List WNode)
    → i + length ns ≤ wnode_max
    → wfind_from i name ns ≤ wnode_max
unfolding wfind_from
wfind-le i name [] h = omega arith
wfind-le i name (n ∷ ns) h = ground (arith, wfind-le (suc i) name ns)
