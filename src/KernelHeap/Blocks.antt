-- ===== src/KernelHeap/Blocks.antt =====
-- A sequence of requests: the blocks that it is granted do not overlap.
use micro_nt.Base.{ℕ, ◌+◌, ◌^◌, ◌≤◌, ◌<◌, ◌≡◌, refl, sym, subst, ne→==, arith, List, [], ◌∷◌}
use micro_nt.Ntdef.{word_mod}
use micro_nt.KernelHeap.{Heap, Block, alloc, alloc_all, granted}
use micro_nt.KernelHeap.Alloc.{Inv, Grants, refused, granted as grants, alloc-Grants}

-- The blocks lie one above the other in `[low, high]`.
abbrev pub Apart : ℕ → ℕ → List Block → Type 0
Apart low high [] = low ≤ high
Apart low high (b ∷ bs) = (low ≤ b.start) × Apart (b.start + b.bytes) high bs

-- No request wraps, and none asks for more than the alignment that the arena leaves room for.
abbrev pub Modest : ℕ → ℕ → List (ℕ × ℕ) → Type 0
Modest limit size [] = Unit {0}
Modest limit size ((n, align) ∷ rs) =
    (k : ℕ) × (k < 64)
    × (align ≡ 2 ^ k)
    × (2 ^ k ≤ limit)
    × (size + 2 ^ k + n ≤ word_mod)
    × Modest limit size rs

step-Apart :
    (limit n k : ℕ) (h : Heap) (r : ℕ × Heap) (bs : List Block) (high : ℕ)
    → Inv limit h
    → Grants h n k r
    → (Inv limit r.1 × (r.1.base ≡ h.base) × (r.1.size ≡ h.size))
      × (Apart (r.1.base + r.1.used) high bs → Apart (h.base + h.used) high (granted r.0 n bs))
unfolding granted
step-Apart limit n k h r bs high v (refused over) = ((v, refl, refl), λ a. a)
step-Apart limit n k h r bs high v (grants p used pos aligned above near ends fits) = (
  (record { above_null = v.above_null; room = v.room; within = fits }, refl, refl),
  λ a. rw (ne→== p 0 (omega arith), granted) (above, subst (λ t. Apart t high bs) (sym ends) a),
)

-- For any sequence of requests whose sizes do not wrap and whose alignments are powers of two
-- within the limit, the blocks that are granted lie in the arena, above the blocks in use, and do
-- not overlap.
pub alloc_all-Apart :
    (limit : ℕ) (rs : List (ℕ × ℕ)) (h : Heap)
    → Inv limit h
    → Modest limit h.size rs
    → Apart (h.base + h.used) (h.base + h.size) (alloc_all h rs).0
unfolding alloc_all
alloc_all-Apart limit [] h v m = omega (arith, v.within)
alloc_all-Apart limit ((n, align) ∷ rs) h v (k, small, power, le, fits, m) =
    let g = alloc-Grants k limit small le h v n fits in
    let step =
      step-Apart limit n k h _ (alloc_all (alloc h n (2 ^ k)).1 rs).0 (h.base + h.size) v g in
    let (inv, base, size) = step.0 in
    let rest =
      alloc_all-Apart limit rs (alloc h n (2 ^ k)).1 inv
        (subst (λ t. Modest limit t rs) (sym size) m) in
    let q = (alloc h n (2 ^ k)).1 in
    let top : q.base + q.size ≡ h.base + h.size = omega (arith, base, size) in
    rw power (step.1 (subst (λ t. Apart (q.base + q.used) t (alloc_all q rs).0) top rest))
