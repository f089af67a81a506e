-- ===== src/KernelHeap/Alloc.antt =====
-- One call of Alloc: the block that it grants, and when it refuses.
use micro_nt.Base.{
  ℕ, zero, suc, ◌+◌, ◌%◌, ◌^◌, ◌≤◌, ◌<◌, ◌≡◌, inl, inr, refl, ltb, ◌==◌, if◌then◌else◌, update,
  arith, false, Bool-cases, ◌&&◌, leb,
}
use micro_nt.Ntdef.{word_mod, align_up}
use micro_nt.Ntdef.Laws.{align_up_bounds, pow-pos}
use micro_nt.KernelHeap.{Heap, Memory, zero_bytes, next_offset, alloc, alloc_zeroed}

-- The arena lies in the address space above 0, with room for one alignment past its end.
pub record Inv (limit : ℕ) (h : Heap) : Type 0 where
  pub above_null : 0 < h.base
  pub room : h.base + h.size + limit ≤ word_mod
  pub within : h.used ≤ h.size

-- What a request for `n` bytes at an alignment of `2 ^ k` returns.
pub data Grants (h : Heap) (n k : ℕ) : ℕ × Heap → Type 0 where
  refused : h.size < next_offset h (2 ^ k) + n → Grants h n k (0, h)
  granted :
      (p used : ℕ)
      → 0 < p
      → p % 2 ^ k ≡ 0
      → h.base + h.used ≤ p
      → p < h.base + h.used + 2 ^ k
      → p + n ≡ h.base + used
      → used ≤ h.size
      → Grants h n k (p, record h { used = used })

module _ (k limit : ℕ) (small : k < 64) (le : 2 ^ k ≤ limit) (h : Heap) (v : Inv limit h) where
  -- The next block starts at the first multiple of the alignment past the blocks in use.
  pub next_offset_lem :
      (h.base + next_offset h (2 ^ k) ≡ align_up (h.base + h.used) (2 ^ k))
      × (h.used ≤ next_offset h (2 ^ k))
      × (next_offset h (2 ^ k) < h.used + 2 ^ k)
  unfolding next_offset
  next_offset_lem =
      let plain : (h.base + h.used) % word_mod ≡ h.base + h.used = omega (arith, pow-pos k small) in
      let b = align_up_bounds k small (h.base + h.used) (omega arith) in
      rw (plain, next_offset) (omega (arith, b.0, b.1))

  next_offset_aligned : (h.base + next_offset h (2 ^ k)) % 2 ^ k ≡ 0
  next_offset_aligned =
      rw (next_offset_lem.0) ((align_up_bounds k small (h.base + h.used) (omega arith)).2)

  -- For an arena above null with room for an alignment past its end, and a request that does
  -- not wrap, at an alignment of a power of two, Alloc refuses with null and no change only
  -- what does not fit; otherwise the block is aligned, starts past the blocks in use by less
  -- than one alignment, and ends in the arena at the new count.
  pub alloc-Grants : (n : ℕ) → h.size + 2 ^ k + n ≤ word_mod → Grants h n k (alloc h n (2 ^ k))
  unfolding alloc
  alloc-Grants n fits = elim (Bool-cases (ltb h.size (next_offset h (2 ^ k) + n))) [
    | inl over ↦ rw (sum, over, alloc) (refused (ground arith))
    | inr inside ↦
        rw (sum, inside, start, alloc)
          (granted _ _ (omega (arith, v.above_null)) next_offset_aligned
            (omega (arith, next_offset_lem)) (omega (arith, next_offset_lem)) (omega arith)
            (ground arith))
  ]
    where
      sum : (next_offset h (2 ^ k) + n) % word_mod ≡ next_offset h (2 ^ k) + n
      sum = omega (arith, next_offset_lem)

      start : (h.base + next_offset h (2 ^ k)) % word_mod ≡ h.base + next_offset h (2 ^ k)
      start = omega (arith, next_offset_lem, v.room, v.within, pow-pos k small)

  -- For the same arena, a request whose size takes the sum past 2^64 to `r`, below the count in
  -- use, is granted, and the count becomes `r`.
  pub alloc_wraps :
      (n r : ℕ)
      → next_offset h (2 ^ k) + n ≡ word_mod + r
      → r < h.used
      → alloc h n (2 ^ k) ≡ (h.base + next_offset h (2 ^ k), record h { used = r })
  unfolding alloc
  alloc_wraps n r e below = rw (sum, test, start, alloc)
    where
      sum : (next_offset h (2 ^ k) + n) % word_mod ≡ r
      sum = omega (arith, v.within, v.room)

      test : ltb h.size r ≡ false
      test = ground (arith, v.within)

      start : (h.base + next_offset h (2 ^ k)) % word_mod ≡ h.base + next_offset h (2 ^ k)
      start = omega (arith, next_offset_lem, v.room, v.within, pow-pos k small)

-- AllocZeroed clears its bytes and no others.
pub zero_bytes_lem :
    (n p a : ℕ) (m : Memory) → zero_bytes n p m a ≡ (if leb p a && ltb a (p + n) then 0 else m a)
unfolding zero_bytes
zero_bytes_lem zero p a m = ground arith
zero_bytes_lem (suc n) p a m = ground (arith, zero_bytes_lem n (suc p) a (update m p 0))

-- AllocZeroed returns what Alloc returns; it clears the bytes of the block and no others, and
-- none on null.
pub alloc_zeroed_lem :
    (h : Heap) (m : Memory) (n align a : ℕ)
    → let (p, h', m') = alloc_zeroed h m n align in
      ((p, h') ≡ alloc h n align)
      × (m' a ≡ (if p == 0 then m a else if leb p a && ltb a (p + n) then 0 else m a))
unfolding alloc_zeroed
alloc_zeroed_lem h m n align a = (refl, ground (arith, zero_bytes_lem n (alloc h n align).0 a m))
