-- ===== src/Hal/Ring/Queue.antt =====
-- A ring buffer as the queue of the items that it holds.
use micro_nt.Base.{
  ℕ, ◌+◌, ◌-◌, ◌%◌, ◌<◌, ◌≡◌, refl, ap, ◌∙◌, ◌≢◌, inl, inr, true, false, Option, none, some, List,
  [], ◌∷◌, ◌++◌, length, length-append, ltb, ◌==◌, if◌then◌else◌, arith, update, update_self,
  update_ne, Bool-cases,
}
use native.Mathlib.Nat.{mod-eq_of_lt, mod_self}
use micro_nt.Hal.Ring.{Ring, push, try_read}

-- The slots from the first one to the second, going round.
abbrev dist : ℕ → ℕ → ℕ → ℕ
dist cap h t = if ltb t h then t + cap - h else t - h

next_slot : (cap i : ℕ) → i < cap → (i + 1) % cap ≡ (if i + 1 == cap then 0 else i + 1)
next_slot cap i lt = elim (Bool-cases (i + 1 == cap)) [
  | inl last ↦ let e : i + 1 ≡ cap = ground arith in rw last (rw e (mod_self cap))
  | inr inside ↦ rw inside (mod-eq_of_lt (ground arith))
]

module _ {ℓ} {A : Type ℓ} where
  -- The slots from `h` on hold the items.
  unfoldable pub Cells : ℕ → (ℕ → A) → ℕ → List A → Type ℓ
  Cells cap f h [] = Unit
  Cells cap f h (x ∷ xs) = (f h ≡ x) × Cells cap f ((h + 1) % cap) xs

  pub record Holds (cap : ℕ) (r : Ring A) (xs : List A) : Type ℓ where
    pub cells : Cells cap r.ring r.head xs
    pub size : length xs ≡ dist cap r.head r.tail
    pub head_in : r.head < cap
    pub tail_in : r.tail < cap

  -- A write at the end of the cells extends them.
  Cells-update :
      (cap : ℕ) (f : ℕ → A) (h t : ℕ) (xs : List A) (c : A)
      → h < cap
      → t < cap
      → length xs ≡ dist cap h t
      → Cells cap f h xs
      → Cells cap (update f t c) h (xs ++ c ∷ [])
  unfolding Cells
  Cells-update cap f h t [] c hl tl n cells =
      let e : h ≡ t = ground arith in rw e (update_self f t c, _)
  Cells-update cap f h t (x ∷ xs) c hl tl n (here, more) =
      let ne : h ≢ t = λ e. absurd (ground (arith, n, e)) in
      let at : (h + 1) % cap ≡ (if h + 1 == cap then 0 else h + 1) = next_slot cap h hl in
      (
        update_ne f t h c ne ∙ here,
        Cells-update cap f ((h + 1) % cap) t xs c (rw at (ground (arith, hl))) tl
            (rw at (ground (arith, n, hl, tl))) more,
      )

  -- An item that is pushed is the last one, if there is room, and is dropped otherwise.
  pub push-Holds :
      (cap : ℕ) (c : A) (r : Ring A) (xs : List A)
      → 1 < cap
      → Holds cap r xs
      → Holds cap (push cap c r) (if ltb (length xs + 1) cap then xs ++ c ∷ [] else xs)
  unfolding push
  push-Holds cap c r xs wide v =
      let at = next_slot cap r.tail v.tail_in in
      elim (Bool-cases ((r.tail + 1) % cap == r.head)) [
        | inl full ↦
            let no_room : ltb (length xs + 1) cap ≡ false =
              ground (arith, v.size, at, full, v.head_in, v.tail_in) in
            rw (full, no_room) v
        | inr open_slot ↦
            let room : ltb (length xs + 1) cap ≡ true =
              ground (arith, v.size, at, open_slot, v.head_in, v.tail_in) in
            rw (open_slot, room)
              (record {
                cells =
                    Cells-update cap r.ring r.head r.tail xs c v.head_in v.tail_in v.size v.cells;
                size =
                    length-append xs (c ∷ [])
                    ∙ rw at (ground (arith, v.size, at, open_slot, v.head_in, v.tail_in));
                head_in = v.head_in;
                tail_in = rw at (ground (arith, v.tail_in));
              })
      ]

  abbrev pub first : List A → Option A
  first [] = none
  first (x ∷ xs) = some x

  abbrev pub rest : List A → List A
  rest [] = []
  rest (x ∷ xs) = xs

  -- A read takes the first item.
  pub try_read-Holds :
      (cap : ℕ) (r : Ring A) (xs : List A)
      → Holds cap r xs
      → let (out, r') = try_read cap r in (out ≡ first xs) × Holds cap r' (rest xs)
  unfolding try_read Cells
  try_read-Holds cap r [] v =
      let hit : r.head == r.tail ≡ true = ground (arith, v.size, v.head_in, v.tail_in) in
      rw hit (refl, v)
  try_read-Holds cap r (x ∷ xs) v =
      let miss : r.head == r.tail ≡ false = ground (arith, v.size, v.head_in, v.tail_in) in
      let at = next_slot cap r.head v.head_in in
      rw miss (
        ap some (v.cells.0),
        record {
          cells = v.cells.1;
          size = rw at (ground (arith, v.size, v.head_in, v.tail_in));
          head_in = rw at (ground (arith, v.head_in));
          tail_in = v.tail_in;
        },
      )
