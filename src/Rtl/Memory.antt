-- ===== src/Rtl/Memory.antt =====
-- What the memory routines write, overlapping regions included.
use micro_nt.Base.{
  ℕ, zero, suc, ◌+◌, ◌-◌, ◌%◌, ◌≤◌, ◌<◌, ◌≡◌, refl, sym, ap, ◌∙◌, ◌≢◌, inl, inr, ◌↔◌, Bool, ◌&&◌,
  ltb, leb, ◌==◌, if◌then◌else◌, arith, update, Bool-cases,
}
use micro_nt.Base.Int.{pos}
use micro_nt.Rtl.{memset, memcpy, copy_back, memmove, memcmp, diff}

-- The address is in the region of that length.
unfoldable pub inside : ℕ → ℕ → ℕ → Bool
inside dst len a = leb dst a && ltb a (dst + len)

-- memset writes the low byte of the value to each byte of the region, and changes no other byte.
pub memset_lem :
    (dst val len : ℕ) (mem : ℕ → ℕ) (a : ℕ)
    → memset dst val len mem a ≡ (if inside dst len a then val % 256 else mem a)
unfolding memset inside
memset_lem dst val zero mem a = ground arith
memset_lem dst val (suc len) mem a =
    ground (arith, memset_lem (dst + 1) val len (update mem dst (val % 256)) a)

-- The copy from the start, to a place before the source.
memcpy_lem :
    (dst src len : ℕ) (mem : ℕ → ℕ) (a : ℕ)
    → dst < src
    → memcpy dst src len mem a ≡ (if inside dst len a then mem (src + (a - dst)) else mem a)
unfolding memcpy inside
memcpy_lem dst src zero mem a lt = ground arith
memcpy_lem dst src (suc len) mem a lt =
    memcpy_lem (dst + 1) (src + 1) len _ a (omega (arith, lt)) ∙ step
  where
    step :
        (if inside (dst + 1) len a
          then update mem dst (mem src) (src + 1 + (a - (dst + 1)))
          else update mem dst (mem src) a)
        ≡ (if inside dst (suc len) a then mem (src + (a - dst)) else mem a)
    step = elim (Bool-cases (leb (dst + 1) a)) [
      | inl after ↦
          let le : dst + 1 ≤ a = ground arith in
          let place : src + 1 + (a - (dst + 1)) ≡ src + (a - dst) = omega (arith, le) in
          rw place (ground arith)
      | inr before ↦ elim (Bool-cases (a == dst)) [
        | inl hit ↦
            let e : a ≡ dst = ground arith in
            let place : src + (a - dst) ≡ src = omega (arith, e) in rw place (ground arith)
        | inr miss ↦ ground arith
      ]
    ]

-- The copy from the end, to a place after the source.
copy_back_lem :
    (dst src len : ℕ) (mem : ℕ → ℕ) (a : ℕ)
    → src < dst
    → copy_back dst src len mem a ≡ (if inside dst len a then mem (src + (a - dst)) else mem a)
unfolding copy_back inside
copy_back_lem dst src zero mem a lt = ground arith
copy_back_lem dst src (suc len) mem a lt = copy_back_lem dst src len _ a lt ∙ step
  where
    step :
        (if inside dst len a
          then update mem (dst + len) (mem (src + len)) (src + (a - dst))
          else update mem (dst + len) (mem (src + len)) a)
        ≡ (if inside dst (suc len) a then mem (src + (a - dst)) else mem a)
    step = elim (Bool-cases (a == dst + len)) [
      | inl hit ↦
          let e : a ≡ dst + len = ground arith in
          let place : src + (a - dst) ≡ src + len = omega (arith, e) in rw place (ground arith)
      | inr miss ↦ ground arith
    ]

-- memmove copies the region as it was before the call, however the two regions overlap, and
-- changes no other byte.
pub memmove_lem :
    (dst src len : ℕ) (mem : ℕ → ℕ) (a : ℕ)
    → memmove dst src len mem a ≡ (if inside dst len a then mem (src + (a - dst)) else mem a)
unfolding memmove inside
memmove_lem dst src len mem a = elim (Bool-cases (ltb dst src)) [
  | inl before ↦ rw before (memcpy_lem dst src len mem a (ground arith))
  | inr not_before ↦ elim (Bool-cases (ltb src dst)) [
    | inl after ↦ rw (not_before, after) (copy_back_lem dst src len mem a (ground arith))
    | inr same ↦
        rw (not_before, same)
          (elim (Bool-cases (leb dst a)) [
            | inl past ↦ let place : src + (a - dst) ≡ a = ground arith in rw place (ground arith)
            | inr before ↦ ground arith
          ])
  ]
]

pub diff_zero : (x y : ℕ) → diff x y ≡ pos 0 → x ≡ y
unfolding diff
diff_zero x y e = ground arith

-- The bytes of two regions agree.
pub Same : ℕ → ℕ → ℕ → (ℕ → ℕ) → Type 0
Same a b len mem = (i : ℕ) → i < len → mem (a + i) ≡ mem (b + i)

Same-suc :
    (a b len : ℕ) (mem : ℕ → ℕ)
    → mem a ≡ mem b
    → Same (a + 1) (b + 1) len mem
    → Same a b (suc len) mem
unfolding Same
Same-suc a b len mem e all zero lt =
    let x : a + 0 ≡ a = omega arith in let y : b + 0 ≡ b = omega arith in rw (x, y) e
Same-suc a b len mem e all (suc i) lt =
    let x : a + suc i ≡ a + 1 + i = omega arith in
    let y : b + suc i ≡ b + 1 + i = omega arith in rw (x, y) (all i (omega (arith, lt)))

Same-tail :
    (a b len : ℕ) (mem : ℕ → ℕ)
    → Same a b (suc len) mem
    → (mem a ≡ mem b) × Same (a + 1) (b + 1) len mem
unfolding Same
Same-tail a b len mem all = (
  let x : a ≡ a + 0 = omega arith in
      let y : b ≡ b + 0 = omega arith in ap mem x ∙ all 0 (omega arith) ∙ ap mem (sym y),
  λ i lt.
      let x : a + suc i ≡ a + 1 + i = omega arith in
      let y : b + suc i ≡ b + 1 + i = omega arith in
      ap mem (sym x) ∙ all (suc i) (omega (arith, lt)) ∙ ap mem y,
)

-- memcmp returns 0 exactly when the two regions hold the same bytes.
pub memcmp_zero : (a b len : ℕ) (mem : ℕ → ℕ) → (memcmp a b len mem ≡ pos 0) ↔ Same a b len mem
unfolding memcmp Same
memcmp_zero a b zero mem = (λ e i lt. absurd (omega (arith, lt)), λ all. refl)
memcmp_zero a b (suc len) mem = elim (Bool-cases (mem a == mem b)) [
  | inl same ↦
      let head : mem a ≡ mem b = ground arith in
      let (to, from) = memcmp_zero (a + 1) (b + 1) len mem in
      rw same (λ e. Same-suc a b len mem head (to e), λ all. from (Same-tail a b len mem all).1)
  | inr differ ↦
      let ne : mem a ≢ mem b = ground arith in
      rw differ (
        λ e. absurd (ne (diff_zero (mem a) (mem b) e)),
        λ all. absurd (ne (Same-tail a b len mem all).0),
      )
]
