-- ===== src/Rtl/Strings.antt =====
-- What strncpy writes for a string shorter than its bound.
use micro_nt.Base.{
  ℕ, zero, suc, ◌+◌, ◌≤◌, ◌<◌, ◌≡◌, ap, sym, ◌∙◌, ◌≢◌, ◌==◌, ◌&&◌, ltb, leb, if◌then◌else◌, true,
  false, arith, update,
}
use micro_nt.Rtl.{pad, strncpy}

pad_lem :
    (d n : ℕ) (mem : ℕ → ℕ) (a : ℕ)
    → pad d n mem a ≡ (if leb d a && ltb a (d + n) then 0 else mem a)
unfolding pad
pad_lem d zero mem a = ground arith
pad_lem d (suc n) mem a = ground (arith, pad_lem (d + 1) n (update mem d 0) a)

-- For a string of fewer than `n` bytes that lies before the destination, strncpy with the bound
-- `n` leaves a zero in the byte after the `n` bytes of the destination, whatever was there.
pub strncpy_past :
    (k n dst src : ℕ) (mem : ℕ → ℕ)
    → k < n
    → src + k < dst
    → ((j : ℕ) → j < k → mem (src + j) ≢ 0)
    → mem (src + k) ≡ 0
    → strncpy dst src n mem (dst + n) ≡ 0
unfolding strncpy
strncpy_past k zero dst src mem lt before text end = absurd (omega (arith, lt))
strncpy_past zero (suc n) dst src mem lt before text end =
    let here : src + 0 ≡ src = omega arith in
    let ends : mem src == 0 ≡ true = ground (arith, ap mem here) in
    rw ends (ground (arith, pad_lem (dst + 1) (suc n) (update mem dst (mem src)) (dst + suc n)))
strncpy_past (suc k) (suc n) dst src mem lt before text end =
    let here : src + 0 ≡ src = omega arith in
    let goes_on : mem src == 0 ≡ false = ground (arith, text 0 (omega arith), ap mem here) in
    let place : dst + suc n ≡ dst + 1 + n = omega arith in
    let next : ℕ → ℕ = update mem dst (mem src) in
    let same : (j : ℕ) → j ≤ k → next (src + 1 + j) ≡ mem (src + suc j) =
      λ j le. ap next {y = src + suc j} (omega arith) ∙ ground arith in
    rw (goes_on, place)
      (strncpy_past k n (dst + 1) (src + 1) next (omega (arith, lt)) (omega (arith, before))
        (λ j lj z. text (suc j) (omega (arith, lj)) (sym (same j (omega (arith, lj))) ∙ z))
        (same k (omega arith) ∙ end))
