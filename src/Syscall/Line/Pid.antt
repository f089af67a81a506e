-- ===== src/Syscall/Line/Pid.antt =====
-- The numbers that the process table shows, read back by `kill`.
use micro_nt.Base.{
  ℕ, zero, suc, ◌+◌, ◌-◌, ◌*◌, ◌%◌, ◌/◌, ◌^◌, ◌<◌, ◌≡◌, refl, sym, ap, ◌∙◌, inl, inr, true, false,
  ◌&&◌, List, [], ◌∷◌, length, ltb, leb, ◌==◌, arith, Bool-cases,
}
use native.Mathlib.Nat.{pow-suc}
use micro_nt.Ldr.{name_eq}
use micro_nt.Syscall.Line.{kill, parse_pid, digits_back, turned, spaces, pfmt, starts, command_of}

-- The digits of a number, and what follows.
parse_pid-digits_back :
    (r v : ℕ) (out : List ℕ)
    → v < 10 ^ r
    → v < 2 ^ 32
    → parse_pid 0 (turned (digits_back r v) out) ≡ parse_pid v out
unfolding digits_back turned parse_pid
parse_pid-digits_back zero v out lt low = ap (λ n. parse_pid n out) (omega (arith, lt))
parse_pid-digits_back (suc r) v out lt low = elim (Bool-cases (v == 0)) [
  | inl done ↦ let e : v ≡ 0 = ground (arith, done) in rw e refl
  | inr more ↦
      let fewer : v / 10 < 10 ^ r = omega (arith, lt, pow-suc 10 r) in
      let digit : (leb b'0' (b'0' + v % 10) && leb (b'0' + v % 10) b'9') ≡ true = ground arith in
      let value : (v / 10 * 10 + (b'0' + v % 10 - b'0')) % 2 ^ 32 ≡ v = omega (arith, low) in
      rw (more, turned)
        (parse_pid-digits_back r (v / 10) ((b'0' + v % 10) ∷ out) fewer (omega (arith, low))
          ∙ rw (digit, value) refl)
]

turned-cons : (x : ℕ) (xs out : List ℕ) → (y : ℕ) × (ys : List ℕ) × (turned xs (x ∷ out) ≡ y ∷ ys)
unfolding turned
turned-cons x [] out = (x, out, refl)
turned-cons x (z ∷ zs) out = turned-cons z zs (x ∷ out)

no_spaces : (xs : List ℕ) → spaces (0 - length xs) ≡ []
unfolding spaces
no_spaces xs = let e : 0 - length xs ≡ 0 = omega arith in rw e refl

pfmt_zero : (v : ℕ) → v == 0 ≡ true → pfmt v 0 ≡ b'0' ∷ []
unfolding pfmt turned
pfmt_zero v e = rw (e, no_spaces (b'0' ∷ [])) refl

pfmt_digits : (v : ℕ) → v == 0 ≡ false → pfmt v 0 ≡ turned (digits_back 20 v) []
unfolding pfmt
pfmt_digits v e = rw (e, no_spaces (digits_back 20 v)) refl

digits_back_some :
    (r v : ℕ) → v == 0 ≡ false → digits_back (suc r) v ≡ (b'0' + v % 10) ∷ digits_back r (v / 10)
unfolding digits_back
digits_back_some r v e = rw e refl

-- `kill`, a blank and more is the command with the number that follows.
command_of-kill :
    (y : ℕ) (ys : List ℕ)
    → command_of (b'k' ∷ (b'i' ∷ (b'l' ∷ (b'l' ∷ (b' ' ∷ (y ∷ ys)))))) ≡ kill (parse_pid 0 (y ∷ ys))
unfolding command_of name_eq starts
command_of-kill y ys =
    let longer : ltb 5 (suc (suc (suc (suc (suc (suc (length ys))))))) ≡ true = ground arith in
    rw longer refl

parsed :
    (v : ℕ) (out : List ℕ)
    → parse_pid 0 out ≡ v
    → pfmt v 0 ≡ out
    → (y : ℕ) × (ys : List ℕ) × (out ≡ y ∷ ys)
    → command_of (b'k' ∷ (b'i' ∷ (b'l' ∷ (b'l' ∷ (b' ' ∷ pfmt v 0))))) ≡ kill v
parsed v out value shown (y, ys, some_digit) =
    ap (λ l. command_of (b'k' ∷ (b'i' ∷ (b'l' ∷ (b'l' ∷ (b' ' ∷ l)))))) (shown ∙ some_digit)
    ∙ command_of-kill y ys
    ∙ ap kill (ap (parse_pid 0) (sym some_digit) ∙ value)

-- For every number below 2^32, the line `kill` with the number as pfmt writes it, without
-- padding, is the command that kills this PID.
pub command_of-pfmt :
    (v : ℕ) → v < 2 ^ 32 → command_of (b'k' ∷ (b'i' ∷ (b'l' ∷ (b'l' ∷ (b' ' ∷ pfmt v 0))))) ≡ kill v
unfolding parse_pid turned
command_of-pfmt v low = elim (Bool-cases (v == 0)) [
  | inl e ↦
      let is : v ≡ 0 = ground (arith, e) in
      parsed v (b'0' ∷ []) (sym is) (pfmt_zero v e) (b'0', [], refl)
  | inr e ↦
      let (y, ys, some_digit) = turned-cons (b'0' + v % 10) (digits_back 19 (v / 10)) [] in
      parsed v (turned (digits_back 20 v) [])
        (parse_pid-digits_back 20 v [] (omega (arith, low)) low) (pfmt_digits v e)
        (y, ys, ap (λ l. turned l []) (digits_back_some 19 v e) ∙ some_digit)
]
