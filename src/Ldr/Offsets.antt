-- ===== src/Ldr/Offsets.antt =====
-- RvaToOff of the PE loader: the section that holds an RVA, and the offset of its byte in the file.
use micro_nt.Base.{
  ℕ, zero, suc, ◌+◌, ◌-◌, ◌*◌, ◌%◌, ◌^◌, ◌≤◌, ◌<◌, ◌≡◌, refl, inl, inr, ◌&&◌, ltb, leb, ◌==◌, arith,
  Bool-cases,
}
use micro_nt.Ldr.{Image, read16, read32, rva_to_off, image_off}

-- The k-th section, of those whose headers start at `shdrs`, holds the RVA.
pub record Covers (d : Image) (shdrs k rva : ℕ) : Type 0 where
  pub from : read32 d (shdrs + k * 40 + 12) ≤ rva
  pub below : rva < (read32 d (shdrs + k * 40 + 12) + read32 d (shdrs + k * 40 + 8)) % 2 ^ 32

-- What an RVA becomes over the sections from `first` on.
pub data Offset (d : Image) (shdrs first n rva o : ℕ) : Type 0 where
  inside :
      (k : ℕ)
      → first ≤ k
      → k < first + n
      → Covers d shdrs k rva
      → ((j : ℕ) → first ≤ j → j < k → ¬ Covers d shdrs j rva)
      → o ≡ (read32 d (shdrs + k * 40 + 20) + (rva - read32 d (shdrs + k * 40 + 12))) % 2 ^ 32
      → Offset d shdrs first n rva o
  outside :
      ((j : ℕ) → first ≤ j → j < first + n → ¬ Covers d shdrs j rva)
      → o ≡ 0
      → Offset d shdrs first n rva o

-- No number from `i` on has the property if `i` and the later ones have not.
pub from_next :
    (i top : ℕ) (P : ℕ → Type 0)
    → ¬ P i
    → ((j : ℕ) → i + 1 ≤ j → j < top → ¬ P j)
    → (j : ℕ) → i ≤ j
    → j < top
    → ¬ P j
from_next i top P here later j lo hi = elim (Bool-cases (j == i)) [
  | inl same ↦ let e : j ≡ i = ground arith in rw e here
  | inr other ↦ later j (ground (arith, lo, other)) hi
]

Offset-suc :
    (d : Image) (shdrs i n rva o : ℕ)
    → ¬ Covers d shdrs i rva
    → Offset d shdrs (i + 1) n rva o
    → Offset d shdrs i (suc n) rva o
Offset-suc d shdrs i n rva o other (inside k lo hi here earlier at) =
    inside k (omega (arith, lo)) (omega (arith, hi)) here
      (from_next i k (λ j. Covers d shdrs j rva) other earlier) at
Offset-suc d shdrs i n rva o other (outside no_section zeroed) =
    outside
      (λ j lo hi.
        from_next i (i + 1 + n) (λ j. Covers d shdrs j rva) other no_section j lo
          (omega (arith, hi)))
      zeroed

rva_to_off-Offset :
    (n i shdrs : ℕ) (d : Image) (rva : ℕ) → Offset d shdrs i n rva (rva_to_off n i shdrs d rva)
unfolding rva_to_off
rva_to_off-Offset zero i shdrs d rva = outside (λ j lo hi. absurd (omega (arith, lo, hi))) refl
rva_to_off-Offset (suc n) i shdrs d rva =
    let v_rva = read32 d (shdrs + i * 40 + 12) in
    let v_size = read32 d (shdrs + i * 40 + 8) in
    elim (Bool-cases (leb v_rva rva && ltb rva ((v_rva + v_size) % 2 ^ 32))) [
      | inl here ↦ rw here (
          inside i (omega arith) (omega arith)
            (record { from = ground (arith, here); below = ground (arith, here) })
            (λ j lo hi. absurd (omega (arith, lo, hi))) refl)
      | inr other ↦ rw other (
          Offset-suc d shdrs i n rva (rva_to_off n (i + 1) shdrs d rva)
            (λ c. ground (arith, other, c.from, c.below)) (rva_to_off-Offset n (i + 1) shdrs d rva))
    ]

-- The sections of an image: the headers behind the optional header, as many as the file header says.
pub Located : Image → ℕ → ℕ → Type 0
Located d rva o =
    Offset d (read32 d 60 + 24 + read16 d (read32 d 60 + 20)) 0 (read16 d (read32 d 60 + 6)) rva o

pub image_off-Located : (d : Image) (rva : ℕ) → Located d rva (image_off d rva)
unfolding image_off Located
image_off-Located d rva =
    let n = read16 d (read32 d 60 + 6) in
    let shdrs = read32 d 60 + 24 + read16 d (read32 d 60 + 20) in
    let sections : read32 d 60 + 4 + 2 ≡ read32 d 60 + 6 = omega arith in
    let opt_size : read32 d 60 + 4 + 16 ≡ read32 d 60 + 20 = omega arith in
    let opt : read32 d 60 + 4 + 20 ≡ read32 d 60 + 24 = omega arith in
    rw (sections, opt_size, opt) (rva_to_off-Offset n 0 shdrs d rva)
