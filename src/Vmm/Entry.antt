-- ===== src/Vmm/Entry.antt =====
-- The fields of a page table entry.
use Prim.Native.Nat.{max}
use micro_nt.Base.{ℕ, ◌*◌, ◌/◌, ◌%◌, ◌^◌, ◌<◌, ◌≡◌, refl, ap, ◌∙◌, true, false, ◌==◌, arith, bit_or}
use micro_nt.Base.Bits.{
  bit_or_step, bit_and-ones, bit_or-div_pow, bit_or-mod_pow, bit_or-zero, bit_at-bit_or,
}
use micro_nt.Ntdef.Laws.{align_mask}
use micro_nt.Vmm.{pte_present, pte_writable, pte_user, is_present, is_huge, address, make_pte}

-- The page frame of an entry, at its 4096 bytes.
pub address_lem : (e : ℕ) → address e ≡ e / 4096 % 2 ^ 40 * 4096
unfolding address
address_lem e = align_mask 12 40 e

pub is_present_lem : (e : ℕ) → is_present e ≡ (e % 2 == 1)
unfolding is_present
is_present_lem e = ground (arith, bit_and-ones 1 e)

pub is_huge_lem : (e : ℕ) → is_huge e ≡ (e / 128 % 2 == 1)
unfolding is_huge
is_huge_lem e = ground (arith, align_mask 7 1 e)

-- The value that get_or_alloc writes.
abbrev pub table_entry : ℕ → ℕ
table_entry phys = bit_or (bit_or (bit_or phys pte_present) pte_writable) pte_user

module _ (a b : ℕ) where
  or-low : bit_or a b % 2 ≡ max (a % 2) (b % 2)
  or-low = omega (arith, bit_or_step a b)

  or-bit7 : bit_or a b / 128 % 2 ≡ max (a / 128 % 2) (b / 128 % 2)
  or-bit7 = bit_at-bit_or 7 a b

  or-frame : bit_or a b / 4096 ≡ bit_or (a / 4096) (b / 4096)
  or-frame = bit_or-div_pow 12 a b

or-flag_frame : (a f : ℕ) → f < 4096 → bit_or a f / 4096 ≡ a / 4096
or-flag_frame a f small =
    let e : f / 4096 ≡ 0 = omega (arith, small) in
    or-frame a f ∙ ap (bit_or (a / 4096)) e ∙ bit_or-zero (a / 4096)

-- The entry that get_or_alloc writes leads to the new table.
pub table_entry_lem :
    (phys : ℕ)
    → phys % 4096 ≡ 0
    → phys < 2 ^ 52
    → (is_present (table_entry phys) ≡ true)
      × (is_huge (table_entry phys) ≡ false)
      × (address (table_entry phys) ≡ phys)
table_entry_lem phys aligned small =
    let a : ℕ = bit_or phys 1 in
    let b : ℕ = bit_or a 2 in
    (
      is_present_lem (table_entry phys) ∙ ground (arith, or-low b 4, or-low a 2, or-low phys 1),
      is_huge_lem (table_entry phys) ∙ ground (arith, or-bit7 b 4, or-bit7 a 2, or-bit7 phys 1),
      address_lem (table_entry phys)
          ∙ omega (
            arith,
            or-flag_frame b 4 (omega arith),
            or-flag_frame a 2 (omega arith),
            or-flag_frame phys 1 (omega arith),
          ),
    )

-- Flags that leave the bits of the frame alone.
unfoldable pub IsFlags : ℕ → Type 0
IsFlags flags = flags / 4096 % 2 ^ 40 ≡ 0

-- An entry that MapPageInto and ProtectPageInto write is present and holds the frame.
pub make_pte_lem :
    (phys flags : ℕ)
    → IsFlags flags
    → (is_present (make_pte phys flags) ≡ true) × (address (make_pte phys flags) ≡ address phys)
unfolding make_pte IsFlags
make_pte_lem phys flags ok =
    let a : ℕ = address phys in
    let f : ℕ = bit_or flags 1 in
    let frame : bit_or a f / 4096 % 2 ^ 40 ≡ phys / 4096 % 2 ^ 40 =
      ap (λ (t : ℕ). t % 2 ^ 40) (or-frame a f)
      ∙ bit_or-mod_pow 40 (a / 4096) (f / 4096)
      ∙ ap (bit_or (a / 4096 % 2 ^ 40)) (omega (arith, or-flag_frame flags 1 (omega arith), ok))
      ∙ bit_or-zero (a / 4096 % 2 ^ 40)
      ∙ omega (arith, address_lem phys) in
    (
      is_present_lem (make_pte phys flags) ∙ ground (arith, or-low a f, or-low flags 1),
      address_lem (make_pte phys flags) ∙ omega (arith, frame, address_lem phys),
    )

-- Entries lead to pages.
pub address_aligned : (e : ℕ) → (address e % 4096 ≡ 0) × (address e < 2 ^ 52)
address_aligned e = (omega (arith, address_lem e), omega (arith, address_lem e))

-- An empty entry leads nowhere.
pub zero_entry : is_present 0 ≡ false
unfolding is_present
zero_entry = refl
