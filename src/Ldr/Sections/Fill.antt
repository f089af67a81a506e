-- ===== src/Ldr/Sections/Fill.antt =====
-- The bytes that MapSections and NtAllocVM write into a page, and the words of other pages.
use micro_nt.Base.{
  ℕ, zero, suc, ◌+◌, ◌*◌, ◌/◌, ◌%◌, ◌≤◌, ◌<◌, ◌≡◌, refl, ◌∙◌, ◌≢◌, arith, update_ne,
}
use micro_nt.Ntdef.{page_size}
use micro_nt.Vmm.{Words, slot}
use micro_nt.Ldr.Sections.{poke8, fill_bytes}

-- A word that holds none of the bytes stays.
fill_bytes_out :
    (n i p : ℕ) (f : ℕ → ℕ) (mem : Words) (a : ℕ)
    → ((j : ℕ) → i ≤ j → j < i + n → a ≢ (p + j) / 8 * 8)
    → fill_bytes n i p f mem a ≡ mem a
unfolding fill_bytes poke8
fill_bytes_out zero i p f mem a out = refl
fill_bytes_out (suc n) i p f mem a out =
    fill_bytes_out n (i + 1) p f (poke8 (p + i) (f i) mem) a
      (λ j lo hi. out j (omega (arith, lo)) (omega (arith, hi)))
    ∙ update_ne mem ((p + i) / 8 * 8) a _ (out i (omega arith) (omega arith))

-- The words of another page stay.
pub fill_bytes-slot :
    (p u x : ℕ) (f : ℕ → ℕ) (mem : Words)
    → p % 4096 ≡ 0
    → u % 4096 ≡ 0
    → u ≢ p
    → x < 512
    → fill_bytes page_size 0 p f mem (slot u x) ≡ mem (slot u x)
fill_bytes-slot p u x f mem ap au ne lx =
    fill_bytes_out page_size 0 p f mem (slot u x)
      (λ j lo hi e. ne (omega (arith, ap, au, lx, lo, hi, e)))
