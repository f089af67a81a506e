-- ===== src/Ntdef.antt =====
-- kernel/include/ntdef.h: the page constants and the alignment templates, on 64-bit words.
-- `~x` is `2^64 - 1 - x`; a difference adds 2^64 before the wrap.
pub mod Laws
mod Tests
use micro_nt.Base.{ℕ, ◌+◌, ◌-◌, ◌%◌, ◌^◌, bit_and}

abbrev pub page_size : ℕ
page_size = 4096

abbrev pub word_mod : ℕ
word_mod = 2 ^ 64

abbrev pub not64 : ℕ → ℕ
not64 x = word_mod - 1 - x

-- align - 1
abbrev pub pred64 : ℕ → ℕ
pred64 a = (a + (word_mod - 1)) % word_mod

unfoldable pub align_up : ℕ → ℕ → ℕ
align_up value align = bit_and ((value + align + (word_mod - 1)) % word_mod) (not64 (pred64 align))

unfoldable pub align_down : ℕ → ℕ → ℕ
align_down value align = bit_and value (not64 (pred64 align))
