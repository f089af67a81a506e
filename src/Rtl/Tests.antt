-- ===== src/Rtl/Tests.antt =====
-- Copies of three bytes onto a region that overlaps the source.
use micro_nt.Base.{◌==◌, if◌then◌else◌, ℕ, ◌≡◌}
use micro_nt.Rtl.{memmove}
use micro_nt.Rtl.Memory.{inside, memmove_lem}

memmove_lem_example : memmove 11 10 3 (λ a. a) 13 ≡ 12
unfolding inside
memmove_lem_example = memmove_lem 11 10 3 (λ a. a) 13

-- The string `A`, and 7 everywhere else.
abbrev one_letter : ℕ → ℕ
one_letter a = if a == 0 then b'A' else if a == 1 then 0 else 7
