-- ===== src/Vmm/Zero.antt =====
-- The loop that clears a new table.
use micro_nt.Base.{
  ℕ, zero, suc, ◌+◌, ◌<◌, ◌≡◌, refl, ◌∙◌, ◌≢◌, arith, update, update_self, update_ne,
}
use micro_nt.Vmm.{Words, slot, zero_words}
use micro_nt.Vmm.Entry.{zero_entry}
use micro_nt.Vmm.Walk.{index, index_lt, translate}

pub zero_words_out :
    (n p : ℕ) (mem : Words) (a : ℕ)
    → ((i : ℕ) → i < n → a ≢ slot p i)
    → zero_words n p mem a ≡ mem a
unfolding zero_words
zero_words_out zero p mem a out = refl
zero_words_out (suc n) p mem a out =
    zero_words_out n (p + 8) (update mem p 0) a
      (λ i lt e. out (suc i) (omega (arith, lt)) (omega (arith, e)))
    ∙ update_ne mem p a 0 (λ e. out 0 (omega arith) (omega (arith, e)))

pub zero_words_in : (n p : ℕ) (mem : Words) (i : ℕ) → i < n → zero_words n p mem (slot p i) ≡ 0
unfolding zero_words
zero_words_in zero p mem i lt = absurd (omega (arith, lt))
zero_words_in (suc n) p mem zero lt =
    let at : slot p 0 ≡ p = omega arith in
    rw at (
      zero_words_out n (p + 8) (update mem p 0) p (λ i lt e. absurd (omega (arith, e)))
      ∙ update_self mem p 0)
zero_words_in (suc n) p mem (suc i) lt =
    let at : slot p (suc i) ≡ slot (p + 8) i = omega arith in
    rw at (zero_words_in n (p + 8) (update mem p 0) i (omega (arith, lt)))

-- An empty table translates nothing.
pub translate_empty :
    (k t v : ℕ) (mem : Words) → ((i : ℕ) → i < 512 → mem (slot t i) ≡ 0) → translate k t v mem ≡ 0
unfolding translate
translate_empty zero t v mem empty = rw (empty (index 0 v) (index_lt 0 v), zero_entry) refl
translate_empty (suc k) t v mem empty =
    rw (empty (index (suc k) v) (index_lt (suc k) v), zero_entry) refl
