-- ===== src/Syscall/Line/Recent.antt =====
-- The ring of the history as the list of the recent lines, the latest first.
use micro_nt.Base.{
  ℕ, zero, suc, ◌+◌, ◌-◌, ◌%◌, ◌≤◌, ◌<◌, ◌≡◌, refl, sym, ap, ◌∙◌, ◌≢◌, inl, inr, Bool, true, false,
  none, some, List, [], ◌∷◌, length, take, length-take, get_elem?, ltb, ◌==◌, if◌then◌else◌, arith,
  update_self, update_ne, Bool-cases,
}
use micro_nt.Ldr.{name_eq}
use micro_nt.Syscall.Line.{History, hist_n, hist_max, is_repeated, hist_add, hist_get}

-- The whole line equals the latest entry.
pub repeats : List ℕ → List (List ℕ) → Bool
repeats buf [] = false
repeats buf (x ∷ xs) = name_eq x buf

-- Sixteen lines are kept, each cut to 255 bytes; an empty line and one that equals the latest entry are
-- not added.
pub remember : List ℕ → List (List ℕ) → List (List ℕ)
remember [] xs = xs
remember (c ∷ cs) xs =
    if repeats (c ∷ cs) xs then xs else take hist_n (take (hist_max - 1) (c ∷ cs) ∷ xs)

pub record Recent (h : History) (xs : List (List ℕ)) : Type 0 where
  pub size : length xs ≡ h.count
  pub few : h.count ≤ hist_n
  pub head : h.head < hist_n
  pub entry :
      (b : ℕ)
      → 0 < b
      → b ≤ h.count
      → get_elem? xs (b - 1) ≡ some (h.entries ((h.head + hist_n - b) % hist_n))

get_elem?-take : (n i : ℕ) (xs : List (List ℕ)) → i < n → get_elem? (take n xs) i ≡ get_elem? xs i
get_elem?-take zero i xs lt = absurd (omega (arith, lt))
get_elem?-take (suc n) i [] lt = refl
get_elem?-take (suc n) zero (x ∷ xs) lt = refl
get_elem?-take (suc n) (suc i) (x ∷ xs) lt = get_elem?-take n i xs (omega (arith, lt))

get_elem?-past : (i : ℕ) (xs : List (List ℕ)) → length xs ≤ i → get_elem? xs i ≡ none
get_elem?-past i [] le = refl
get_elem?-past zero (x ∷ xs) le = absurd (omega (arith, le))
get_elem?-past (suc i) (x ∷ xs) le = get_elem?-past i xs (omega (arith, le))

is_repeated-repeats :
    (buf : List ℕ) (h : History) (xs : List (List ℕ))
    → Recent h xs
    → is_repeated buf h ≡ repeats buf xs
unfolding is_repeated repeats
is_repeated-repeats buf h [] v = ground (arith, v.size)
is_repeated-repeats buf h (x ∷ xs) v =
    let some_line : ltb 0 h.count ≡ true = ground (arith, v.size) in
    let latest : x ≡ h.entries ((h.head + hist_n - 1) % hist_n) =
      cc (v.entry 1 (omega arith) (omega (arith, v.size))) in
    rw (some_line, latest) refl

pub hist_add-Recent :
    (buf : List ℕ) (h : History) (xs : List (List ℕ))
    → Recent h xs
    → Recent (hist_add buf h) (remember buf xs)
unfolding hist_add remember
hist_add-Recent [] h xs v = v
hist_add-Recent (c ∷ cs) h xs v =
    let e : List ℕ = take (hist_max - 1) (c ∷ cs) in
    elim (Bool-cases (repeats (c ∷ cs) xs)) [
      | inl again ↦ rw (is_repeated-repeats (c ∷ cs) h xs v, again) v
      | inr other ↦
          rw (is_repeated-repeats (c ∷ cs) h xs v, other)
            (record {
              size = ground (arith, length-take 15 xs, v.size, v.few);
              few = ground (arith, v.few);
              head = omega (arith, v.head);
              entry = λ b pos le. elim (Bool-cases (b == 1)) [
                | inl latest ↦
                    let is : b ≡ 1 = ground (arith, latest) in
                    let at : ((h.head + 1) % hist_n + hist_n - 1) % hist_n ≡ h.head =
                      omega (arith, v.head) in
                    rw (is, at) (ap some (sym (update_self h.entries h.head e)))
                | inr older ↦
                    let two : 1 < b = ground (arith, older, pos) in
                    let low : b ≤ hist_n = ground (arith, le, v.few) in
                    let known : b - 1 ≤ h.count = ground (arith, le) in
                    let at : ((h.head + 1) % hist_n + hist_n - b) % hist_n
                        ≡ (h.head + hist_n - (b - 1)) % hist_n =
                      omega (arith, v.head, two, low) in
                    let ne : (h.head + hist_n - (b - 1)) % hist_n ≢ h.head =
                      omega (arith, v.head, two, low) in
                    let back : b - 1 ≡ suc (b - 2) = omega (arith, two) in
                    rw (at, update_ne h.entries h.head ((h.head + hist_n - (b - 1)) % hist_n) e ne)
                      (ap (λ i. get_elem? (e ∷ take 15 xs) i) back
                        ∙ get_elem?-take 15 (b - 2) xs (omega (arith, two, low))
                        ∙ ap (λ i. get_elem? xs i) (omega (arith, two))
                        ∙ v.entry (b - 1) (omega (arith, two)) known)
              ];
            })
    ]

pub hist_get-Recent :
    (back : ℕ) (h : History) (xs : List (List ℕ))
    → Recent h xs
    → hist_get back h ≡ (if back == 0 then none else get_elem? xs (back - 1))
unfolding hist_get
hist_get-Recent back h xs v = elim (Bool-cases (back == 0)) [
  | inl zero_back ↦ rw zero_back refl
  | inr some_back ↦ elim (Bool-cases (ltb h.count back)) [
    | inl past ↦
        rw (some_back, past) (sym (get_elem?-past (back - 1) xs (ground (arith, past, v.size))))
    | inr within ↦
        rw (some_back, within)
          (sym (v.entry back (ground (arith, some_back)) (ground (arith, within))))
  ]
]

-- Lines in the order in which they were read.
pub add_all : List (List ℕ) → History → History
add_all [] h = h
add_all (l ∷ ls) h = add_all ls (hist_add l h)

pub remember_all : List (List ℕ) → List (List ℕ) → List (List ℕ)
remember_all [] xs = xs
remember_all (l ∷ ls) xs = remember_all ls (remember l xs)

add_all-Recent :
    (ls : List (List ℕ)) (h : History) (xs : List (List ℕ))
    → Recent h xs
    → Recent (add_all ls h) (remember_all ls xs)
unfolding add_all remember_all
add_all-Recent [] h xs v = v
add_all-Recent (l ∷ ls) h xs v =
    add_all-Recent ls (hist_add l h) (remember l xs) (hist_add-Recent l h xs v)

abbrev pub no_lines : History
no_lines = record { entries = λ _. []; count = 0; head = 0 }

-- After any lines from an empty history, HistGet gives the entry at each depth of the list to
-- which each line was added at the front, cut to 255 bytes, unless the line is empty or equals
-- the front entry, and which was cut to sixteen entries each time; it gives none at depth 0 and
-- past the end. A line of more than 255 bytes equals no entry.
pub hist_get-add_all :
    (back : ℕ) (ls : List (List ℕ))
    → hist_get back (add_all ls no_lines)
      ≡ (if back == 0 then none else get_elem? (remember_all ls []) (back - 1))
hist_get-add_all back ls = hist_get-Recent back (add_all ls no_lines) (remember_all ls []) (
    add_all-Recent ls no_lines [] (record {
      size = refl;
      few = omega arith;
      head = omega arith;
      entry = λ b pos le. absurd (omega (arith, pos, le));
    }))
