-- ===== src/Syscall/Memory/Backed.antt =====
-- The loop of NtAllocVM that takes, clears and maps pages: what its addresses translate to.
use micro_nt.Base.{
  ℕ, zero, suc, ◌+◌, ◌*◌, ◌%◌, ◌/◌, ◌^◌, ◌≤◌, ◌<◌, ◌≡◌, refl, sym, ap, subst, ◌∙◌, ◌≢◌, inl, inr,
  Bool, true, false, ◌&&◌, ltb, leb, ◌==◌, if◌then◌else◌, arith, Bool-cases,
}
use micro_nt.Ntdef.{page_size, word_mod}
use micro_nt.Pmm.{Pmm, alloc_page, bitmap_test, max_pages}
use micro_nt.Pmm.Alloc.{Inv, Allocates, exhausted, reserved, alloc_page-Allocates, alloc_page-Inv}
use micro_nt.Vmm.{Words, Vmm, slot, address, descends, map_page_into, translate_in_pml4}
use micro_nt.Vmm.Walk.{Tables, translate-agree}
use micro_nt.Vmm.Grow.{Space}
use micro_nt.Vmm.Alloc.{fresh_page}
use micro_nt.Vmm.Page.{page, translate_in_pml4-translate}
use micro_nt.Vmm.Map.{Maps, mapped, failed, map_page_into-Maps}
use micro_nt.Ldr.Sections.{fill_bytes}
use micro_nt.Ldr.Sections.Fill.{fill_bytes-slot}
use micro_nt.Syscall.Memory.{user_page, map_zeroed}
use micro_nt.Syscall.Memory.Views.{among, page_of, user_page-IsFlags}

-- A page that AllocPage has given, cleared.
abbrev pub cleared : Vmm → Vmm
cleared s = record s {
  pmm = (alloc_page s.pmm).1;
  mem = fill_bytes page_size 0 (alloc_page s.pmm).0 (λ _. 0) s.mem;
}

-- The entry for that page as the i-th of a block.
abbrev pub entered : ℕ → ℕ → ℕ → Vmm → Bool × Vmm
entered i pml4 va s =
    map_page_into pml4 ((va + i * page_size) % word_mod) (alloc_page s.pmm).0 user_page (cleared s)

-- The loop from the entry of the i-th page on.
abbrev pub after_entry : ℕ → ℕ → ℕ → ℕ → Bool × Vmm → Bool × Vmm
after_entry n i pml4 va r = if r.0 then map_zeroed n (i + 1) pml4 va r.1 else (false, r.1)

-- A page that AllocPage gives is cleared and entered.
pub map_zeroed-given :
    (n i pml4 va : ℕ) (s : Vmm)
    → (alloc_page s.pmm).0 == 0 ≡ false
    → map_zeroed (suc n) i pml4 va s ≡ after_entry n i pml4 va (entered i pml4 va s)
unfolding map_zeroed
map_zeroed-given n i pml4 va s given = rw given refl

-- Without a page the loop ends.
map_zeroed-null :
    (n i pml4 va : ℕ) (s : Vmm)
    → (alloc_page s.pmm).0 == 0 ≡ true
    → (map_zeroed (suc n) i pml4 va s).0 ≡ false
unfolding map_zeroed
map_zeroed-null n i pml4 va s null = rw null refl

-- A page that holds no table is taken and written: the tables stay, and translate as before.
module _ (ts : Tables) (s : Vmm) (p : ℕ) (q : Pmm) (f : ℕ → ℕ) (space : Space ts s)
    (fresh : ts.height p ≡ 0) (aligned : p % 4096 ≡ 0) where
  abbrev filled : Words
  filled = fill_bytes page_size 0 p f s.mem

  stays : (u j x : ℕ) → ts.height u ≡ suc j → x < 512 → filled (slot u x) ≡ s.mem (slot u x)
  stays u j x hu lx =
      fill_bytes-slot p u x f s.mem aligned (space.tree.aligned u (omega (arith, hu)))
        (λ e. absurd (omega (arith, sym hu ∙ ap ts.height e ∙ fresh))) lx

  pub filled-Space :
      Inv q
      → ((x : ℕ) → ts.height (x * page_size) ≢ 0 → x < max_pages → bitmap_test q.bitmap x ≡ true)
      → Space ts (record s { pmm = q; mem = filled })
  filled-Space inv used = record {
    tree = record {
      aligned = space.tree.aligned;
      low = space.tree.low;
      child = λ t k i ht lt d.
          let e = stays t (suc k) i ht lt in
          subst (λ a. (ts.height (address a) ≡ suc k) × (ts.owner (address a) ≡ slot t i)) (sym e)
            (space.tree.child t k i ht lt (subst (λ a. descends a ≡ true) e d));
    };
    inv = inv;
    used = used;
  }

  pub filled-translate :
      (root v : ℕ)
      → ts.height root ≡ 4
      → translate_in_pml4 root v (record s { pmm = q; mem = filled }) ≡ translate_in_pml4 root v s
  filled-translate root v top =
      translate_in_pml4-translate root v (record s { pmm = q; mem = filled })
      ∙ translate-agree ts s.mem filled space.tree stays 3 root v top
      ∙ sym (translate_in_pml4-translate root v s)

-- What AllocPage and the loop over the page's bytes do to an address space.
record Cleared (ts : Tables) (s : Vmm) (phys : ℕ) (q : Vmm) : Type 0 where
  space : Space ts q
  kept : (root v : ℕ) → ts.height root ≡ 4 → translate_in_pml4 root v q ≡ translate_in_pml4 root v s

Allocates-Cleared :
    (ts : Tables) (s : Vmm) (r : ℕ × Pmm)
    → Space ts s
    → Allocates s.pmm r
    → Inv r.1
    → r.0 ≢ 0
    → Cleared ts s r.0 (record s { pmm = r.1; mem = fill_bytes page_size 0 r.0 (λ _. 0) s.mem })
Allocates-Cleared ts s _ space (exhausted full) inv given = absurd (given refl)
Allocates-Cleared ts s _ space (reserved n q small free lowest taken others counted) inv given =
    let fresh = fresh_page ts s space n small free in
    let aligned : n * page_size % 4096 ≡ 0 = omega arith in
    record {
      space =
          filled-Space ts s (n * page_size) q (λ _. 0) space fresh aligned inv
            (λ x h lx. elim (Bool-cases (x == n)) [
              | inl same ↦ let at : x ≡ n = ground arith in rw at taken
              | inr other ↦ others x (λ e. ground arith) ∙ space.used x h lx
            ]);
      kept = filled-translate ts s (n * page_size) q (λ _. 0) space fresh aligned;
    }

-- The `n` pages from page `b` on translate to frames of the allocator, every other address as
-- before; the tables form a tree.
pub record Backed (pml4 b n : ℕ) (s q : Vmm) : Type 0 where
  pub tables : Tables
  pub space : Space tables q
  pub top : tables.height pml4 ≡ 4
  pub frame : ℕ → ℕ
  pub taken : (g : ℕ) → b ≤ g → g < b + n → (frame g ≢ 0)
  pub all :
      (v : ℕ)
      → translate_in_pml4 pml4 v q
        ≡ (if among b n v then address (frame (page v)) + v % 4096 else translate_in_pml4 pml4 v s)

-- One page before the others.
Backed-suc :
    (n g pml4 virt phys : ℕ) (s c m q : Vmm)
    → page virt ≡ g
    → phys ≢ 0
    → ((v : ℕ) → translate_in_pml4 pml4 v c ≡ translate_in_pml4 pml4 v s)
    → ((v : ℕ)
        → translate_in_pml4 pml4 v m
          ≡ (if page v == page virt then address phys + v % 4096 else translate_in_pml4 pml4 v c))
    → Backed pml4 (g + 1) n m q
    → Backed pml4 g (suc n) s q
unfolding among
Backed-suc n g pml4 virt phys s c m q at given kept all o = record {
  tables = o.tables;
  space = o.space;
  top = o.top;
  frame = λ h. if h == g then phys else o.frame h;
  taken = λ h lo hi. elim (Bool-cases (h == g)) [
    | inl here ↦ rw here given
    | inr away ↦ rw away (o.taken h (ground (arith, lo, away)) (omega (arith, hi)))
  ];
  all = λ v. o.all v ∙ elim (Bool-cases (page v == g)) [
    | inl here ↦
        let hit : page v == page virt ≡ true = ground (arith, at, here) in
        let past : (leb (g + 1) (page v) && ltb (page v) (g + 1 + n)) ≡ false =
          ground (arith, here) in
        let within : (leb g (page v) && ltb (page v) (g + suc n)) ≡ true = ground (arith, here) in
        rw (past, within, here) (all v ∙ rw hit refl)
    | inr away ↦
        let miss : page v == page virt ≡ false = ground (arith, at, away) in
        let same : (leb (g + 1) (page v) && ltb (page v) (g + 1 + n))
            ≡ (leb g (page v) && ltb (page v) (g + suc n)) =
          ground (arith, away) in
        rw (same, away)
          (ap
            (λ t.
              if leb g (page v) && ltb (page v) (g + suc n)
              then address (o.frame (page v)) + v % 4096
              else t)
            (all v ∙ rw miss (kept v)))
  ];
}

-- The page is taken and entered, then the others.
entered-Backed :
    (n i b pml4 va : ℕ) (ts : Tables) (s : Vmm) (r : Bool × Vmm)
    → va / 4096 + i ≡ b
    → va % 4096 ≡ 0
    → va + i * page_size < 2 ^ 48
    → (alloc_page s.pmm).0 ≢ 0
    → ((v : ℕ) → translate_in_pml4 pml4 v (cleared s) ≡ translate_in_pml4 pml4 v s)
    → Maps ts pml4 ((va + i * page_size) % word_mod) (alloc_page s.pmm).0 user_page (cleared s) r
    → ((more : Tables) (q : Vmm)
        → Space more q
        → more.height pml4 ≡ 4
        → (map_zeroed n (i + 1) pml4 va q).0 ≡ true
        → Backed pml4 (b + 1) n q (map_zeroed n (i + 1) pml4 va q).1)
    → (after_entry n i pml4 va r).0 ≡ true
    → Backed pml4 b (suc n) s (after_entry n i pml4 va r).1
entered-Backed n i b pml4 va ts s _ first aligned low given kept (failed q more sp h same) others
      done =
    absurd (cc)
entered-Backed n i b pml4 va ts s _ first aligned low given kept (mapped q more sp h pte all) others
      done =
    Backed-suc n b pml4 ((va + i * page_size) % word_mod) (alloc_page s.pmm).0 s (cleared s) q
      (map_zeroed n (i + 1) pml4 va q).1 (page_of va i aligned low ∙ first) given kept all
      (others more q sp h done)

pub map_zeroed-Backed :
    (n i b pml4 va : ℕ) (ts : Tables) (s : Vmm)
    → va / 4096 + i ≡ b
    → Space ts s
    → ts.height pml4 ≡ 4
    → va % 4096 ≡ 0
    → va + (i + n) * page_size ≤ 2 ^ 48
    → (map_zeroed n i pml4 va s).0 ≡ true
    → Backed pml4 b n s (map_zeroed n i pml4 va s).1
unfolding among map_zeroed
map_zeroed-Backed zero i b pml4 va ts s first space top aligned low done = record {
  tables = ts;
  space = space;
  top = top;
  frame = λ h. 0;
  taken = λ h lo hi. absurd (omega (arith, lo, hi));
  all = λ v. ground arith;
}
map_zeroed-Backed (suc n) i b pml4 va ts s first space top aligned low done =
    elim (Bool-cases ((alloc_page s.pmm).0 == 0)) [
      | inl null ↦
          let no : false ≡ true = sym (map_zeroed-null n i pml4 va s null) ∙ done in absurd (cc)
      | inr given ↦
          let e = map_zeroed-given n i pml4 va s given in
          let some_page : (alloc_page s.pmm).0 ≢ 0 = λ z. ground (arith, given, z) in
          let c =
            Allocates-Cleared ts s (alloc_page s.pmm) space (alloc_page-Allocates s.pmm space.inv)
              (alloc_page-Inv s.pmm space.inv) some_page in
          subst (λ r. Backed pml4 b (suc n) s r.1) (sym e)
            (entered-Backed n i b pml4 va ts s (entered i pml4 va s) first aligned
              (omega (arith, low)) some_page (λ v. c.kept pml4 v top)
              (map_page_into-Maps ts pml4 ((va + i * page_size) % word_mod) (alloc_page s.pmm).0
                user_page (cleared s) c.space top user_page-IsFlags)
              (λ more q sp h d.
                map_zeroed-Backed n (i + 1) (b + 1) pml4 va more q (omega (arith, first)) sp h
                  aligned (omega (arith, low)) d)
              (ap (λ r. r.0) (sym e) ∙ done))
    ]
