-- ===== src/Syscall/Memory/Views.antt =====
-- Views of sections: which frames a range of pages translates to.
use micro_nt.Base.{
  ℕ, zero, suc, ◌+◌, ◌-◌, ◌*◌, ◌%◌, ◌/◌, ◌^◌, ◌≤◌, ◌<◌, ◌≡◌, refl, ap, ◌∙◌, inl, inr, Bool, true,
  false, ◌&&◌, ltb, leb, ◌==◌, if◌then◌else◌, arith, Bool-cases,
}
use micro_nt.Ntdef.{page_size, word_mod}
use micro_nt.Vmm.{Vmm, address, translate_in_pml4}
use micro_nt.Vmm.Entry.{IsFlags}
use micro_nt.Vmm.Walk.{Tables}
use micro_nt.Vmm.Grow.{Space}
use micro_nt.Vmm.Page.{page}
use micro_nt.Vmm.Map.{Maps, mapped, failed, map_page_into-Maps}
use micro_nt.Syscall.Memory.Heap.{cursor}
use micro_nt.Syscall.Memory.{Services, heap_max, user_page, map_frames}

-- A page is one of the `n` from the base `b` on.
unfoldable pub among : ℕ → ℕ → ℕ → Bool
among b n v = leb b (page v) && ltb (page v) (b + n)

-- The range translates to the frames, every other address as before; the tables form a tree.
pub record Viewed (pml4 b i n : ℕ) (phys : ℕ → ℕ) (s q : Vmm) : Type 0 where
  pub tables : Tables
  pub space : Space tables q
  pub top : tables.height pml4 ≡ 4
  pub all :
      (v : ℕ)
      → translate_in_pml4 pml4 v q ≡ (
          if among (b + i) n v
          then address (phys (page v - b)) + v % 4096
          else translate_in_pml4 pml4 v s)

-- The page of the i-th frame.
pub page_of :
    (va i : ℕ)
    → va % 4096 ≡ 0
    → va + i * page_size < 2 ^ 48
    → page ((va + i * page_size) % word_mod) ≡ va / 4096 + i
unfolding page
page_of va i aligned low = omega (arith, aligned, low)

-- One page before the others.
extend :
    (n i pml4 va flags : ℕ) (phys : ℕ → ℕ) (ts : Tables) (s : Vmm) (r : Bool × Vmm)
    → va % 4096 ≡ 0
    → va + i * page_size < 2 ^ 48
    → Maps ts pml4 ((va + i * page_size) % word_mod) (phys i) flags s r
    → ((more : Tables) (q : Vmm)
        → Space more q
        → more.height pml4 ≡ 4
        → (map_frames n (i + 1) pml4 va flags phys q).0 ≡ true
        → Viewed pml4 (va / 4096) (i + 1) n phys q (map_frames n (i + 1) pml4 va flags phys q).1)
    → (if r.0 then map_frames n (i + 1) pml4 va flags phys r.1 else (false, r.1)).0 ≡ true
    → Viewed pml4
        (va / 4096)
        i
        (suc n)
        phys
        s
        (if r.0 then map_frames n (i + 1) pml4 va flags phys r.1 else (false, r.1)).1
unfolding among
extend n i pml4 va flags phys ts s _ aligned low (failed q more sp h kept) others done = absurd (cc)
extend n i pml4 va flags phys ts s _ aligned low (mapped q more sp h pte all) others done =
    let o = others more q sp h done in
    let b = va / 4096 in
    let at = page_of va i aligned low in
    record {
      tables = o.tables;
      space = o.space;
      top = o.top;
      all = λ v. o.all v ∙ elim (Bool-cases (page v == b + i)) [
        | inl here ↦
            let hit : page v == page ((va + i * page_size) % word_mod) ≡ true =
              ground (arith, at, here) in
            let past : (leb (b + (i + 1)) (page v) && ltb (page v) (b + (i + 1) + n)) ≡ false =
              ground (arith, here) in
            let within : (leb (b + i) (page v) && ltb (page v) (b + i + suc n)) ≡ true =
              ground (arith, here) in
            let index : page v - b ≡ i = ground (arith, here) in
            rw (past, within, index) (all v ∙ rw hit refl)
        | inr away ↦
            let miss : page v == page ((va + i * page_size) % word_mod) ≡ false =
              ground (arith, at, away) in
            let same : (leb (b + (i + 1)) (page v) && ltb (page v) (b + (i + 1) + n))
                ≡ (leb (b + i) (page v) && ltb (page v) (b + i + suc n)) =
              ground (arith, away) in
            rw same (
              ap
                (λ t.
                  if leb (b + i) (page v) && ltb (page v) (b + i + suc n)
                  then address (phys (page v - b)) + v % 4096
                  else t)
                (all v ∙ rw miss refl))
      ];
    }

pub map_frames-Viewed :
    (n i pml4 va flags : ℕ) (phys : ℕ → ℕ) (ts : Tables) (s : Vmm)
    → Space ts s
    → ts.height pml4 ≡ 4
    → IsFlags flags
    → va % 4096 ≡ 0
    → va + (i + n) * page_size ≤ 2 ^ 48
    → (map_frames n i pml4 va flags phys s).0 ≡ true
    → Viewed pml4 (va / 4096) i n phys s (map_frames n i pml4 va flags phys s).1
unfolding map_frames among
map_frames-Viewed zero i pml4 va flags phys ts s space top ok aligned low done = record {
  tables = ts;
  space = space;
  top = top;
  all = λ v. ground arith;
}
map_frames-Viewed (suc n) i pml4 va flags phys ts s space top ok aligned low done =
    extend n i pml4 va flags phys ts s _ aligned (omega (arith, low))
      (map_page_into-Maps ts pml4 ((va + i * page_size) % word_mod) (phys i) flags s space top ok)
      (λ more q sp h d.
        map_frames-Viewed n (i + 1) pml4 va flags phys more q sp h ok aligned (omega (arith, low))
          d)
      done

pub user_page-IsFlags : IsFlags user_page
unfolding IsFlags
user_page-IsFlags = refl

-- What a mapping of a section does.
pub data View (h p : ℕ) (s : Services) : ℕ × Services → Type 0 where
  over : heap_max < cursor p s + (s.sections (h - 1)).page_count * page_size → View h p s (0, s)
  partly :
      (s' : Services)
      → (map_frames
          (s.sections (h - 1)).page_count
          0
          (s.ps.process p).cr3
          (cursor p s)
          user_page
          (s.sections (h - 1)).phys
          s.vmm).0
        ≡ false
      → View h p s (0, s')
  seen :
      (s' : Services)
      → cursor p s' ≡ cursor p s + (s.sections (h - 1)).page_count * page_size
      → cursor p s' ≤ heap_max
      → Viewed
          (s.ps.process p).cr3
          (cursor p s / 4096)
          0
          (s.sections (h - 1)).page_count
          (s.sections (h - 1)).phys
          s.vmm
          s'.vmm
      → View h p s (cursor p s, s')
