-- ===== src/Ldr/Load/Foreign.antt =====
-- LoadLibrary in an address space that the library was not loaded into.
use micro_nt.Base.{ℕ, ◌^◌, ◌≤◌, ◌<◌, ◌≡◌, ◌≢◌, refl, ◌∙◌, List, some, arith, false}
use micro_nt.Vmm.{Vmm, slot, is_huge, create_user_pml4, translate_in_pml4}
use micro_nt.Vmm.Walk.{Tables}
use micro_nt.Vmm.Grow.{Space}
use micro_nt.Vmm.User.{Creates, refused, created, create_user_pml4-Creates}
use micro_nt.Ldr.{Module, find_module}
use micro_nt.Ldr.Load.{Loader, CatalogEntry, load_library}

Creates-high :
    (s : Vmm) (r : ℕ × Vmm) (v : ℕ)
    → Creates s r
    → r.0 ≢ 0
    → 2 ^ 32 ≤ v
    → v < 2 ^ 39
    → translate_in_pml4 r.0 v r.1 ≡ 0
Creates-high s _ v (refused q kept) ne lo hi = absurd (ne refl)
Creates-high s _ v (created new q nz kept all) ne lo hi = all v hi ∙ ground (arith, lo)

-- If the registry has a module of the name with a base from 4 GB and below 512 GB, the kernel's
-- tables form a tree whose pages the allocator does not hold free, the allocator's counter and
-- hint are right, the kernel's first entry has no PS bit and CreateUserPml4 succeeds, then
-- LoadLibrary in the new address space returns the module's base and changes nothing, and the
-- base is not translated there.
pub load_library-create_user_pml4 :
    (fuel : ℕ) (name : List ℕ) (m : Module) (catalog : List CatalogEntry) (ts : Tables) (l : Loader)
    → find_module name l.modules ≡ some m
    → 2 ^ 32 ≤ m.image_base
    → m.image_base < 2 ^ 39
    → Space ts l.vmm
    → ts.height l.vmm.pml4_phys ≡ 4
    → is_huge (l.vmm.mem (slot l.vmm.pml4_phys 0)) ≡ false
    → (create_user_pml4 l.vmm).0 ≢ 0
    → let (new, vmm) = create_user_pml4 l.vmm in
      let fresh = record l { vmm = vmm } in
      (load_library fuel name new catalog fresh ≡ some (m.image_base, fresh))
      × (translate_in_pml4 new m.image_base vmm ≡ 0)
unfolding load_library
load_library-create_user_pml4 fuel name m catalog ts l there lo hi space top flat ok = (
  rw (there, load_library) refl,
  Creates-high l.vmm (create_user_pml4 l.vmm) m.image_base
      (create_user_pml4-Creates ts l.vmm space top flat) ok lo hi,
)
