-- ===== src/Ldr/Tests.antt =====
-- A small image with one section at RVA 0, whose only export is `A`, and the registry with it.
use micro_nt.Base.{ℕ, ◌≡◌, refl, [], ◌∷◌, some, arith, update, ◌∙◌, sym}
use micro_nt.Ldr.{
  Image, Module, read16, read32, streq, rva_to_off, image_off, is_named, export_va, search_names,
  find_export, find_module, name_eq,
}
use micro_nt.Vmm.{create_user_pml4}
use micro_nt.Vmm.Tests.{start, tables, start-Space, small_root, new_root}
use micro_nt.Ps.Tests.{two_threads}
use micro_nt.Ldr.Load.{Loader, load_library}
use micro_nt.Ldr.Load.Foreign.{load_library-create_user_pml4}
use micro_nt.Ldr.Offsets.{Located}
use micro_nt.Ldr.Exports.{Exported, find_export-Exported}

-- One section of 0x10000 bytes, the directory at 200, the tables at 240, 244 and 248, the name at 250.
abbrev image : Image
image =
    update
      (update
        (update
          (update
            (update
              (update (update (update (update (update (λ _. 0) 6 1) 34 1) 136 200) 224 1) 228 240)
              232 244)
            236 248)
          244 250)
        240 0x99)
      250 b'A'

abbrev small : Module
small = record { name = b'M' ∷ []; image_base = 0x10000; pe_data = image; pe_size = 256 }

export_found : find_export small (b'A' ∷ []) ≡ 0x10099
unfolding find_export image_off rva_to_off read16 read32 search_names is_named export_va streq
export_found = refl

find_export-Exported_example :
    Exported small (b'A' ∷ []) (find_export small (b'A' ∷ []))
    × ((rva : ℕ) → Located image rva (image_off image rva))
find_export-Exported_example = find_export-Exported small (b'A' ∷ [])

-- The kernel's address space, with a module loaded at 6.25 GB.
abbrev library : Module
library = record small { image_base = 0x190000000 }

abbrev loader : Loader
loader = record { vmm = start; ps = two_threads; modules = library ∷ [] }

library_there : find_module (b'M' ∷ []) loader.modules ≡ some library
unfolding find_module name_eq
library_there = refl

load_library-create_user_pml4_example :
    load_library 1
      (b'M' ∷ [])
      (create_user_pml4 start).0
      []
      (record loader { vmm = (create_user_pml4 start).1 })
    ≡ some (0x190000000, record loader { vmm = (create_user_pml4 start).1 })
load_library-create_user_pml4_example =
    (load_library-create_user_pml4 1 (b'M' ∷ []) library [] tables loader library_there
      (omega arith) (omega arith) start-Space refl small_root
      (λ e. absurd (omega (arith, sym new_root ∙ e)))).0
