-- ===== src/Vfs/Tests.antt =====
-- A table that holds the file `a`, and a firmware that keeps one variable.
use micro_nt.Base.{
  ℕ, ◌+◌, ◌-◌, ◌<◌, ◌≡◌, refl, true, false, Option, none, some, List, [], ◌∷◌, length-replicate,
  get_elem?, replicate, take, ltb, if◌then◌else◌, arith,
}
use micro_nt.BootInfo.{BootInfo}
use micro_nt.Vfs.{
  WNode, Vfs, Firmware, NvramHeader, blank, named, wnode_max, wnode_data_max, wfind_from, wfind,
  first_unused, wfind_or_create, wwrite, wread, wsize, init, save_nvram,
}
use micro_nt.Vfs.Nodes.{Inv, empty-Inv, wfind_or_create-Inv}
use micro_nt.Vfs.Data.{wread-wwrite}
use micro_nt.Vfs.Persist.{init-save_nvram}

abbrev empty : List WNode
empty = replicate wnode_max blank

abbrev name : List ℕ
name = b'a' ∷ []

abbrev table : List WNode
table = (wfind_or_create name false empty).1

table-Inv : Inv table
table-Inv = wfind_or_create-Inv name false empty empty-Inv (omega arith)

node_there : get_elem? table 0 ≡ some (named name false)
unfolding wfind_or_create wfind wfind_from first_unused
node_there = refl

node_used : (named name false).used ≡ true
unfolding named
node_used = refl

abbrev long_tail : List ℕ
long_tail = replicate 63 b'a'

room : first_unused 0 empty < wnode_max
unfolding first_unused
room = omega arith

abbrev text : List ℕ
text = b'h' ∷ b'i' ∷ []

abbrev written : ℕ × List WNode
written = wwrite 0 text table

wread-wwrite_example :
    (written.0 ≡ (
      if ltb (wnode_data_max - (named name false).size) 2
      then wnode_data_max - (named name false).size
      else 2))
    × (wread 0 (named name false).size 2 written.1 ≡ take written.0 text)
    × (wsize 0 written.1 ≡ (named name false).size + written.0)
wread-wwrite_example = wread-wwrite table table-Inv 0 (named name false) node_there node_used text

-- A node as a corrupt variable can hold it.
abbrev oversized : WNode
oversized = record blank { used = true; size = 4096 }

abbrev one_variable : Firmware
one_variable = record {
  Store = Option NvramHeader;
  get = λ s. s;
  set_var = λ h s. (some h, true);
  get-set = λ h s done. refl;
}

abbrev boot_info : BootInfo
boot_info = record { magic = 0; memory_map = []; boot_files = []; efi_runtime_va = 0x1000 }

abbrev running : Vfs
running = record { boot = some boot_info; rt_va = 0x1000; wnodes = empty }

saved : (save_nvram one_variable running none).1 ≡ true
unfolding save_nvram
saved = refl

init-save_nvram_example :
    (init one_variable (some boot_info) (save_nvram one_variable running none).0).wnodes ≡ empty
init-save_nvram_example =
    init-save_nvram one_variable boot_info running none (omega arith)
      (length-replicate wnode_max blank) saved
