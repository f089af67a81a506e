-- ===== src/Vfs.antt =====
-- kernel/io/vfs.cpp: the boot files, the sixteen writable nodes, and their copy in UEFI NVRAM.
-- A C string is the list of its bytes; a name of a node is what its array holds before the zero.
pub mod Names
pub mod Nodes
pub mod Data
pub mod Persist
mod Tests
use micro_nt.Base.{
  ◌≡◌, ℕ, zero, suc, ◌+◌, ◌-◌, ◌%◌, ◌^◌, Bool, true, false, not, ◌&&◌, ◌||◌, Option, none, some,
  List, [], ◌∷◌, ltb, leb, ◌==◌, if◌then◌else◌, update, length, get_elem?, set, replicate, take,
  slice,
}
use micro_nt.BootInfo.{BootInfo, BootFile}

abbrev pub wnode_max : ℕ
wnode_max = 16

abbrev pub wnode_name_max : ℕ
wnode_name_max = 64

abbrev pub wnode_data_max : ℕ
wnode_data_max = 2048

pub record WNode : Type 0 where
  pub name : List ℕ
  pub used : Bool
  pub is_dir : Bool
  pub size : ℕ
  pub bytes : ℕ → ℕ

abbrev pub blank : WNode
blank = record { name = []; used = false; is_dir = false; size = 0; bytes = λ _. 0 }

-- The header's `count` is a 32-bit word that the variable holds.
pub record NvramHeader : Type 0 where
  pub magic : ℕ
  pub count : ℕ
  pub nodes : List WNode

abbrev pub nvram_magic : ℕ
nvram_magic = 0x5346544E

-- GetVariable and SetVariable of the firmware at the VFS variable. `get` is `none` where the call
-- returns an error; `set` says whether it returned success. What was stored is what is read back.
pub record Firmware : Type 1 where
  pub Store : Type 0
  pub get : Store → Option NvramHeader
  pub set_var : NvramHeader → Store → Store × Bool
  pub get-set :
      (h : NvramHeader) (s : Store) → (set_var h s).1 ≡ true → get (set_var h s).0 ≡ some h

pub record Vfs : Type 0 where
  pub boot : Option BootInfo
  pub rt_va : ℕ
  pub wnodes : List WNode

-- ca += 32 for 'A'..'Z'
abbrev pub to_lower : ℕ → ℕ
to_lower c = if leb b'A' c && leb c b'Z' then c + 32 else c

pub str_ieq : List ℕ → List ℕ → Bool
str_ieq [] [] = true
str_ieq [] (b ∷ bs) = false
str_ieq (a ∷ as') [] = false
str_ieq (a ∷ as') (b ∷ bs) = to_lower a == to_lower b && str_ieq as' bs

-- str_copy into an array of `max` bytes
abbrev pub str_copy : List ℕ → ℕ → List ℕ
str_copy s max = take (max - 1) s

-- s_wnodes[i] = hdr.nodes[i] for i < count
restore : ℕ → List WNode → List WNode → List WNode
restore zero from to = to
restore (suc n) [] to = to
restore (suc n) (x ∷ from) [] = []
restore (suc n) (x ∷ from) (y ∷ to) = x ∷ restore n from to

module _ (fw : Firmware) where
  open fw use {Store, get, set_var}

  pub load_nvram : Store → Vfs → Vfs
  load_nvram s v = if v.rt_va == 0 then v else elim (get s) [
    | none ↦ v
    | some hdr ↦
        if hdr.magic == nvram_magic
        then record v {
          wnodes =
              restore (if ltb hdr.count wnode_max then hdr.count else wnode_max) hdr.nodes v.wnodes;
        }
        else v
  ]

  pub init : Option BootInfo → Store → Vfs
  init none s = load_nvram s (record { boot = none; rt_va = 0; wnodes = replicate wnode_max blank })
  init (some bi) s =
      load_nvram s
        (record { boot = some bi; rt_va = bi.efi_runtime_va; wnodes = replicate wnode_max blank })

  pub save_nvram : Vfs → Store → Store × Bool
  save_nvram v s =
      if v.rt_va == 0
      then (s, false)
      else set_var (record { magic = nvram_magic; count = wnode_max; nodes = v.wnodes }) s

-- The index of the first boot file of that name, counted from `i`.
find_boot : ℕ → List ℕ → List BootFile → Option ℕ
find_boot i name [] = none
find_boot i name (f ∷ fs) = if str_ieq f.name name then some i else find_boot (suc i) name fs

boot_list : Vfs → List BootFile
boot_list v = elim v.boot [ none ↦ [] | some bi ↦ bi.boot_files ]

-- Open returns -1 for `none`.
pub open_file : Vfs → List ℕ → Option ℕ
unfolding boot_list find_boot
open_file v name = find_boot 0 name (boot_list v)

-- Read and Size of a handle; the bytes come from physical memory. `none` is -1.
pub read_file : (ℕ → ℕ) → Vfs → ℕ → ℕ → ℕ → Option (List ℕ)
unfolding boot_list
read_file memory v handle offset len = elim (get_elem? (boot_list v) handle) [
  | none ↦ none
  | some f ↦
      if leb f.size offset
      then some []
      else some (
          slice memory ((f.phys_base + offset) % 2 ^ 64)
            (if ltb (f.size - offset) len then f.size - offset else len))
]

pub file_size : Vfs → ℕ → Option ℕ
unfolding boot_list
file_size v handle = elim (get_elem? (boot_list v) handle) [ none ↦ none | some f ↦ some f.size ]

names_and_sizes : List BootFile → List (List ℕ × ℕ)
names_and_sizes [] = []
names_and_sizes (f ∷ fs) = (f.name, f.size) ∷ names_and_sizes fs

-- The calls of the callback, in order.
for_each : Vfs → List (List ℕ × ℕ)
unfolding boot_list
for_each v = names_and_sizes (boot_list v)

for_each_writable : List WNode → List (List ℕ × ℕ × Bool)
for_each_writable [] = []
for_each_writable (n ∷ ns) =
    let rest = for_each_writable ns in if n.used then (n.name, n.size, n.is_dir) ∷ rest else rest

-- The address and the size of the first boot file of that name.
pub find_data : List ℕ → List BootFile → Option (ℕ × ℕ)
find_data name [] = none
find_data name (f ∷ fs) =
    if str_ieq f.name name then some (f.phys_base, f.size) else find_data name fs

pub get_data : Vfs → List ℕ → Option (ℕ × ℕ)
unfolding boot_list
get_data v name = find_data name (boot_list v)

-- A null pointer with the size 0 where there is no such file.
find_file : Vfs → List ℕ → ℕ × ℕ
find_file v name = elim (get_data v name) [ none ↦ (0, 0) | some r ↦ r ]

-- WFind, over the nodes from index `i` on.
pub wfind_from : ℕ → List ℕ → List WNode → ℕ
wfind_from i name [] = wnode_max
wfind_from i name (n ∷ ns) = if n.used && str_ieq n.name name then i else wfind_from (suc i) name ns

pub wfind : List ℕ → List WNode → ℕ
wfind name ns = wfind_from 0 name ns

pub first_unused : ℕ → List WNode → ℕ
first_unused i [] = wnode_max
first_unused i (n ∷ ns) = if not n.used then i else first_unused (suc i) ns

pub named : List ℕ → Bool → WNode
named name is_dir = record blank {
  name = str_copy name wnode_name_max;
  used = true;
  is_dir = is_dir;
}

pub wfind_or_create : List ℕ → Bool → List WNode → ℕ × List WNode
unfolding wfind
wfind_or_create name is_dir ns =
    if ltb (wfind name ns) wnode_max
    then (wfind name ns, ns)
    else if ltb (first_unused 0 ns) wnode_max
    then (first_unused 0 ns, set ns (first_unused 0 ns) (named name is_dir))
    else (wnode_max, ns)

-- The empty name is refused.
pub mkdir : List ℕ → List WNode → Bool × List WNode
mkdir [] ns = (false, ns)
mkdir (c ∷ cs) ns =
    let (i, ns') = wfind_or_create (c ∷ cs) true ns in
    if ltb (wfind (c ∷ cs) ns) wnode_max then (false, ns) else (ltb i wnode_max, ns')

pub delete : List ℕ → List WNode → Bool × List WNode
delete name ns =
    if ltb (wfind name ns) wnode_max then (true, set ns (wfind name ns) blank) else (false, ns)

-- n.data[n.size++] = src[i]
pub append_bytes : List ℕ → WNode → WNode
append_bytes [] n = n
append_bytes (x ∷ xs) n =
    append_bytes xs (record n { bytes = update n.bytes n.size x; size = (n.size + 1) % 2 ^ 32 })

-- The number of bytes that a node takes of `len`.
abbrev pub room_for : WNode → ℕ → ℕ
room_for n len =
    let space = (wnode_data_max + 2 ^ 32 - n.size) % 2 ^ 32 in if ltb space len then space else len

pub wwrite : ℕ → List ℕ → List WNode → ℕ × List WNode
wwrite idx src ns = elim (get_elem? ns idx) [
  | none ↦ (0, ns)
  | some n ↦
      if n.used
      then (
        room_for n (length src),
        set ns idx (append_bytes (take (room_for n (length src)) src) n),
      )
      else (0, ns)
]

pub wread : ℕ → ℕ → ℕ → List WNode → List ℕ
wread idx offset len ns = elim (get_elem? ns idx) [
  | none ↦ []
  | some n ↦
      if n.used && ltb offset n.size
      then slice n.bytes offset (if ltb (n.size - offset) len then n.size - offset else len)
      else []
]

pub wsize : ℕ → List WNode → ℕ
wsize idx ns = elim (get_elem? ns idx) [ none ↦ 0 | some n ↦ if n.used then n.size else 0 ]

wis_dir : ℕ → List WNode → Bool
wis_dir idx ns = elim (get_elem? ns idx) [ none ↦ false | some n ↦ n.used && n.is_dir ]
