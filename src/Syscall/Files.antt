-- ===== src/Syscall/Files.antt =====
-- The files and pipes of kernel/syscall/syscall.cpp: a handle is a boot file, a writable node or a pipe by
-- its range, and the console otherwise. What the console shows of a write is a list of bytes.
pub mod Pipes
pub mod Names
use micro_nt.Base.{
  ℕ, zero, suc, ◌+◌, ◌-◌, ◌*◌, ◌%◌, ◌/◌, ◌^◌, Bool, true, false, not, ◌&&◌, ◌||◌, Option, none,
  some, List, [], ◌∷◌, ◌++◌, length, take, ltb, leb, ◌==◌, if◌then◌else◌, update,
}
use micro_nt.Ntdef.{page_size, word_mod}
use micro_nt.Vmm.{Words, Vmm, translate_in_pml4}
use micro_nt.Vfs
use micro_nt.Vfs.{Vfs, WNode, open_file, wfind_or_create, wwrite, wread}
use micro_nt.Ldr.{name_eq}
use micro_nt.Syscall.Memory.{Services, caller, peek8, read_user_byte, write_user_byte}

pub record Pipe : Type 0 where
  pub name : List ℕ
  pub bytes : ℕ → ℕ
  pub size : ℕ
  pub used : Bool

pub record Files : Type 0 where
  pub services : Services
  pub vfs : Vfs
  pub pipes : ℕ → Pipe
  pub console : List ℕ

abbrev pub pipe_handle_base : ℕ
pipe_handle_base = 0x80

abbrev pub max_pipes : ℕ
max_pipes = 4

abbrev pub pipe_room : ℕ
pipe_room = 512

abbrev pub wfile_handle_base : ℕ
wfile_handle_base = 0x40

abbrev pub wfile_handle_max : ℕ
wfile_handle_max = 0x50

abbrev pub set_vmm : Vmm → Files → Files
set_vmm q s = record s { services = record s.services { vmm = q } }

-- The page table that the bytes of a service are in.
abbrev pub cr3_of : ℕ → Files → ℕ
cr3_of p s = (s.services.ps.process p).cr3

unfoldable pub capped : ℕ → ℕ → ℕ
capped most n = if ltb most n then most else n

-- The bytes that follow one another in a page.
pub bytes_at : ℕ → ℕ → Words → List ℕ
bytes_at zero a mem = []
bytes_at (suc n) a mem = peek8 a mem ∷ bytes_at n (a + 1) mem

-- ReadUserBytes, page by page; each round copies a byte at least, so `len` rounds are enough.
pub read_user_bytes : ℕ → ℕ → ℕ → ℕ → Vmm → List ℕ
read_user_bytes zero pml4 va len s = []
read_user_bytes (suc rounds) pml4 va len s =
    let phys = translate_in_pml4 pml4 va s in
    let n = capped (page_size - va % page_size) len in
    let rest = read_user_bytes rounds pml4 ((va + n) % word_mod) (len - n) s in
    if len == 0 then [] else if phys == 0 then [] else bytes_at n phys s.mem ++ rest

-- for (i ...) WriteUserByte(pml4, va + i, bytes[i])
pub write_user_bytes : ℕ → ℕ → List ℕ → Vmm → Vmm
write_user_bytes pml4 va [] s = s
write_user_bytes pml4 va (b ∷ bs) s =
    write_user_bytes pml4 ((va + 1) % word_mod) bs (write_user_byte pml4 va b s)

-- A C string ends at its first zero.
pub until_zero : List ℕ → List ℕ
until_zero [] = []
until_zero (b ∷ bs) = let rest = until_zero bs in if b == 0 then [] else b ∷ rest

pub find_pipe : ℕ → ℕ → List ℕ → (ℕ → Pipe) → Option ℕ
find_pipe zero i name pipes = none
find_pipe (suc rounds) i name pipes =
    let rest = find_pipe rounds (i + 1) name pipes in
    if (pipes i).used && name_eq (pipes i).name name then some i else rest

pub free_pipe : ℕ → ℕ → (ℕ → Pipe) → Option ℕ
free_pipe zero i pipes = none
free_pipe (suc rounds) i pipes =
    let rest = free_pipe rounds (i + 1) pipes in if (pipes i).used then rest else some i

-- The handle, 0 if all pipes are in use.
pub open_pipe : List ℕ → (ℕ → Pipe) → ℕ × (ℕ → Pipe)
open_pipe name pipes = elim (find_pipe max_pipes 0 name pipes) [
  | some i ↦ (pipe_handle_base + i, pipes)
  | none ↦ elim (free_pipe max_pipes 0 pipes) [
    | none ↦ (0, pipes)
    | some i ↦ (
      pipe_handle_base + i,
      update pipes i (record (pipes i) { name = name; size = 0; used = true }),
    )
  ]
]

-- The bytes of the name are those of the caller, none if there is no caller.
pub user_name : ℕ → ℕ → ℕ → Files → List ℕ
user_name most va len s = elim (caller s.services.ps) [
  | none ↦ []
  | some p ↦
      let n = capped most len in until_zero (read_user_bytes n (cr3_of p s) va n s.services.vmm)
]

create_named_pipe : ℕ → ℕ → Files → ℕ × Files
create_named_pipe a1 a2 s =
    let (h, pipes) = open_pipe (user_name 31 a1 a2 s) s.pipes in (h, record s { pipes = pipes })

-- while (written < wlen && size < 512) data[size++] = the byte at va + written
pub fill_pipe : ℕ → ℕ → ℕ → ℕ → Vmm → Pipe → ℕ × Pipe
fill_pipe zero written pml4 va s p = (written, p)
fill_pipe (suc rounds) written pml4 va s p =
    let b = read_user_byte pml4 ((va + written) % word_mod) s in
    let more = record p { bytes = update p.bytes p.size b; size = p.size + 1 } in
    let rest = fill_pipe rounds (written + 1) pml4 va s more in
    if ltb p.size pipe_room then rest else (written, p)

pub write_pipe : ℕ → ℕ → ℕ → Files → ℕ × Files
write_pipe i a2 a3 s = elim (caller s.services.ps) [
  | none ↦ (0, s)
  | some p ↦
      let pipe = s.pipes i in
      let (n, filled) = fill_pipe (capped 512 a3) 0 (cr3_of p s) a2 s.services.vmm pipe in
      if not pipe.used then (0, s) else (n, record s { pipes = update s.pipes i filled })
]

-- The `n` bytes of a pipe from index `i` on.
pub pipe_bytes : ℕ → ℕ → (ℕ → ℕ) → List ℕ
pipe_bytes zero i bytes = []
pipe_bytes (suc n) i bytes = bytes i ∷ pipe_bytes n (i + 1) bytes

-- The branch of a read that would read a pipe; `len` is at most 512.
pub read_pipe : ℕ → ℕ → ℕ → ℕ → Files → ℕ × Files
read_pipe i a2 a3 len s = elim (caller s.services.ps) [
  | none ↦ (0, s)
  | some p ↦
      let pipe = s.pipes i in
      let got = pipe_bytes (capped (pipe.size - a3) len) a3 pipe.bytes in
      if not pipe.used || leb pipe.size a3
      then (0, s)
      else (length got, set_vmm (write_user_bytes (cr3_of p s) a2 got s.services.vmm) s)
]

-- The bytes at `va`, one by one.
pub user_bytes : ℕ → ℕ → ℕ → Vmm → List ℕ
user_bytes zero pml4 va s = []
user_bytes (suc n) pml4 va s = read_user_byte pml4 va s ∷ user_bytes n pml4 ((va + 1) % word_mod) s

pub write_node : ℕ → ℕ → ℕ → Files → ℕ × Files
write_node i a2 a3 s = elim (caller s.services.ps) [
  | none ↦ (0, s)
  | some p ↦
      let src = user_bytes (capped 2048 a3) (cr3_of p s) a2 s.services.vmm in
      let (n, nodes) = wwrite i src s.vfs.wnodes in
      (n, record s { vfs = record s.vfs { wnodes = nodes } })
]

-- What is printed, and STATUS_SUCCESS.
write_console : ℕ → ℕ → Files → ℕ × Files
write_console a2 a3 s = elim (caller s.services.ps) [
  | none ↦ (0, s)
  | some p ↦
      let n = capped 512 a3 in
      let got = read_user_bytes n (cr3_of p s) a2 n s.services.vmm in
      (0, record s { console = s.console ++ got })
]

abbrev pub is_pipe : ℕ → Bool
is_pipe a1 = leb pipe_handle_base a1 && ltb a1 (pipe_handle_base + max_pipes)

abbrev is_node : ℕ → Bool
is_node a1 = leb wfile_handle_base a1 && ltb a1 wfile_handle_max

pub write_file : ℕ → ℕ → ℕ → Files → ℕ × Files
write_file a1 a2 a3 s =
    if is_pipe a1
    then write_pipe (a1 - pipe_handle_base) a2 a3 s
    else if is_node a1
    then write_node (a1 - wfile_handle_base) a2 a3 s
    else write_console a2 a3 s

-- The loop for a pipe is the one of write_file; the branch after it has the same test and is not
-- reached.
pub read_file : ℕ → ℕ → ℕ → ℕ → Files → ℕ × Files
read_file a1 a2 a3 a4 s = elim (caller s.services.ps) [
  | none ↦ (0, s)
  | some p ↦
      let len = capped 512 a4 in
      let vmm = s.services.vmm in
      let node = wread (a1 - wfile_handle_base) a3 len s.vfs.wnodes in
      let handle = (a1 + word_mod - 1) % 2 ^ 32 in
      if is_pipe a1
      then write_pipe (a1 - pipe_handle_base) a2 a3 s
      else if is_pipe a1
      then read_pipe (a1 - pipe_handle_base) a2 a3 len s
      else if is_node a1
      then (length node, set_vmm (write_user_bytes (cr3_of p s) a2 node vmm) s)
      else elim (Vfs.read_file (λ a. peek8 a vmm.mem) s.vfs handle a3 len) [
        | none ↦ (0, s)
        | some got ↦ (length got, set_vmm (write_user_bytes (cr3_of p s) a2 got vmm) s)
      ]
]

create_file : ℕ → ℕ → Files → ℕ × Files
create_file a1 a2 s =
    let path = user_name 127 a1 a2 s in
    let (i, nodes) = wfind_or_create path false s.vfs.wnodes in
    elim (open_file s.vfs path) [
      | some h ↦ (h + 1, s)
      | none ↦ (
        if ltb i 16 then wfile_handle_base + i else 0,
        record s { vfs = record s.vfs { wnodes = nodes } },
      )
    ]

-- data[j] = the j-th byte
fill_from : ℕ → List ℕ → (ℕ → ℕ) → ℕ → ℕ
fill_from j [] bytes = bytes
fill_from j (b ∷ bs) bytes = fill_from (j + 1) bs (update bytes j b)

-- SetupTestPipe
setup_test_pipe : List ℕ → List ℕ → (ℕ → Pipe) → ℕ → Pipe
setup_test_pipe name data_bytes pipes = elim (free_pipe max_pipes 0 pipes) [
  | none ↦ pipes
  | some i ↦ update pipes i (record {
    name = take 31 name;
    size = length (take pipe_room data_bytes);
    used = true;
    bytes = fill_from 0 (take pipe_room data_bytes) (pipes i).bytes;
  })
]
