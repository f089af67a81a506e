-- ===== src/Rtl.antt =====
-- kernel/rtl/string.cpp: the memory and string routines that the rest of the kernel calls.
-- Memory is a function of its addresses into bytes; an address past the end of a block is not checked.
pub mod Memory
pub mod Strings
pub mod Text
mod Tests
use micro_nt.Base.{
  ℕ, zero, suc, ◌+◌, ◌-◌, ◌%◌, Bool, true, false, not, ◌&&◌, Option, none, some, ltb, ◌==◌,
  if◌then◌else◌, update,
}
use micro_nt.Base.Int.{ℤ, pos, negsuc}

pub memset : ℕ → ℕ → ℕ → (ℕ → ℕ) → ℕ → ℕ
memset dst val zero mem = mem
memset dst val (suc len) mem = memset (dst + 1) val len (update mem dst (val % 256))

pub memcpy : ℕ → ℕ → ℕ → (ℕ → ℕ) → ℕ → ℕ
memcpy dst src zero mem = mem
memcpy dst src (suc len) mem = memcpy (dst + 1) (src + 1) len (update mem dst (mem src))

-- The loop from the end: `len` is what is left of the region.
pub copy_back : ℕ → ℕ → ℕ → (ℕ → ℕ) → ℕ → ℕ
copy_back dst src zero mem = mem
copy_back dst src (suc len) mem = copy_back dst src len (update mem (dst + len) (mem (src + len)))

pub memmove : ℕ → ℕ → ℕ → (ℕ → ℕ) → ℕ → ℕ
memmove dst src len mem =
    if ltb dst src
    then memcpy dst src len mem
    else if ltb src dst
    then copy_back dst src len mem
    else mem

-- (int)a - (int)b
pub diff : ℕ → ℕ → ℤ
diff a b = if ltb a b then negsuc (b - a - 1) else pos (a - b)

pub memcmp : ℕ → ℕ → ℕ → (ℕ → ℕ) → ℤ
memcmp a b zero mem = pos 0
memcmp a b (suc len) mem =
    let rest = memcmp (a + 1) (b + 1) len mem in
    if mem a == mem b then rest else diff (mem a) (mem b)

-- for (; n; --n) *d++ = 0
pub pad : ℕ → ℕ → (ℕ → ℕ) → ℕ → ℕ
pad d zero mem = mem
pad d (suc n) mem = pad (d + 1) n (update mem d 0)

-- The byte that ends the first loop is not counted in `n`.
pub strncpy : ℕ → ℕ → ℕ → (ℕ → ℕ) → ℕ → ℕ
unfolding pad
strncpy dst src zero mem = mem
strncpy dst src (suc n) mem =
    let next = update mem dst (mem src) in
    let rest = strncpy (dst + 1) (src + 1) n next in
    if mem src == 0 then pad (dst + 1) (suc n) next else rest

-- while (s[n]) ++n; none if the fuel runs out
pub strlen_from : ℕ → ℕ → ℕ → (ℕ → ℕ) → Option ℕ
strlen_from zero s n mem = none
strlen_from (suc fuel) s n mem =
    let rest = strlen_from fuel s (n + 1) mem in if mem (s + n) == 0 then some n else rest

pub strlen : ℕ → ℕ → (ℕ → ℕ) → Option ℕ
strlen fuel s mem = strlen_from fuel s 0 mem

pub strcmp : ℕ → ℕ → ℕ → (ℕ → ℕ) → Option ℤ
strcmp zero a b mem = none
strcmp (suc fuel) a b mem =
    let rest = strcmp fuel (a + 1) (b + 1) mem in
    if not (mem a == 0) && mem a == mem b then rest else some (diff (mem a) (mem b))

pub strncmp : ℕ → ℕ → ℕ → (ℕ → ℕ) → ℤ
strncmp a b zero mem = pos 0
strncmp a b (suc n) mem =
    let rest = strncmp (a + 1) (b + 1) n mem in
    if not (mem a == 0) && mem a == mem b then rest else diff (mem a) (mem b)

pub strcpy : ℕ → ℕ → ℕ → (ℕ → ℕ) → Option (ℕ → ℕ)
strcpy zero dst src mem = none
strcpy (suc fuel) dst src mem =
    let next = update mem dst (mem src) in
    let rest = strcpy fuel (dst + 1) (src + 1) next in if mem src == 0 then some next else rest

-- The address found, 0 for null; `c` is the 32-bit word of the int.
pub strchr : ℕ → ℕ → ℕ → (ℕ → ℕ) → Option ℕ
strchr zero s c mem = none
strchr (suc fuel) s c mem =
    let rest = strchr fuel (s + 1) c mem in
    if mem s == 0 then some (if c == 0 then s else 0) else if mem s == c % 256 then some s else rest
