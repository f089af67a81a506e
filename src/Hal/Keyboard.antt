-- ===== src/Hal/Keyboard.antt =====
-- kernel/hal/x64/keyboard.cpp: scan codes of set 1 to characters, with Shift, Caps Lock and the arrows.
-- A scan code is the byte that the interrupt reads from the port.
pub mod Typing
use micro_nt.Base.{
  ℕ, zero, suc, ◌+◌, ◌%◌, ◌/◌, Bool, true, false, not, ◌&&◌, ◌||◌, Option, none, some, List, [],
  ◌∷◌, leb, ltb, ◌==◌, if◌then◌else◌,
}
use micro_nt.Hal.Ring.{Ring, push, try_read}

-- The rows of the tables, from scan code 0 on; the rest of the 128 entries is 0.
abbrev lo : List ℕ
lo =
    0 ∷ 0 ∷ b'1' ∷ b'2' ∷ b'3' ∷ b'4' ∷ b'5' ∷ b'6' ∷ b'7' ∷ b'8' ∷ b'9' ∷ b'0' ∷ b'-' ∷ b'=' ∷ 8
    ∷ 9 ∷ b'q' ∷ b'w' ∷ b'e' ∷ b'r' ∷ b't' ∷ b'y' ∷ b'u' ∷ b'i' ∷ b'o' ∷ b'p' ∷ b'[' ∷ b']' ∷ 10 ∷ 0
    ∷ b'a' ∷ b's' ∷ b'd' ∷ b'f' ∷ b'g' ∷ b'h' ∷ b'j' ∷ b'k' ∷ b'l' ∷ b';' ∷ 39 ∷ b'`' ∷ 0 ∷ 92
    ∷ b'z' ∷ b'x' ∷ b'c' ∷ b'v' ∷ b'b' ∷ b'n' ∷ b'm' ∷ b',' ∷ b'.' ∷ b'/' ∷ 0 ∷ b'*' ∷ 0 ∷ b' ' ∷ 0
    ∷ 0 ∷ 0 ∷ 0 ∷ 0 ∷ 0 ∷ 0 ∷ 0 ∷ 0 ∷ 0 ∷ 0 ∷ 0 ∷ 0 ∷ b'7' ∷ b'8' ∷ b'9' ∷ b'-' ∷ b'4' ∷ b'5' ∷ b'6'
    ∷ b'+' ∷ b'1' ∷ b'2' ∷ b'3' ∷ b'0' ∷ b'.' ∷ []

abbrev hi : List ℕ
hi =
    0 ∷ 0 ∷ b'!' ∷ b'@' ∷ b'#' ∷ b'$' ∷ b'%' ∷ b'^' ∷ b'&' ∷ b'*' ∷ b'(' ∷ b')' ∷ b'_' ∷ b'+' ∷ 8
    ∷ 9 ∷ b'Q' ∷ b'W' ∷ b'E' ∷ b'R' ∷ b'T' ∷ b'Y' ∷ b'U' ∷ b'I' ∷ b'O' ∷ b'P' ∷ b'{' ∷ b'}' ∷ 10 ∷ 0
    ∷ b'A' ∷ b'S' ∷ b'D' ∷ b'F' ∷ b'G' ∷ b'H' ∷ b'J' ∷ b'K' ∷ b'L' ∷ b':' ∷ 34 ∷ b'~' ∷ 0 ∷ b'|'
    ∷ b'Z' ∷ b'X' ∷ b'C' ∷ b'V' ∷ b'B' ∷ b'N' ∷ b'M' ∷ b'<' ∷ b'>' ∷ b'?' ∷ 0 ∷ b'*' ∷ 0 ∷ b' ' ∷ 0
    ∷ 0 ∷ 0 ∷ 0 ∷ 0 ∷ 0 ∷ 0 ∷ 0 ∷ 0 ∷ 0 ∷ 0 ∷ 0 ∷ 0 ∷ b'7' ∷ b'8' ∷ b'9' ∷ b'-' ∷ b'4' ∷ b'5' ∷ b'6'
    ∷ b'+' ∷ b'1' ∷ b'2' ∷ b'3' ∷ b'0' ∷ b'.' ∷ []

pub char_at : List ℕ → ℕ → ℕ
char_at [] i = 0
char_at (x ∷ xs) zero = x
char_at (x ∷ xs) (suc i) = char_at xs i

abbrev pub key_up : ℕ
key_up = 0x10

abbrev pub key_down : ℕ
key_down = 0x11

abbrev pub key_left : ℕ
key_left = 0x12

abbrev pub key_right : ℕ
key_right = 0x13

abbrev pub ring_slots : ℕ
ring_slots = 128

pub record Keyboard : Type 0 where
  pub buffer : Ring ℕ
  pub shift : Bool
  pub capslock : Bool
  pub ext : Bool

pub init : Keyboard → Keyboard
init kb = record {
  buffer = record kb.buffer { head = 0; tail = 0 };
  shift = false;
  capslock = false;
  ext = false;
}

pub put : ℕ → Keyboard → Keyboard
put c kb = record kb { buffer = push ring_slots c kb.buffer }

-- An arrow key, after the prefix 0xE0.
pub extended_key : ℕ → Keyboard → Keyboard
extended_key make kb =
    if make == 0x48
    then put key_up kb
    else if make == 0x50
    then put key_down kb
    else if make == 0x4B
    then put key_left kb
    else if make == 0x4D
    then put key_right kb
    else kb

pub differ : Bool → Bool → Bool
differ a b = if a then not b else b

-- The character of a key that is pressed.
pub char_of : Bool → Bool → ℕ → ℕ
char_of shift capslock make =
    let c = char_at lo make in
    let use_hi = if leb b'a' c && leb c b'z' then differ shift capslock else shift in
    if use_hi then char_at hi make else c

pub handle_irq : ℕ → Keyboard → Keyboard
handle_irq sc kb =
    let released = leb 128 sc in
    let make = sc % 128 in
    let c = char_of kb.shift kb.capslock make in
    if sc == 0xE0
    then record kb { ext = true }
    else if kb.ext
    then (let plain = record kb { ext = false } in
        if released then plain else extended_key make plain)
    else if make == 0x2A || make == 0x36
    then record kb { shift = not released }
    else if make == 0x3A && not released
    then record kb { capslock = not kb.capslock }
    else if released || leb 128 make
    then kb
    else if c == 0
    then kb
    else put c kb

pub read_key : Keyboard → Option ℕ × Keyboard
read_key kb = let (out, r) = try_read ring_slots kb.buffer in (out, record kb { buffer = r })
