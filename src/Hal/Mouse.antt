-- ===== src/Hal/Mouse.antt =====
-- kernel/hal/x64/mouse.cpp: the bytes of the PS/2 mouse to packets and a position on the screen. The
-- status and the byte are what the interrupt reads from the ports; the framebuffer's width and height
-- are what VGA::GetFramebufferInfo gives, if anything.
pub mod Packets
use micro_nt.Base.{
  ℕ, ◌+◌, ◌-◌, ◌%◌, ◌/◌, Bool, ◌&&◌, Option, none, some, ltb, ◌==◌, if◌then◌else◌, update,
}
use micro_nt.Base.Int.{ℤ, pos, negsuc}
use micro_nt.Hal.Ring.{Ring, push, try_read}

pub record Packet : Type 0 where
  pub delta_x : ℤ
  pub delta_y : ℤ
  pub left : Bool
  pub right : Bool
  pub middle : Bool

abbrev pub ring_slots : ℕ
ring_slots = 32

-- The position is never negative between calls.
pub record Mouse : Type 0 where
  pub buffer : Ring Packet
  pub packet : ℕ → ℕ
  pub packet_index : ℕ
  pub x : ℕ
  pub y : ℕ
  pub ready : Bool

-- static_cast<i8>
pub signed_byte : ℕ → ℤ
signed_byte b = if ltb b 128 then pos b else negsuc (255 - b)

-- x += d, or 0 if that is negative; and x -= d.
pub moved : ℕ → ℤ → ℕ
moved x (pos d) = x + d
moved x (negsuc d) = x - (d + 1)

unfoldable pub moved_back : ℕ → ℤ → ℕ
moved_back x (pos d) = x - d
moved_back x (negsuc d) = x + (d + 1)

pub capped : ℕ → ℕ → ℕ
capped x most = if ltb most x then most else x

-- The largest position: the screen less the cursor.
unfoldable pub max_x : Option (ℕ × ℕ) → ℕ
max_x none = 1896
max_x (some (width, height)) = if ltb 24 width then width - 24 else 0

unfoldable pub max_y : Option (ℕ × ℕ) → ℕ
max_y none = 1048
max_y (some (width, height)) = if ltb 32 height then height - 32 else 0

-- The buttons are the low bits of the first byte.
pub packet_of : ℕ → ℕ → ℕ → Packet
packet_of b0 b1 b2 = record {
  delta_x = signed_byte b1;
  delta_y = signed_byte b2;
  left = b0 % 2 == 1;
  right = b0 / 2 % 2 == 1;
  middle = b0 / 4 % 2 == 1;
}

pub apply_packet : Option (ℕ × ℕ) → Mouse → Mouse
apply_packet fb m =
    let p = packet_of (m.packet 0) (m.packet 1) (m.packet 2) in
    record m {
      x = capped (moved m.x p.delta_x) (max_x fb);
      y = capped (moved_back m.y p.delta_y) (max_y fb);
      buffer = push ring_slots p m.buffer;
    }

pub handle_irq : Option (ℕ × ℕ) → ℕ → ℕ → Mouse → Mouse
handle_irq fb status byte m =
    let filled = record m {
      packet = update m.packet m.packet_index byte;
      packet_index = m.packet_index + 1;
    } in
    if status % 2 == 0
    then m
    else if m.packet_index == 0 && byte / 8 % 2 == 0
    then m
    else if m.packet_index + 1 == 3
    then apply_packet fb (record filled { packet_index = 0 })
    else filled

unfoldable pub read_packet : Mouse → Option Packet × Mouse
read_packet m = let (out, r) = try_read ring_slots m.buffer in (out, record m { buffer = r })

pub is_ready : Mouse → Bool
is_ready m = m.ready

unfoldable pub current_position : Mouse → Option (ℕ × ℕ)
current_position m = if m.ready then some (m.x, m.y) else none
