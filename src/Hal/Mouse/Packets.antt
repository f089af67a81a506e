-- ===== src/Hal/Mouse/Packets.antt =====
-- What the bytes of a mouse give: packets in order, and a position on the screen.
use micro_nt.Base.{
  ℕ, ◌+◌, ◌%◌, ◌/◌, ◌≤◌, ◌≡◌, refl, true, false, ◌&&◌, Option, some, List, [], ◌∷◌, ◌++◌, length,
  ltb, ◌==◌, if◌then◌else◌, arith, update,
}
use micro_nt.Hal.Ring.Queue.{Holds, push-Holds, try_read-Holds, first, rest}
use micro_nt.Hal.Mouse.{
  Packet, Mouse, ring_slots, capped, max_x, max_y, packet_of, apply_packet, handle_irq, read_packet,
  current_position, is_ready,
}

-- What a mouse sends: whole packets, whose first byte has bit 3, and stray bytes without it.
pub data Frame : Type 0 where
  stray : (b : ℕ) → b / 8 % 2 ≡ 0 → Frame
  whole : (b0 b1 b2 : ℕ) → b0 / 8 % 2 ≡ 1 → Frame

-- A byte that arrives with a status whose bit 0 is set.
pub arrives : Option (ℕ × ℕ) → ℕ → Mouse → Mouse
arrives fb b m = handle_irq fb 1 b m

pub receive : Option (ℕ × ℕ) → List Frame → Mouse → Mouse
receive fb [] m = m
receive fb (stray b e ∷ fs) m = receive fb fs (arrives fb b m)
receive fb (whole b0 b1 b2 e ∷ fs) m =
    receive fb fs (arrives fb b2 (arrives fb b1 (arrives fb b0 m)))

-- The packets in a queue of at most 31.
pub queued : List Frame → List Packet → List Packet
queued [] q = q
queued (stray b e ∷ fs) q = queued fs q
queued (whole b0 b1 b2 e ∷ fs) q =
    queued fs (if ltb (length q + 1) ring_slots then q ++ packet_of b0 b1 b2 ∷ [] else q)

pub record Receives (fb : Option (ℕ × ℕ)) (m : Mouse) (q : List Packet) : Type 0 where
  pub holds : Holds ring_slots m.buffer q
  pub between : m.packet_index ≡ 0
  pub in_x : m.x ≤ max_x fb
  pub in_y : m.y ≤ max_y fb

capped-le : (x most : ℕ) → capped x most ≤ most
unfolding capped
capped-le x most = ground arith

stray-Receives :
    (fb : Option (ℕ × ℕ)) (b : ℕ) (m : Mouse) (q : List Packet)
    → b / 8 % 2 ≡ 0
    → Receives fb m q
    → arrives fb b m ≡ m
unfolding arrives handle_irq
stray-Receives fb b m q e v =
    let skipped : (m.packet_index == 0 && b / 8 % 2 == 0) ≡ true = ground (arith, e, v.between) in
    rw skipped refl

-- The three bytes of a packet.
whole-apply :
    (fb : Option (ℕ × ℕ)) (b0 b1 b2 : ℕ) (m : Mouse)
    → b0 / 8 % 2 ≡ 1
    → m.packet_index ≡ 0
    → arrives fb b2 (arrives fb b1 (arrives fb b0 m))
      ≡ apply_packet fb
          (record m { packet = update (update (update m.packet 0 b0) 1 b1) 2 b2; packet_index = 0 })
unfolding arrives handle_irq
whole-apply fb b0 b1 b2 m e at =
    let kept : b0 / 8 % 2 == 0 ≡ false = ground (arith, e) in rw (at, kept) refl

whole-Receives :
    (fb : Option (ℕ × ℕ)) (b0 b1 b2 : ℕ) (m : Mouse) (q : List Packet)
    → b0 / 8 % 2 ≡ 1
    → Receives fb m q
    → Receives fb
        (arrives fb b2 (arrives fb b1 (arrives fb b0 m)))
        (if ltb (length q + 1) ring_slots then q ++ packet_of b0 b1 b2 ∷ [] else q)
unfolding apply_packet
whole-Receives fb b0 b1 b2 m q e v = rw (whole-apply fb b0 b1 b2 m e v.between) (record {
  holds = push-Holds ring_slots (packet_of b0 b1 b2) m.buffer q (omega arith) v.holds;
  between = refl;
  in_x = capped-le _ (max_x fb);
  in_y = capped-le _ (max_y fb);
})

-- If the ring holds a queue of packets, no packet is begun and the position is on the screen,
-- then after any whole packets and stray bytes, which lack bit 3, the ring holds the queue of at
-- most 31 packets to which each whole packet was added if there was room, no packet is begun, and
-- the position is on the screen.
pub receive-Receives :
    (fb : Option (ℕ × ℕ)) (fs : List Frame) (m : Mouse) (q : List Packet)
    → Receives fb m q
    → Receives fb (receive fb fs m) (queued fs q)
unfolding receive queued
receive-Receives fb [] m q v = v
receive-Receives fb (stray b e ∷ fs) m q v =
    rw (stray-Receives fb b m q e v) (receive-Receives fb fs m q v)
receive-Receives fb (whole b0 b1 b2 e ∷ fs) m q v =
    receive-Receives fb fs _ _ (whole-Receives fb b0 b1 b2 m q e v)

-- A reader gets the oldest packet, and nothing else changes.
pub read_packet-Receives :
    (fb : Option (ℕ × ℕ)) (m : Mouse) (q : List Packet)
    → Receives fb m q
    → ((read_packet m).0 ≡ first q) × Receives fb (read_packet m).1 (rest q)
unfolding read_packet
read_packet-Receives fb m q v =
    let (out, holds) = try_read-Holds ring_slots m.buffer q v.holds in
    (out, record { holds = holds; between = v.between; in_x = v.in_x; in_y = v.in_y })

-- A position that is given is on the screen.
pub current_position-Receives :
    (fb : Option (ℕ × ℕ)) (m : Mouse) (q : List Packet)
    → Receives fb m q
    → is_ready m ≡ true
    → (x : ℕ) × (y : ℕ) × (current_position m ≡ some (x, y)) × (x ≤ max_x fb) × (y ≤ max_y fb)
unfolding current_position is_ready
current_position-Receives fb m q v up = (m.x, m.y, rw up refl, v.in_x, v.in_y)
