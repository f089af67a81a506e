-- ===== src/Shell/Session/Pump.antt =====
-- The loop over the packets of the mouse.
use micro_nt.Base.{
  ℕ, zero, suc, ◌<◌, ◌≡◌, refl, sym, ap₂, subst, ◌∙◌, Bool, true, false, not, ◌||◌, some, List, [],
  ◌∷◌, length, arith,
}
use micro_nt.Hal.Ring.Queue.{Holds, first, rest, try_read-Holds}
use micro_nt.Hal.Mouse.{Packet, Mouse, ring_slots, read_packet, current_position}
use micro_nt.Shell.Session.{Desk, handle_packet, pump, pump_interactive_input}
use micro_nt.Shell.Session.Windows.{Fits, handle_packet-Fits}

-- The packets of a queue, one after another, with the pointer where it is.
pub handle_all : ℕ → ℕ → List Packet → Desk → Desk
handle_all mx my [] d = d
handle_all mx my (p ∷ ps) d = handle_all mx my ps (handle_packet mx my p.left d)

pub some_packet : List Packet → Bool
some_packet [] = false
some_packet (p ∷ ps) = true

handle_all-Fits : (mx my : ℕ) (ps : List Packet) (d : Desk) → Fits d → Fits (handle_all mx my ps d)
unfolding handle_all
handle_all-Fits mx my [] d v = v
handle_all-Fits mx my (p ∷ ps) d v =
    handle_all-Fits mx my ps (handle_packet mx my p.left d) (handle_packet-Fits mx my p.left d v)

-- A read: the packet, and a mouse that is where it was.
reads :
    (m : Mouse) (q : List Packet)
    → Holds ring_slots m.buffer q
    → ((read_packet m).0 ≡ first q)
      × Holds ring_slots (read_packet m).1.buffer (rest q)
      × ((read_packet m).1.x ≡ m.x)
      × ((read_packet m).1.y ≡ m.y)
      × ((read_packet m).1.ready ≡ m.ready)
unfolding read_packet
reads m q v =
    let (out, holds) = try_read-Holds ring_slots m.buffer q v in (out, holds, refl, refl, refl)

placed : (m : Mouse) → m.ready ≡ true → current_position m ≡ some (m.x, m.y)
unfolding current_position
placed m up = rw up refl

pump-handle_all :
    (rounds : ℕ) (changed : Bool) (q : List Packet) (m : Mouse) (d : Desk)
    → length q < rounds
    → Holds ring_slots m.buffer q
    → m.ready ≡ true
    → let (c, m', d') = pump rounds changed m d in
      (c ≡ (changed || some_packet q))
      × Holds ring_slots m'.buffer []
      × (d' ≡ handle_all m.x m.y q d)
unfolding pump handle_all some_packet
pump-handle_all zero changed q m d lt v up = absurd (omega (arith, lt))
pump-handle_all (suc rounds) changed [] m d lt v up =
    let (out, holds, x, y, ready) = reads m [] v in
    let same : changed ≡ (changed || false) = ground arith in rw (out, pump) (same, v, refl)
pump-handle_all (suc rounds) changed (p ∷ q) m d lt v up =
    let (out, holds, x, y, ready) = reads m (p ∷ q) v in
    let next = (read_packet m).1 in
    let at : current_position next ≡ some (m.x, m.y) =
      placed next (ready ∙ up) ∙ ap₂ (λ a b. some (a, b)) x y in
    let (c, empty, all) =
      pump-handle_all rounds true q next (handle_packet m.x m.y p.left d) (omega (arith, lt)) holds
        (ready ∙ up) in
    let same : true ≡ (changed || true) = ground arith in
    rw (out, at, pump)
      (c ∙ same, empty, all ∙ ap₂ (λ a b. handle_all a b q (handle_packet m.x m.y p.left d)) x y)

-- If the mouse is ready, its ring holds a queue of packets, hit testing and the layout are ready,
-- at most eight windows are open and a drag holds one of them, PumpInteractiveInput ends with the
-- ring empty, reports a change exactly when there was a packet, leaves the desktop as handling
-- the packets one after another at the mouse's position does, and still at most eight windows are
-- open and a drag holds one of them.
pub pump_interactive_input-handle_all :
    (q : List Packet) (m : Mouse) (d : Desk)
    → Holds ring_slots m.buffer q
    → m.ready ≡ true
    → d.pointer.hit_testing_ready ≡ true
    → d.layout.ready ≡ true
    → Fits d
    → let (changed, m', d') = pump_interactive_input m d in
      (changed ≡ some_packet q)
      × Holds ring_slots m'.buffer []
      × (d' ≡ handle_all m.x m.y q d)
      × Fits d'
unfolding pump_interactive_input
pump_interactive_input-handle_all q m d v up hits ready fits =
    let go : (not d.pointer.hit_testing_ready || not d.layout.ready) ≡ false =
      ground (arith, hits, ready) in
    let (c, empty, all) =
      pump-handle_all 32 false q m d (ground (arith, v.size, v.head_in, v.tail_in)) v up in
    rw go (c, empty, all, subst Fits (sym all) (handle_all-Fits m.x m.y q d fits))
