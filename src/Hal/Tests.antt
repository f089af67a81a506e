-- ===== src/Hal/Tests.antt =====
-- A keyboard on which `h` is typed, and a mouse that moves.
use micro_nt.Base.{◌≡◌, refl, false, none, [], ◌∷◌, arith}
use micro_nt.Base.Int.{pos}
use micro_nt.Hal.Ring.Queue.{Cells}
use micro_nt.Hal.Keyboard.{Keyboard}
use micro_nt.Hal.Keyboard.Typing.{Keys, irq, read, run, expect, Shows, run-expect}
use micro_nt.Hal.Mouse.{Packet, Mouse, max_x, max_y}
use micro_nt.Hal.Mouse.Packets.{whole, stray, receive, queued, Receives, receive-Receives}

abbrev keyboard : Keyboard
keyboard = record {
  buffer = record { ring = λ _. 0; head = 0; tail = 0 };
  shift = false;
  capslock = false;
  ext = false;
}

abbrev no_keys : Keys
no_keys = record { shift = false; capslock = false; ext = false }

keyboard-Shows : Shows keyboard no_keys []
unfolding Cells
keyboard-Shows = record {
  holds = record { cells = _; size = refl; head_in = omega arith; tail_in = omega arith };
  shift = refl;
  capslock = refl;
  ext = refl;
}

run-expect_example :
    run (irq 0x2A ∷ (irq 0x23 ∷ (irq 0xA3 ∷ (read ∷ (read ∷ []))))) keyboard
    ≡ expect (irq 0x2A ∷ (irq 0x23 ∷ (irq 0xA3 ∷ (read ∷ (read ∷ []))))) no_keys []
run-expect_example =
    run-expect (irq 0x2A ∷ (irq 0x23 ∷ (irq 0xA3 ∷ (read ∷ (read ∷ []))))) keyboard no_keys []
      keyboard-Shows

abbrev no_packet : Packet
no_packet = record { delta_x = pos 0; delta_y = pos 0; left = false; right = false; middle = false }

abbrev mouse : Mouse
mouse = record {
  buffer = record { ring = λ _. no_packet; head = 0; tail = 0 };
  packet = λ _. 0;
  packet_index = 0;
  x = 1700;
  y = 560;
  ready = false;
}

mouse-Receives : Receives none mouse []
unfolding Cells max_x max_y
mouse-Receives = record {
  holds = record { cells = _; size = refl; head_in = omega arith; tail_in = omega arith };
  between = refl;
  in_x = omega arith;
  in_y = omega arith;
}

receive-Receives_example :
    Receives none
      (receive none (stray 1 refl ∷ (whole 9 3 0xFE refl ∷ [])) mouse)
      (queued (stray 1 refl ∷ (whole 9 3 0xFE refl ∷ [])) [])
receive-Receives_example =
    receive-Receives none (stray 1 refl ∷ (whole 9 3 0xFE refl ∷ [])) mouse [] mouse-Receives
