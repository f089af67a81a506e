-- ===== src/Shell/Tests.antt =====
-- A desktop with two windows, the second over the first, and its taskbar.
use micro_nt.Base.{◌+◌, ◌-◌, ◌++◌, ◌*◌, ◌≡◌, refl, true, false, List, [], ◌∷◌, some, none, arith}
use micro_nt.Shell.{
  ShellWindow, DesktopLayout, nothing, shell_window, taskbar, compute_taskbar, in_rect, on_close,
  on_body, hit_window, hit_taskbar, resolve_hit_target, or_else, hit_icon,
}
use micro_nt.Base.Int.{pos}
use micro_nt.Hal.Ring.Queue.{Cells, Holds}
use micro_nt.Hal.Mouse.{Packet, Mouse, ring_slots}
use micro_nt.Shell.Session.{Desk, close_window, handle_packet, pump_interactive_input}
use micro_nt.Shell.Session.Windows.{Fits}
use micro_nt.Shell.Session.Pump.{handle_all, pump_interactive_input-handle_all}
use micro_nt.Shell.Session.Drag.{handle_packet-grabbed}
use micro_nt.Shell.Hits.{hit_taskbar-compute_taskbar}
use micro_nt.Shell.Pointer.{PointerState, accepts}
use micro_nt.Shell.Pointer.Clicks.{
  Sample, process_all, count_clicks, releases, count_clicks-process_all,
}
use micro_nt.Shell.Scene.{DesktopScene, make_window, create_desktop_scene, attach_shell_surface}
use micro_nt.Shell.Scene.Foreground.{Reachable, created, attached}
use micro_nt.Shell.Activation.{ActivationState, create_activation_state}
use micro_nt.Shell.Surface.{Desktop, ShellSurface, secure_logon}

abbrev windows : List ShellWindow
windows =
    record { x = 100; y = 100; width = 400; height = 300 }
    ∷ record { x = 200; y = 200; width = 400; height = 300 }
    ∷ []

found : hit_window 250 300 0 windows ≡ some (shell_window, 1)
unfolding hit_window on_close on_body in_rect
found = refl

hit_taskbar-compute_taskbar_example :
    let tb = compute_taskbar 1920 1080 5 in
    hit_taskbar (tb.first_button_x + 3 * (tb.button_w + tb.button_gap) + 10) tb.y tb ≡ (taskbar, 3)
hit_taskbar-compute_taskbar_example =
    hit_taskbar-compute_taskbar 1920 1080 5 (omega arith) (omega arith) (omega arith) (omega arith)
      (omega arith) 3 10 (omega arith) (omega arith)

abbrev layout : DesktopLayout
layout = record {
  session_id = 1;
  screen_w = 1920;
  screen_h = 1080;
  icon_count = 6;
  windows = windows;
  start_menu_open = false;
  ready = true;
}

abbrev pointer : PointerState
pointer = record {
  session_id = 1;
  x = 0;
  y = 0;
  hot_target = nothing;
  target_index = 0;
  hit_testing_ready = true;
  left_button_down = false;
  click_delivered = false;
}

-- Press, drag, release, and press again.
abbrev samples : List Sample
samples =
    record { x = 250; y = 300; left_down = true }
    ∷ record { x = 260; y = 300; left_down = true }
    ∷ record { x = 260; y = 300; left_down = false }
    ∷ record { x = 30; y = 40; left_down = true }
    ∷ []

accepted : accepts pointer layout ≡ true
unfolding accepts
accepted = refl

count_clicks-process_all_example :
    count_clicks (process_all pointer layout samples).0 ≡ releases false samples
count_clicks-process_all_example = count_clicks-process_all pointer layout samples accepted

abbrev no_scene : DesktopScene
no_scene = record { session_id = 0; windows = []; z_order_ready = false }

abbrev scene : DesktopScene
scene = (attach_shell_surface 1 true (create_desktop_scene 1 no_scene).1).1

scene-Reachable : Reachable scene
scene-Reachable =
    attached 1 true (create_desktop_scene 1 no_scene).1 (created 1 no_scene (omega arith))

scene_ready : scene.z_order_ready ≡ true
unfolding attach_shell_surface create_desktop_scene make_window
scene_ready = refl

abbrev inactive : ActivationState
inactive = record {
  session_id = 0;
  active_window_index = 9;
  start_menu_open = false;
  taskbar_ready = false;
  activation_ready = false;
}

activated : (create_activation_state inactive layout).0 ≡ true
unfolding create_activation_state
activated = refl

abbrev on_second : PointerState
on_second = record pointer { hot_target = shell_window; target_index = 1 }

abbrev no_desktop : Desktop
no_desktop = record { session_id = 0; kind = secure_logon; name = none; active = false }

abbrev no_surface : ShellSurface
no_surface = record {
  session_id = 0;
  taskbar_ready = false;
  start_surface_ready = false;
  tray_ready = false;
  bound_to_explorer = false;
}

-- A desktop whose second window is pressed on its title bar.
abbrev desk : Desk
desk = record {
  layout = layout;
  pointer = pointer;
  activation = inactive;
  menu_open = false;
  dragging = false;
  drag_win = 0;
  drag_off_x = pos 0;
  drag_off_y = pos 0;
}

on_title : resolve_hit_target 250 210 layout ≡ (shell_window, 1)
unfolding resolve_hit_target compute_taskbar hit_window on_close on_body in_rect or_else hit_icon
on_title = refl

handle_packet-grabbed_example :
    (handle_packet 260 230 true (handle_packet 250 210 true desk)).layout.windows
    ≡ close_window 1 windows
      ++ record { x = 200 + 260 - 250; y = 200 + 230 - 210; width = 400; height = 300 } ∷ []
handle_packet-grabbed_example =
    handle_packet-grabbed 250 210 260 230 1 (record { x = 200; y = 200; width = 400; height = 300 })
      desk accepted refl refl on_title refl (omega arith)

abbrev packet : Packet
packet = record { delta_x = pos 3; delta_y = pos 0; left = true; right = false; middle = false }

-- A mouse with one packet.
abbrev mouse : Mouse
mouse = record {
  buffer = record { ring = λ _. packet; head = 0; tail = 1 };
  packet = λ _. 0;
  packet_index = 0;
  x = 250;
  y = 210;
  ready = true;
}

mouse-Holds : Holds ring_slots mouse.buffer (packet ∷ [])
unfolding Cells
mouse-Holds = record {
  cells = (refl, _);
  size = refl;
  head_in = omega arith;
  tail_in = omega arith;
}

desk-Fits : Fits desk
desk-Fits = record { few = omega arith; held = λ e. absurd (cc) }

pump_interactive_input-handle_all_example :
    (pump_interactive_input mouse desk).2 ≡ handle_all 250 210 (packet ∷ []) desk
pump_interactive_input-handle_all_example =
    (pump_interactive_input-handle_all (packet ∷ []) mouse desk mouse-Holds refl refl refl
      desk-Fits).2
