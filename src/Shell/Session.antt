-- ===== src/Shell/Session.antt =====
-- kernel/sm/session_manager.cpp: the desktop of the session as the mouse moves it. Clicks open, close and
-- raise windows, and a press on a title bar drags one. Titles and the drawing of the screen are left out.
pub mod Windows
pub mod Pump
pub mod Drag
use micro_nt.Base.{
  ℕ, zero, suc, ◌+◌, ◌*◌, ◌%◌, ◌^◌, Bool, true, false, not, ◌&&◌, ◌||◌, Option, none, some, List,
  [], ◌∷◌, ◌++◌, length, drop, get_elem?, ltb, leb, ◌-◌, if◌then◌else◌,
}
use micro_nt.Base.Int.{ℤ, pos, negsuc}
use micro_nt.Hal.Mouse.{Packet, Mouse, moved_back, read_packet, current_position}
use micro_nt.Shell.{
  ShellWindow, DesktopLayout, HitTargetKind, nothing, desktop, desktop_icon, shell_window,
  window_close, start_button, start_menu, taskbar, tray,
}
use micro_nt.Shell.Pointer.{PointerState, PointerEvent, process_pointer}
use micro_nt.Shell.Activation.{ActivationState, is_window}

-- The statics of the session manager that the mouse changes, with the mouse; `menu_open` is the Start
-- menu's own flag.
pub record Desk : Type 0 where
  pub layout : DesktopLayout
  pub pointer : PointerState
  pub activation : ActivationState
  pub menu_open : Bool
  pub dragging : Bool
  pub drag_win : ℕ
  pub drag_off_x : ℤ
  pub drag_off_y : ℤ

abbrev pub max_windows : ℕ
max_windows = 8

pub set_windows : List ShellWindow → Desk → Desk
set_windows ws d = record d { layout = record d.layout { windows = ws } }

-- A window for the i-th place of the cascade.
pub cascaded : ℕ → ShellWindow
cascaded i = record { x = 320 + i * 28; y = 140 + i * 28; width = 560; height = 360 }

-- The eighth window takes the place of the oldest one.
pub open_window : List ShellWindow → List ShellWindow
open_window ws =
    let kept = if leb max_windows (length ws) then drop 1 ws else ws in
    kept ++ cascaded (length kept) ∷ []

-- The windows after the index move down by one.
pub close_window : ℕ → List ShellWindow → List ShellWindow
close_window i [] = []
close_window zero (w ∷ ws) = ws
close_window (suc i) (w ∷ ws) = w ∷ close_window i ws

-- No index is 2^32 - 1, for which idx + 1 is 0.
pub focus_window : ℕ → List ShellWindow → List ShellWindow
focus_window i ws =
    if leb (length ws) (i + 1)
    then ws
    else elim (get_elem? ws i) [ none ↦ ws | some w ↦ close_window i ws ++ w ∷ [] ]

pub set_start_menu : Bool → Desk → Desk
set_start_menu shown d = record d {
  layout = record d.layout { start_menu_open = shown };
  activation = record d.activation { start_menu_open = shown };
  menu_open = shown;
}

pub handle_shell_click : HitTargetKind → ℕ → Desk → Desk
handle_shell_click start_button i d = set_start_menu (not d.layout.start_menu_open) d
handle_shell_click start_menu i d =
    set_start_menu false (set_windows (open_window d.layout.windows) d)
handle_shell_click desktop_icon i d =
    if ltb i d.layout.icon_count then set_windows (open_window d.layout.windows) d else d
handle_shell_click window_close i d = set_windows (close_window i d.layout.windows) d
handle_shell_click shell_window i d = set_windows (focus_window i d.layout.windows) d
handle_shell_click taskbar i d = set_windows (focus_window i d.layout.windows) d
handle_shell_click nothing i d = d
handle_shell_click desktop i d = d
handle_shell_click tray i d = d

-- The difference of two coordinates, as an i32.
pub difference : ℕ → ℕ → ℤ
difference a b = if leb b a then pos (a - b) else negsuc (b - a - 1)

-- The window of an index, at another place.
pub put_at : ℕ → ℕ → ℕ → List ShellWindow → List ShellWindow
put_at i x y [] = []
put_at zero x y (w ∷ ws) = record w { x = x; y = y } ∷ ws
put_at (suc i) x y (w ∷ ws) = w ∷ put_at i x y ws

-- An active drag: nx > 0 ? nx : 0 for each coordinate.
pub drag : ℕ → ℕ → Bool → Desk → Desk
drag mx my down d =
    if down && ltb d.drag_win (length d.layout.windows)
    then set_windows
        (put_at d.drag_win (moved_back mx d.drag_off_x) (moved_back my d.drag_off_y)
          d.layout.windows)
        d
    else record d { dragging = false }

-- The grab of the i-th window, which is raised.
pub grab : ℕ → ℕ → ℕ → ShellWindow → Desk → Desk
grab mx my i w d =
    let raised = focus_window i d.layout.windows in
    record (set_windows raised d) {
      dragging = true;
      drag_win = length raised - 1;
      drag_off_x = difference mx w.x;
      drag_off_y = difference my w.y;
    }

-- The window whose title bar is under the pointer, if any.
pub title_hit : ℕ → PointerState → List ShellWindow → Option ShellWindow
title_hit my p ws = elim (get_elem? ws p.target_index) [
  | none ↦ none
  | some w ↦ if is_window p.hot_target && ltb my ((w.y + 32) % 2 ^ 32) then some w else none
]

pub click : PointerEvent → Desk → Desk
click event d = if event.clicked then handle_shell_click event.target event.target_index d else d

-- What a sample does after ProcessPointer: whether a window is dragged and whether it is a press.
pub act : Bool → Bool → ℕ → ℕ → Bool → PointerEvent → Desk → Desk
act true press mx my down event d = drag mx my down d
act false false mx my down event d = click event d
act false true mx my down event d = elim (title_hit my d.pointer d.layout.windows) [
  | none ↦ click event d
  | some w ↦ grab mx my d.pointer.target_index w d
]

-- One packet, with the pointer at (mx, my).
pub handle_packet : ℕ → ℕ → Bool → Desk → Desk
handle_packet mx my down d =
    let (event, p) = process_pointer d.pointer d.layout mx my down in
    act d.dragging (not d.pointer.left_button_down && down) mx my down event
      (record d { pointer = p })

-- The loop over the packets; a round takes one, so as many rounds as the ring has slots are enough.
pub pump : ℕ → Bool → Mouse → Desk → Bool × Mouse × Desk
pump zero changed m d = (changed, m, d)
pump (suc rounds) changed m d =
    let (packet, next) = read_packet m in
    elim packet [
      | none ↦ (changed, m, d)
      | some p ↦ elim (current_position next) [
        | none ↦ (changed, next, d)
        | some (mx, my) ↦ pump rounds true next (handle_packet mx my p.left d)
      ]
    ]

pub pump_interactive_input : Mouse → Desk → Bool × Mouse × Desk
pump_interactive_input m d =
    if not d.pointer.hit_testing_ready || not d.layout.ready
    then (false, m, d)
    else pump 32 false m d
