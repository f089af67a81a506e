-- ===== src/Shell/Pointer.antt =====
-- kernel/win32k/shellinput.cpp: the state of the pointer and the events of its samples.
pub mod Clicks
use micro_nt.Base.{
  ℕ, ◌+◌, ◌%◌, ◌^◌, Bool, true, false, not, ◌&&◌, ◌||◌, List, [], ◌∷◌, ltb, ◌==◌, if◌then◌else◌,
}
use micro_nt.Shell.{
  ShellWindow, DesktopLayout, HitTargetKind, nothing, desktop, desktop_icon, shell_window,
  window_close, start_button, start_menu, taskbar, tray, resolve_hit_target,
}

pub record PointerState : Type 0 where
  pub session_id : ℕ
  pub x : ℕ
  pub y : ℕ
  pub hot_target : HitTargetKind
  pub target_index : ℕ
  pub hit_testing_ready : Bool
  pub left_button_down : Bool
  pub click_delivered : Bool

pub record PointerEvent : Type 0 where
  pub moved : Bool
  pub clicked : Bool
  pub target : HitTargetKind
  pub target_index : ℕ

-- The place of a kind in its enumeration.
abbrev kind_value : HitTargetKind → ℕ
kind_value nothing = 0
kind_value desktop = 1
kind_value desktop_icon = 2
kind_value shell_window = 3
kind_value window_close = 4
kind_value start_button = 5
kind_value start_menu = 6
kind_value taskbar = 7
kind_value tray = 8

-- The guard of MovePointer and ProcessPointer.
unfoldable pub accepts : PointerState → DesktopLayout → Bool
accepts p layout = p.hit_testing_ready && layout.ready && p.session_id == layout.session_id

-- `focused` and `session` are the input desktop's.
attach_layout : Bool → ℕ → PointerState → DesktopLayout → Bool × PointerState
attach_layout focused session p layout =
    if not focused || not layout.ready || not (session == layout.session_id) then (false, p) else (
      true,
      record {
        session_id = layout.session_id;
        x = 1700;
        y = 560;
        hot_target = nothing;
        target_index = 0;
        hit_testing_ready = true;
        left_button_down = false;
        click_delivered = false;
      },
    )

-- At the first window's corner, if there is a window.
prime_at : List ShellWindow → PointerState → PointerState
prime_at [] p = p
prime_at (win ∷ ws) p = record p { x = (win.x + 48) % 2 ^ 32; y = (win.y + 24) % 2 ^ 32 }

prime_default_hit_target : PointerState → DesktopLayout → Bool × PointerState
prime_default_hit_target p layout = if not p.hit_testing_ready then (false, p) else (
  true,
  prime_at layout.windows (record p {
    hot_target = if layout.start_menu_open then start_menu else shell_window;
    target_index = 0;
  }),
)

-- The pointer at a place, with the target there.
pub place : PointerState → DesktopLayout → ℕ → ℕ → PointerState
place p layout x y =
    let (kind, index) = resolve_hit_target x y layout in
    record p { x = x; y = y; hot_target = kind; target_index = index }

move_pointer : PointerState → DesktopLayout → ℕ → ℕ → Bool × PointerState
move_pointer p layout x y = if accepts p layout then (true, place p layout x y) else (false, p)

click_pointer : PointerState → DesktopLayout → ℕ → ℕ → Bool × PointerState
unfolding move_pointer
click_pointer p layout x y =
    let (done, q) = move_pointer p layout x y in
    if done
    then (true, record q { left_button_down = false; click_delivered = true })
    else (false, q)

pub process_pointer : PointerState → DesktopLayout → ℕ → ℕ → Bool → PointerEvent × PointerState
unfolding place
process_pointer p layout x y left_down =
    let q = place p layout x y in
    let released = p.left_button_down && not left_down in
    if not (accepts p layout)
    then (record { moved = false; clicked = false; target = nothing; target_index = 0 }, p)
    else (
      record {
        moved =
            not (kind_value q.hot_target == kind_value p.hot_target)
            || not (q.target_index == p.target_index);
        clicked = released;
        target = q.hot_target;
        target_index = q.target_index;
      },
      record q { left_button_down = left_down; click_delivered = released || p.click_delivered },
    )
