-- ===== src/Shell/Activation.antt =====
-- kernel/win32k/shellact.cpp: which window of the layout is active, and whether Start is open.
pub mod Index
use micro_nt.Base.{ℕ, Bool, true, false, not, ◌&&◌, ◌||◌, List, length, ltb, ◌==◌, if◌then◌else◌}
use micro_nt.Shell.{
  DesktopLayout, HitTargetKind, nothing, desktop, desktop_icon, shell_window, window_close,
  start_button, start_menu, taskbar, tray,
}
use micro_nt.Shell.Pointer.{PointerState}

pub record ActivationState : Type 0 where
  pub session_id : ℕ
  pub active_window_index : ℕ
  pub start_menu_open : Bool
  pub taskbar_ready : Bool
  pub activation_ready : Bool

unfoldable pub create_activation_state : ActivationState → DesktopLayout → Bool × ActivationState
create_activation_state state layout =
    if not layout.ready || length layout.windows == 0 then (false, state) else (
      true,
      record {
        session_id = layout.session_id;
        active_window_index = 0;
        start_menu_open = layout.start_menu_open;
        taskbar_ready = false;
        activation_ready = true;
      },
    )

abbrev pub is_window : HitTargetKind → Bool
is_window shell_window = true
is_window _ = false

abbrev pub opens_start : HitTargetKind → Bool
opens_start start_button = true
opens_start start_menu = true
opens_start _ = false

pub apply_pointer_target : ActivationState → PointerState → DesktopLayout → Bool × ActivationState
apply_pointer_target state pointer layout =
    if not state.activation_ready
      || not pointer.hit_testing_ready
      || not (state.session_id == pointer.session_id)
      || not (state.session_id == layout.session_id)
    then (false, state)
    else if is_window pointer.hot_target && ltb pointer.target_index (length layout.windows)
    then (
      true,
      record state { active_window_index = pointer.target_index; start_menu_open = false },
    )
    else if opens_start pointer.hot_target
    then (true, record state { start_menu_open = true })
    else (true, state)

pub publish_taskbar_state : ActivationState → DesktopLayout → Bool × ActivationState
publish_taskbar_state state layout =
    if not state.activation_ready || not (state.session_id == layout.session_id)
    then (false, state)
    else (true, record state { taskbar_ready = true })
