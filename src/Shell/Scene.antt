-- ===== src/Shell/Scene.antt =====
-- kernel/win32k/windowmgr.cpp: the windows of a session's desktop and which one is in front. The list
-- stands for the array of four up to its count; a title is a constant of the kind and is left out.
pub mod Foreground
use micro_nt.Base.{
  ℕ, ◌+◌, Bool, true, false, not, ◌&&◌, ◌||◌, List, [], ◌∷◌, ◌++◌, length, ltb, ◌==◌, if◌then◌else◌,
}

pub data WindowKind : Type 0 where
  desktop shell taskbar : WindowKind

pub record Window : Type 0 where
  pub id : ℕ
  pub kind : WindowKind
  pub visible : Bool
  pub foreground : Bool

pub record DesktopScene : Type 0 where
  pub session_id : ℕ
  pub windows : List Window
  pub z_order_ready : Bool

unfoldable pub make_window : ℕ → WindowKind → Window
make_window id kind = record { id = id; kind = kind; visible = true; foreground = false }

-- The desktop's session id is the argument.
unfoldable pub create_desktop_scene : ℕ → DesktopScene → Bool × DesktopScene
create_desktop_scene session scene = if session == 0 then (false, scene) else (
  true,
  record { session_id = session; windows = make_window 1 desktop ∷ []; z_order_ready = false },
)

-- The arguments are the shell surface's session id and whether it is bound to the explorer.
unfoldable pub attach_shell_surface : ℕ → Bool → DesktopScene → Bool × DesktopScene
attach_shell_surface session bound scene =
    if not (session == scene.session_id) || not bound || ltb 4 (length scene.windows + 2)
    then (false, scene)
    else (
      true,
      record scene {
        windows = scene.windows ++ make_window 2 shell ∷ make_window 3 taskbar ∷ [];
        z_order_ready = true;
      },
    )

-- The loop: each window's flag, and whether one was set.
pub mark_foreground : ℕ → List Window → Bool × List Window
mark_foreground id [] = (false, [])
mark_foreground id (w ∷ ws) =
    let (found, rest) = mark_foreground id ws in
    (w.id == id || found, record w { foreground = w.id == id } ∷ rest)

pub set_foreground_window : ℕ → DesktopScene → Bool × DesktopScene
set_foreground_window id scene =
    let (found, windows) = mark_foreground id scene.windows in
    if not scene.z_order_ready then (false, scene) else (found, record scene { windows = windows })
