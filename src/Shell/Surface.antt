-- ===== src/Shell/Surface.antt =====
-- kernel/win32k/winsta.cpp, kernel/sm/shellhost.cpp and kernel/win32k/shelltray.cpp: the desktop of a
-- session, the shell's surface on it, and the tray. Names and labels are their bytes, none for null.
pub mod Compose
use micro_nt.Base.{
  ℕ, Bool, true, false, not, ◌&&◌, ◌||◌, Option, none, some, List, [], ◌∷◌, length, ◌==◌,
  if◌then◌else◌,
}
use micro_nt.Shell.Activation.{ActivationState}

pub data DesktopKind : Type 0 where
  secure_logon shell : DesktopKind

pub record Desktop : Type 0 where
  pub session_id : ℕ
  pub kind : DesktopKind
  pub name : Option (List ℕ)
  pub active : Bool

pub record WindowStation : Type 0 where
  pub session_id : ℕ
  pub ready : Bool

pub create_window_station : ℕ → WindowStation
create_window_station session = record { session_id = session; ready = true }

pub create_desktop : WindowStation → DesktopKind → Option (List ℕ) → Desktop → Bool × Desktop
create_desktop station kind none desk = (false, desk)
create_desktop station kind (some name) desk = if not station.ready then (false, desk) else (
  true,
  record { session_id = station.session_id; kind = kind; name = some name; active = false },
)

pub switch_desktop : Desktop → Bool × Desktop
switch_desktop desk = elim desk.name [
  | none ↦ (false, desk)
  | some name ↦ (true, record desk { active = true })
]

pub record ShellSurface : Type 0 where
  pub session_id : ℕ
  pub taskbar_ready : Bool
  pub start_surface_ready : Bool
  pub tray_ready : Bool
  pub bound_to_explorer : Bool

pub create_shell_surface : Desktop → ShellSurface → Bool × ShellSurface
create_shell_surface desk surface = if desk.session_id == 0 then (false, surface) else (
  true,
  record {
    session_id = desk.session_id;
    taskbar_ready = true;
    start_surface_ready = true;
    tray_ready = true;
    bound_to_explorer = false;
  },
)

-- The explorer's shell is its session id and whether it is registered.
pub bind_explorer : Bool → ℕ → ShellSurface → Bool × ShellSurface
bind_explorer registered session surface =
    if not registered || not (session == surface.session_id)
    then (false, surface)
    else (true, record surface { bound_to_explorer = true })

pub compose_desktop : ShellSurface → Bool
compose_desktop surface =
    surface.taskbar_ready && surface.start_surface_ready && surface.tray_ready
    && surface.bound_to_explorer

pub data TrayIconKind : Type 0 where
  network volume status : TrayIconKind

pub record TrayIcon : Type 0 where
  pub kind : TrayIconKind
  pub label : List ℕ
  pub visible : Bool

pub record TrayState : Type 0 where
  pub session_id : ℕ
  pub icons : List TrayIcon
  pub clock_text : List ℕ
  pub published : Bool

make_icon : TrayIconKind → List ℕ → TrayIcon
make_icon kind label = record { kind = kind; label = label; visible = true }

pub create_tray_state : ActivationState → TrayState → Bool × TrayState
unfolding make_icon
create_tray_state activation tray = if not activation.taskbar_ready then (false, tray) else (
  true,
  record {
    session_id = activation.session_id;
    icons =
        make_icon status (b'O' ∷ b'K' ∷ [])
        ∷ make_icon network (b'N' ∷ b'E' ∷ b'T' ∷ [])
        ∷ make_icon volume (b'V' ∷ b'O' ∷ b'L' ∷ [])
        ∷ [];
    clock_text = b'0' ∷ b'0' ∷ b':' ∷ b'0' ∷ b'0' ∷ [];
    published = false;
  },
)

pub publish_tray_state : TrayState → Bool × TrayState
publish_tray_state tray =
    if tray.session_id == 0 || length tray.icons == 0
    then (false, tray)
    else (true, record tray { published = true })
