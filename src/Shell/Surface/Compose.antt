-- ===== src/Shell/Surface/Compose.antt =====
-- Which desktops the shell can compose.
use micro_nt.Base.{ℕ, ◌≡◌, Bool, not, ◌&&◌, some, List, ◌==◌, arith}
use micro_nt.Shell.Surface.{
  DesktopKind, Desktop, ShellSurface, create_window_station, create_desktop, create_shell_surface,
  bind_explorer, compose_desktop,
}

-- The calls from the window station to the composed desktop.
pub compose_session : ℕ → DesktopKind → List ℕ → Bool → ℕ → Desktop → ShellSurface → Bool
compose_session session kind name registered explorer desk surface =
    let (named, d) = create_desktop (create_window_station session) kind (some name) desk in
    let (created, s) = create_shell_surface d surface in
    let (bound, t) = bind_explorer registered explorer s in named && created && compose_desktop t

-- The calls from the window station to the composed desktop, for a desktop with a name, all
-- succeed exactly when the session is not 0 and an explorer is registered for the same session.
pub compose_session_lem :
    (session : ℕ) (kind : DesktopKind) (name : List ℕ) (registered : Bool) (explorer : ℕ)
    (desk : Desktop) (surface : ShellSurface)
    → compose_session session kind name registered explorer desk surface
      ≡ (not (session == 0) && registered && explorer == session)
unfolding compose_session create_window_station create_desktop create_shell_surface bind_explorer
    compose_desktop
compose_session_lem session kind name registered explorer desk surface = ground arith
