-- ===== src/Shell.antt =====
-- kernel/win32k/desktopmodel.cpp (ComputeTaskbar) and kernel/win32k/shellinput.cpp: the layout of the
-- taskbar and the hit test of the pointer, over 32-bit words. A layout has the fields that they read;
-- its windows are a list, the topmost last.
pub mod Hits
pub mod Pointer
pub mod Scene
pub mod Activation
pub mod Surface
pub mod Session
mod Tests
use micro_nt.Base.{
  ℕ, zero, suc, ◌+◌, ◌-◌, ◌*◌, ◌/◌, ◌%◌, ◌^◌, Bool, true, false, not, ◌&&◌, ◌||◌, Option, none,
  some, List, [], ◌∷◌, ltb, leb, ◌==◌, if◌then◌else◌, length,
}

pub record ShellWindow : Type 0 where
  pub x : ℕ
  pub y : ℕ
  pub width : ℕ
  pub height : ℕ

pub record DesktopLayout : Type 0 where
  pub session_id : ℕ
  pub screen_w : ℕ
  pub screen_h : ℕ
  pub icon_count : ℕ
  pub windows : List ShellWindow
  pub start_menu_open : Bool
  pub ready : Bool

pub record TaskbarMetrics : Type 0 where
  pub height : ℕ
  pub y : ℕ
  pub start_x : ℕ
  pub start_w : ℕ
  pub first_button_x : ℕ
  pub button_w : ℕ
  pub button_gap : ℕ
  pub button_count : ℕ
  pub tray_x : ℕ
  pub tray_w : ℕ

pub compute_taskbar : ℕ → ℕ → ℕ → TaskbarMetrics
compute_taskbar screen_w screen_h button_count =
    let w = if screen_w == 0 then 1920 else screen_w in
    let h = if screen_h == 0 then 1080 else screen_h in
    let height = if leb 720 h then 48 else 40 in
    let items = (button_count + 1) % 2 ^ 32 in
    let cluster_w = (items * 44 + (items + 2 ^ 32 - 1) % 2 ^ 32 * 6) % 2 ^ 32 in
    let cluster_x = if ltb cluster_w w then (w - cluster_w) / 2 else 0 in
    let tray_w = if leb 640 w then 200 else 120 in
    record {
      height = height;
      y = (h + 2 ^ 32 - height) % 2 ^ 32;
      start_x = cluster_x;
      start_w = 44;
      first_button_x = (cluster_x + 50) % 2 ^ 32;
      button_w = 44;
      button_gap = 6;
      button_count = button_count;
      tray_x = if ltb tray_w w then w - tray_w else 0;
      tray_w = tray_w;
    }

pub data HitTargetKind : Type 0 where
  nothing desktop desktop_icon shell_window window_close : HitTargetKind
  start_button start_menu taskbar tray : HitTargetKind

pub in_rect : ℕ → ℕ → ℕ → ℕ → ℕ → ℕ → Bool
in_rect px py x y w h =
    leb x px && leb y py && ltb px ((x + w) % 2 ^ 32) && ltb py ((y + h) % 2 ^ 32)

-- The branch of the taskbar, with the target and its index.
pub hit_taskbar : ℕ → ℕ → TaskbarMetrics → HitTargetKind × ℕ
hit_taskbar px py tb =
    let slot = (tb.button_w + tb.button_gap) % 2 ^ 32 in
    if in_rect px py tb.start_x tb.y tb.start_w tb.height
    then (start_button, 0)
    else if leb tb.tray_x px
    then (tray, 0)
    else if leb tb.first_button_x px
        && ltb px ((tb.first_button_x + tb.button_count * slot) % 2 ^ 32)
    then (taskbar, (px - tb.first_button_x) / slot)
    else (taskbar, 0)

-- The branch of the open Start menu; `none` where the pointer is outside it.
hit_menu : ℕ → ℕ → ℕ → ℕ → Option (HitTargetKind × ℕ)
hit_menu px py screen_w bar_y =
    let menu_x = if ltb 640 screen_w then (screen_w - 640) / 2 else 0 in
    let menu_y = if ltb 732 bar_y then bar_y - 720 - 12 else 0 in
    if in_rect px py menu_x menu_y 640 720
    then some (start_menu, if ltb (menu_y + 120) py then (py - menu_y - 120) / 96 else 0)
    else none

pub on_close : ℕ → ℕ → ShellWindow → Bool
on_close px py win = in_rect px py ((win.x + win.width + 2 ^ 32 - 46) % 2 ^ 32) win.y 46 32

pub on_body : ℕ → ℕ → ShellWindow → Bool
on_body px py win = in_rect px py win.x win.y win.width win.height

-- The loop from the last window down to index `i`.
pub hit_window : ℕ → ℕ → ℕ → List ShellWindow → Option (HitTargetKind × ℕ)
hit_window px py i [] = none
hit_window px py i (win ∷ ws) = elim (hit_window px py (suc i) ws) [
  | some r ↦ some r
  | none ↦
      if on_close px py win
      then some (window_close, i)
      else if on_body px py win
      then some (shell_window, i)
      else none
]

-- The loop over the icons from index `i` on.
pub hit_icon : ℕ → ℕ → ℕ → ℕ → Option (HitTargetKind × ℕ)
hit_icon px py zero i = none
hit_icon px py (suc rounds) i =
    let rest = hit_icon px py rounds (suc i) in
    if in_rect px py 18 ((14 + i * 92) % 2 ^ 32) 96 84 then some (desktop_icon, i) else rest

or_else : Option (HitTargetKind × ℕ) → HitTargetKind × ℕ → HitTargetKind × ℕ
or_else none r = r
or_else (some q) r = q

pub resolve_hit_target : ℕ → ℕ → DesktopLayout → HitTargetKind × ℕ
unfolding or_else hit_menu
resolve_hit_target px py layout =
    let tb = compute_taskbar layout.screen_w layout.screen_h (length layout.windows) in
    let menu = if layout.start_menu_open then hit_menu px py layout.screen_w tb.y else none in
    let icons = or_else (hit_icon px py layout.icon_count 0) (desktop, 0) in
    let windows = or_else (hit_window px py 0 layout.windows) icons in
    if leb tb.y py then hit_taskbar px py tb else or_else menu windows
