-- ===== src/Shell/Session/Windows.antt =====
-- The windows of the desktop: at most eight, and a drag that holds one of them.
use micro_nt.Base.{
  ℕ, zero, suc, ◌+◌, ◌-◌, ◌≤◌, ◌<◌, ◌≡◌, refl, ap, ◌∙◌, inl, inr, Bool, true, false, not, ◌&&◌,
  some, List, [], ◌∷◌, length, length-append, get_elem?, ltb, leb, if◌then◌else◌, arith, Bool-cases,
  Option-cases,
}
use micro_nt.Hal.Mouse.{moved_back}
use micro_nt.Shell.{
  ShellWindow, HitTargetKind, nothing, desktop, desktop_icon, shell_window, window_close,
  start_button, start_menu, taskbar, tray,
}
use micro_nt.Shell.Pointer.{PointerState, PointerEvent, process_pointer}
use micro_nt.Shell.Session.{
  Desk, max_windows, set_windows, cascaded, open_window, close_window, focus_window, set_start_menu,
  handle_shell_click, put_at, drag, grab, title_hit, click, act, handle_packet,
}

length-open_window :
    (ws : List ShellWindow) → length ws ≤ max_windows → length (open_window ws) ≤ max_windows
unfolding open_window
length-open_window [] le = ground arith
length-open_window (w ∷ ws) le = elim (Bool-cases (leb max_windows (length (w ∷ ws)))) [
  | inl full ↦ rw full (omega (arith, length-append ws (cascaded (length ws) ∷ []), le))
  | inr room ↦
      rw room (ground (arith, room, length-append (w ∷ ws) (cascaded (length (w ∷ ws)) ∷ [])))
]

length-close_window :
    (i : ℕ) (ws : List ShellWindow)
    → length (close_window i ws) ≡ (if ltb i (length ws) then length ws - 1 else length ws)
unfolding close_window
length-close_window i [] = ground arith
length-close_window zero (w ∷ ws) = ground arith
length-close_window (suc i) (w ∷ ws) = ground (arith, length-close_window i ws)

pub length-focus_window : (i : ℕ) (ws : List ShellWindow) → length (focus_window i ws) ≡ length ws
unfolding focus_window
length-focus_window i ws = elim (Bool-cases (leb (length ws) (i + 1))) [
  | inl last ↦ rw (last, focus_window) refl
  | inr under ↦ elim (Option-cases (get_elem? ws i)) [
    | inl out ↦ rw (under, out, focus_window) refl
    | inr (w, at) ↦
        rw (under, at, focus_window)
          (length-append (close_window i ws) (w ∷ [])
            ∙ ground (arith, length-close_window i ws, under))
  ]
]

length-put_at : (i x y : ℕ) (ws : List ShellWindow) → length (put_at i x y ws) ≡ length ws
unfolding put_at
length-put_at i x y [] = refl
length-put_at zero x y (w ∷ ws) = refl
length-put_at (suc i) x y (w ∷ ws) = ap suc (length-put_at i x y ws)

-- At most eight windows, and a drag holds one of them.
pub record Fits (d : Desk) : Type 0 where
  pub few : length d.layout.windows ≤ max_windows
  pub held : d.dragging ≡ true → d.drag_win < length d.layout.windows

still-Fits : (d : Desk) → d.dragging ≡ false → length d.layout.windows ≤ max_windows → Fits d
still-Fits d still le = record { few = le; held = λ e. absurd (cc) }

-- A click while nothing is dragged.
handle_shell_click-Fits :
    (kind : HitTargetKind) (i : ℕ) (d : Desk)
    → d.dragging ≡ false
    → length d.layout.windows ≤ max_windows
    → Fits (handle_shell_click kind i d)
unfolding handle_shell_click set_windows set_start_menu
handle_shell_click-Fits start_button i d still le = still-Fits _ still le
handle_shell_click-Fits start_menu i d still le =
    still-Fits _ still (length-open_window d.layout.windows le)
handle_shell_click-Fits desktop_icon i d still le = elim (Bool-cases (ltb i d.layout.icon_count)) [
  | inl hit ↦ rw hit (still-Fits _ still (length-open_window d.layout.windows le))
  | inr miss ↦ rw miss (still-Fits _ still le)
]
handle_shell_click-Fits window_close i d still le =
    still-Fits _ still (ground (arith, length-close_window i d.layout.windows, le))
handle_shell_click-Fits shell_window i d still le =
    still-Fits _ still (omega (arith, length-focus_window i d.layout.windows, le))
handle_shell_click-Fits taskbar i d still le =
    still-Fits _ still (omega (arith, length-focus_window i d.layout.windows, le))
handle_shell_click-Fits nothing i d still le = still-Fits _ still le
handle_shell_click-Fits desktop i d still le = still-Fits _ still le
handle_shell_click-Fits tray i d still le = still-Fits _ still le

drag-Fits : (mx my : ℕ) (down : Bool) (d : Desk) → Fits d → Fits (drag mx my down d)
unfolding drag set_windows
drag-Fits mx my down d v = elim (Bool-cases (down && ltb d.drag_win (length d.layout.windows))) [
  | inl holds ↦
      let same =
        length-put_at d.drag_win (moved_back mx d.drag_off_x) (moved_back my d.drag_off_y)
          d.layout.windows in
      let within : d.drag_win < length d.layout.windows = ground (arith, holds) in
      rw holds
        (record { few = omega (arith, same, v.few); held = λ _. omega (arith, same, within) })
  | inr ends ↦ rw ends (still-Fits _ refl v.few)
]

grab-Fits :
    (mx my i : ℕ) (w : ShellWindow) (d : Desk)
    → 0 < length d.layout.windows
    → length d.layout.windows ≤ max_windows
    → Fits (grab mx my i w d)
unfolding grab set_windows
grab-Fits mx my i w d pos le =
    let same = length-focus_window i d.layout.windows in
    record { few = omega (arith, same, le); held = λ _. omega (arith, same, pos) }

title_hit-some :
    (my : ℕ) (p : PointerState) (ws : List ShellWindow) (w : ShellWindow)
    → title_hit my p ws ≡ some w
    → 0 < length ws
unfolding title_hit
title_hit-some my p [] w e = absurd (cc)
title_hit-some my p (x ∷ ws) w e = omega arith

click-Fits :
    (event : PointerEvent) (d : Desk)
    → d.dragging ≡ false
    → length d.layout.windows ≤ max_windows
    → Fits (click event d)
unfolding click
click-Fits event d still le = elim (Bool-cases event.clicked) [
  | inl hit ↦ rw hit (handle_shell_click-Fits event.target event.target_index d still le)
  | inr miss ↦ rw miss (still-Fits d still le)
]

act-Fits :
    (held press : Bool) (mx my : ℕ) (down : Bool) (event : PointerEvent) (d : Desk)
    → d.dragging ≡ held
    → Fits d
    → Fits (act held press mx my down event d)
unfolding act
act-Fits true press mx my down event d e v = drag-Fits mx my down d v
act-Fits false false mx my down event d e v = click-Fits event d e v.few
act-Fits false true mx my down event d e v =
    elim (Option-cases (title_hit my d.pointer d.layout.windows)) [
      | inl off ↦ rw (off, act) (click-Fits event d e v.few)
      | inr (w, on) ↦
          rw (on, act)
            (grab-Fits mx my d.pointer.target_index w d
              (title_hit-some my d.pointer d.layout.windows w on) v.few)
    ]

-- A packet keeps at most eight windows, and a drag that holds one of them.
pub handle_packet-Fits :
    (mx my : ℕ) (down : Bool) (d : Desk) → Fits d → Fits (handle_packet mx my down d)
unfolding handle_packet
handle_packet-Fits mx my down d v =
    let (event, p) = process_pointer d.pointer d.layout mx my down in
    act-Fits d.dragging (not d.pointer.left_button_down && down) mx my down event
      (record d { pointer = p }) refl (record { few = v.few; held = v.held })
