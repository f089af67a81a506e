-- ===== src/Shell/Hits.antt =====
-- What the hit test answers: indices within bounds, the topmost window, and the taskbar's buttons.
use micro_nt.Base.{
  ℕ, zero, suc, ◌+◌, ◌-◌, ◌*◌, ◌/◌, ◌%◌, ◌^◌, ◌≤◌, ◌<◌, ◌≡◌, refl, inl, inr, Bool, true, false,
  ◌||◌, none, some, List, [], ◌∷◌, ltb, leb, ◌==◌, if◌then◌else◌, get_elem?, arith, Option-cases,
}
use micro_nt.Shell.{
  ShellWindow, TaskbarMetrics, compute_taskbar, HitTargetKind, shell_window, window_close, taskbar,
  in_rect, hit_taskbar, on_close, on_body, hit_window,
}

-- The pointer is on the window.
abbrev pub touches : ℕ → ℕ → ShellWindow → Bool
touches px py win = on_close px py win || on_body px py win

-- The window that a search found, counted from the start of the list, with those above it.
pub record Topmost (px py i : ℕ) (ws : List ShellWindow) (r : HitTargetKind × ℕ) : Type 0 where
  pub slot : ℕ
  pub window : ShellWindow
  pub at : r.1 ≡ i + slot
  pub there : get_elem? ws slot ≡ some window
  pub kind : r.0 ≡ (if on_close px py window then window_close else shell_window)
  pub hit : touches px py window ≡ true
  pub above :
      (j : ℕ) (win : ShellWindow) → slot < j → get_elem? ws j ≡ some win → touches px py win ≡ false

hit_window-none :
    (px py i : ℕ) (ws : List ShellWindow) (j : ℕ) (win : ShellWindow)
    → hit_window px py i ws ≡ none
    → get_elem? ws j ≡ some win
    → touches px py win ≡ false
unfolding hit_window
hit_window-none px py i [] j win e at = cc
hit_window-none px py i (x ∷ ws) zero win e at = ground arith
hit_window-none px py i (x ∷ ws) (suc j) win e at =
    ground (arith, hit_window-none px py (suc i) ws j win)

above-none :
    (px py i : ℕ) (x : ShellWindow) (ws : List ShellWindow)
    → hit_window px py (suc i) ws ≡ none
    → (j : ℕ) (win : ShellWindow) → 0 < j
    → get_elem? (x ∷ ws) j ≡ some win
    → touches px py win ≡ false
above-none px py i x ws e zero win lt at = absurd (omega (arith, lt))
above-none px py i x ws e (suc j) win lt at = hit_window-none px py (suc i) ws j win e at

above-tail :
    (px py k : ℕ) (x : ShellWindow) (ws : List ShellWindow)
    → ((j : ℕ) (win : ShellWindow) → k < j → get_elem? ws j ≡ some win → touches px py win ≡ false)
    → (j : ℕ) (win : ShellWindow) → suc k < j
    → get_elem? (x ∷ ws) j ≡ some win
    → touches px py win ≡ false
above-tail px py k x ws all zero win lt at = absurd (omega (arith, lt))
above-tail px py k x ws all (suc j) win lt at = all j win (omega (arith, lt)) at

-- What the hit test of the windows answers is the index of a window under the pointer such that
-- no window above it is under the pointer; the target is the close button if the pointer is on
-- it, and the window otherwise.
pub hit_window-Topmost :
    (px py i : ℕ) (ws : List ShellWindow) (r : HitTargetKind × ℕ)
    → hit_window px py i ws ≡ some r
    → Topmost px py i ws r
unfolding hit_window
hit_window-Topmost px py i [] r e = cc
hit_window-Topmost px py i (x ∷ ws) r e = elim (Option-cases (hit_window px py (suc i) ws)) [
  | inr (q, found) ↦
      let t = hit_window-Topmost px py (suc i) ws q found in
      let same : r ≡ q = ground arith in
      rw same (record {
        slot = suc t.slot;
        window = t.window;
        at = omega (arith, t.at);
        there = t.there;
        kind = t.kind;
        hit = t.hit;
        above = above-tail px py t.slot x ws t.above;
      })
  | inl empty ↦
      let at_zero : r.1 ≡ i + 0 = ground arith in
      record {
        slot = 0;
        window = x;
        at = at_zero;
        there = refl;
        kind = ground arith;
        hit = ground arith;
        above = above-none px py i x ws empty;
      }
]

-- The taskbar of a screen of usual size, where the cluster of buttons does not reach the tray.
abbrev pub usual_taskbar : ℕ → ℕ → ℕ → TaskbarMetrics
usual_taskbar w h n = record {
  height = 48;
  y = h - 48;
  start_x = (w - (n * 50 + 44)) / 2;
  start_w = 44;
  first_button_x = (w - (n * 50 + 44)) / 2 + 50;
  button_w = 44;
  button_gap = 6;
  button_count = n;
  tray_x = w - 200;
  tray_w = 200;
}

module _ (w h n : ℕ) (tall : 720 ≤ h) (hw : h < 2 ^ 32) (wide : 640 ≤ w) (ww : w < 2 ^ 32)
    (room : n * 50 + 444 ≤ w) where
  compute_taskbar_lem : compute_taskbar w h n ≡ usual_taskbar w h n
  unfolding compute_taskbar
  compute_taskbar_lem =
      let w_set : w == 0 ≡ false = ground arith in
      let h_set : h == 0 ≡ false = ground arith in
      let tall_test : leb 720 h ≡ true = ground arith in
      let wide_test : leb 640 w ≡ true = ground arith in
      let items : (n + 1) % 2 ^ 32 ≡ n + 1 = omega arith in
      let cluster : ((n + 1) * 44 + (n + 1 + 2 ^ 32 - 1) % 2 ^ 32 * 6) % 2 ^ 32 ≡ n * 50 + 44 =
        omega arith in
      let fits : ltb (n * 50 + 44) w ≡ true = ground arith in
      let tray : ltb 200 w ≡ true = ground arith in
      let top : (h + 2 ^ 32 - 48) % 2 ^ 32 ≡ h - 48 = omega arith in
      let first : ((w - (n * 50 + 44)) / 2 + 50) % 2 ^ 32 ≡ (w - (n * 50 + 44)) / 2 + 50 =
        omega arith in
      rw (w_set, h_set, tall_test, wide_test, items, cluster, compute_taskbar)
        (rw (fits, tray, top, first) refl)

  -- On a screen of at least 640 by 720 whose tray the cluster of buttons does not reach, each
  -- column of the k-th button that ComputeTaskbar lays out is hit, at the taskbar's top row, as
  -- the k-th button.
  pub hit_taskbar-compute_taskbar :
      (k d : ℕ)
      → k < n
      → d < 44
      → let tb = compute_taskbar w h n in
        hit_taskbar (tb.first_button_x + k * (tb.button_w + tb.button_gap) + d) tb.y tb
        ≡ (taskbar, k)
  unfolding hit_taskbar in_rect
  hit_taskbar-compute_taskbar k d lt on =
      rw compute_taskbar_lem (column ((w - (n * 50 + 44)) / 2) (omega arith))
    where
      column :
          (c : ℕ)
          → c + n * 50 + 244 ≤ w
          → hit_taskbar
              (c + 50 + k * 50 + d)
              (h - 48)
              (record (usual_taskbar w h n) { start_x = c; first_button_x = c + 50 })
            ≡ (taskbar, k)
      column c le =
          let not_start : ltb (c + 50 + k * 50 + d) ((c + 44) % 2 ^ 32) ≡ false = ground arith in
          let not_tray : leb (w - 200) (c + 50 + k * 50 + d) ≡ false = ground arith in
          let from_first : leb (c + 50) (c + 50 + k * 50 + d) ≡ true = ground arith in
          let before_end : ltb (c + 50 + k * 50 + d) ((c + 50 + n * 50) % 2 ^ 32) ≡ true =
            ground arith in
          let index : (c + 50 + k * 50 + d - (c + 50)) / 50 ≡ k = omega arith in
          rw (not_start, not_tray, from_first, before_end, index) (ground arith)
