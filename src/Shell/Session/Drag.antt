-- ===== src/Shell/Session/Drag.antt =====
-- A window that is dragged by its title bar.
use micro_nt.Base.{
  ℕ, zero, suc, ◌+◌, ◌-◌, ◌%◌, ◌^◌, ◌≤◌, ◌<◌, ◌≡◌, refl, sym, ap, ap₂, ◌∙◌, inl, inr, Bool, true,
  false, not, ◌&&◌, some, List, [], ◌∷◌, ◌++◌, length, length-append, get_elem?, ltb, leb, arith,
  Bool-cases,
}
use micro_nt.Hal.Mouse.{moved_back}
use micro_nt.Shell.{ShellWindow, shell_window, resolve_hit_target}
use micro_nt.Shell.Activation.{is_window}
use micro_nt.Shell.Pointer.{PointerState, PointerEvent, accepts, process_pointer}
use micro_nt.Shell.Pointer.Clicks.{process_pointer-resolve_hit_target}
use micro_nt.Shell.Session.{
  Desk, set_windows, close_window, focus_window, difference, put_at, drag, grab, title_hit, act,
  handle_packet,
}

-- The top window is last already.
close_window-last :
    (i : ℕ) (ws : List ShellWindow) (w : ShellWindow)
    → get_elem? ws i ≡ some w
    → length ws ≤ i + 1
    → close_window i ws ++ w ∷ [] ≡ ws
unfolding close_window
close_window-last i [] w at le = absurd (cc)
close_window-last zero (x ∷ []) w at le = let e : x ≡ w = cc in ap (λ y. y ∷ []) (sym e)
close_window-last zero (x ∷ (y ∷ ws)) w at le = absurd (omega (arith, le))
close_window-last (suc i) (x ∷ ws) w at le =
    ap (λ l. x ∷ l) (close_window-last i ws w at (omega (arith, le)))

-- The window that is raised is the last one, and the others keep their order.
pub focus_window-close_window :
    (i : ℕ) (ws : List ShellWindow) (w : ShellWindow)
    → get_elem? ws i ≡ some w
    → focus_window i ws ≡ close_window i ws ++ w ∷ []
unfolding focus_window
focus_window-close_window i ws w at = elim (Bool-cases (leb (length ws) (i + 1))) [
  | inl last ↦ rw (last, focus_window) (sym (close_window-last i ws w at (ground (arith, last))))
  | inr under ↦ rw (under, at, focus_window) refl
]

put_at-append :
    (x y : ℕ) (xs : List ShellWindow) (w : ShellWindow)
    → put_at (length xs) x y (xs ++ w ∷ []) ≡ xs ++ record w { x = x; y = y } ∷ []
unfolding put_at
put_at-append x y [] w = refl
put_at-append x y (v ∷ xs) w = ap (λ l. v ∷ l) (put_at-append x y xs w)

-- The corner moves as the pointer does, and stops at 0.
moved_back-difference : (n m x : ℕ) → moved_back n (difference m x) ≡ x + n - m
unfolding moved_back difference
moved_back-difference n m x = elim (Bool-cases (leb x m)) [
  | inl le ↦ rw le (ground (arith, le))
  | inr gt ↦ rw gt (ground (arith, gt))
]

grab-windows :
    (mx my i : ℕ) (w : ShellWindow) (d : Desk)
    → get_elem? d.layout.windows i ≡ some w
    → ((grab mx my i w d).layout.windows ≡ close_window i d.layout.windows ++ w ∷ [])
      × ((grab mx my i w d).drag_win ≡ length (close_window i d.layout.windows))
unfolding grab set_windows
grab-windows mx my i w d at =
    let raised = focus_window-close_window i d.layout.windows w at in
    (
      raised,
      ap (λ l. length l - 1) raised
          ∙ omega (arith, length-append (close_window i d.layout.windows) (w ∷ [])),
    )

drag-windows :
    (nx ny : ℕ) (d : Desk) (xs : List ShellWindow) (w : ShellWindow)
    → d.layout.windows ≡ xs ++ w ∷ []
    → d.drag_win ≡ length xs
    → (drag nx ny true d).layout.windows
      ≡ xs ++ record w { x = moved_back nx d.drag_off_x; y = moved_back ny d.drag_off_y } ∷ []
unfolding drag set_windows
drag-windows nx ny d xs w all top =
    let within : ltb d.drag_win (length d.layout.windows) ≡ true =
      ground (arith, top, ap length all, length-append xs (w ∷ [])) in
    rw within (
      ap₂ (λ i l. put_at i (moved_back nx d.drag_off_x) (moved_back ny d.drag_off_y) l) top all
      ∙ put_at-append (moved_back nx d.drag_off_x) (moved_back ny d.drag_off_y) xs w)

title_hit_lem :
    (my i : ℕ) (p : PointerState) (ws : List ShellWindow) (w : ShellWindow)
    → p.hot_target ≡ shell_window
    → p.target_index ≡ i
    → get_elem? ws i ≡ some w
    → my < (w.y + 32) % 2 ^ 32
    → title_hit my p ws ≡ some w
unfolding title_hit
title_hit_lem my i p ws w hot index at lt =
    let on : ltb my ((w.y + 32) % 2 ^ 32) ≡ true = ground (arith, lt) in
    let here : get_elem? ws p.target_index ≡ some w = ap (get_elem? ws) index ∙ at in
    let is : is_window p.hot_target ≡ true = ap is_window hot in rw (here, title_hit, is, on) refl

act-grab :
    (mx my i : ℕ) (down : Bool) (event : PointerEvent) (w : ShellWindow) (d : Desk)
    → title_hit my d.pointer d.layout.windows ≡ some w
    → d.pointer.target_index ≡ i
    → act false true mx my down event d ≡ grab mx my i w d
unfolding act
act-grab mx my i down event w d on index =
    let same : grab mx my d.pointer.target_index w d ≡ grab mx my i w d =
      ap (λ j. grab mx my j w d) index in
    rw (on, act) same

-- A press on a title bar grabs the window.
press-grab :
    (mx my i : ℕ) (w : ShellWindow) (d : Desk)
    → accepts d.pointer d.layout ≡ true
    → d.dragging ≡ false
    → d.pointer.left_button_down ≡ false
    → resolve_hit_target mx my d.layout ≡ (shell_window, i)
    → get_elem? d.layout.windows i ≡ some w
    → my < (w.y + 32) % 2 ^ 32
    → (q : PointerState) × (handle_packet mx my true d ≡ grab mx my i w (record d { pointer = q }))
unfolding handle_packet
press-grab mx my i w d ok still up hit at lt =
    let (event, p) = process_pointer d.pointer d.layout mx my true in
    let (hot, index) = process_pointer-resolve_hit_target d.pointer d.layout mx my true ok in
    let target : p.target_index ≡ i = index ∙ ap (λ r. r.1) hit in
    let on = title_hit_lem my i p d.layout.windows w (hot ∙ ap (λ r. r.0) hit) target at lt in
    let next : Desk = record d { pointer = p } in
    (
      p,
      ap₂ (λ a b. act a (not b && true) mx my true event next) still up
          ∙ act-grab mx my i true event w next on target,
    )

-- While the button is held, the window follows.
hold-drag :
    (nx ny : ℕ) (d : Desk)
    → d.dragging ≡ true
    → (q : PointerState) × (handle_packet nx ny true d ≡ drag nx ny true (record d { pointer = q }))
unfolding handle_packet act
hold-drag nx ny d held =
    let (event, p) = process_pointer d.pointer d.layout nx ny true in
    (
      p,
      ap
          (λ a.
            act a (not d.pointer.left_button_down && true) nx ny true event
              (record d { pointer = p }))
          held,
    )

grab-drag :
    (mx my nx ny i : ℕ) (w : ShellWindow) (d : Desk) (q : PointerState)
    → get_elem? d.layout.windows i ≡ some w
    → (drag nx ny true (record (grab mx my i w d) { pointer = q })).layout.windows
      ≡ close_window i d.layout.windows ++ record w { x = w.x + nx - mx; y = w.y + ny - my } ∷ []
unfolding grab
grab-drag mx my nx ny i w d q at =
    let (all, top) = grab-windows mx my i w d at in
    drag-windows nx ny (record (grab mx my i w d) { pointer = q }) (close_window i d.layout.windows)
      w all top
    ∙ ap₂ (λ a b. close_window i d.layout.windows ++ record w { x = a; y = b } ∷ [])
        (moved_back-difference nx mx w.x) (moved_back-difference ny my w.y)

-- If the layout accepts the pointer, nothing is dragged, the button is up, and the target at the
-- pointer is an open window within 32 rows of its upper edge, then a packet with the button down
-- there and one with the button down at another place leave the other windows in order below this
-- one, whose corner has moved as the pointer has, each coordinate at least 0.
pub handle_packet-grabbed :
    (mx my nx ny i : ℕ) (w : ShellWindow) (d : Desk)
    → accepts d.pointer d.layout ≡ true
    → d.dragging ≡ false
    → d.pointer.left_button_down ≡ false
    → resolve_hit_target mx my d.layout ≡ (shell_window, i)
    → get_elem? d.layout.windows i ≡ some w
    → my < (w.y + 32) % 2 ^ 32
    → (handle_packet nx ny true (handle_packet mx my true d)).layout.windows
      ≡ close_window i d.layout.windows ++ record w { x = w.x + nx - mx; y = w.y + ny - my } ∷ []
unfolding grab
handle_packet-grabbed mx my nx ny i w d ok still up hit at lt =
    let (p, pressed) = press-grab mx my i w d ok still up hit at lt in
    let held : (handle_packet mx my true d).dragging ≡ true = ap (λ e. e.dragging) pressed in
    let (q, follows) = hold-drag nx ny (handle_packet mx my true d) held in
    ap (λ e. e.layout.windows)
      (follows ∙ ap (λ e. drag nx ny true (record e { pointer = q })) pressed)
    ∙ grab-drag mx my nx ny i w (record d { pointer = p }) q at
