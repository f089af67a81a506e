-- ===== src/Shell/Scene/Foreground.antt =====
-- At most one window of a scene is in front.
use micro_nt.Base.{
  ℕ, ◌+◌, ◌≤◌, ◌<◌, ◌≡◌, refl, ap, ◌∙◌, ◌≢◌, inl, inr, Bool, true, false, not, ◌||◌, List, [], ◌∷◌,
  ◌++◌, length, ltb, ◌==◌, if◌then◌else◌, arith, Bool-cases,
}
use micro_nt.Shell.Scene.{
  Window, DesktopScene, shell, taskbar, make_window, create_desktop_scene, attach_shell_surface,
  mark_foreground, set_foreground_window,
}

-- How many windows have the id, and how many are in front.
pub count_id : ℕ → List Window → ℕ
count_id id [] = 0
count_id id (w ∷ ws) = (if w.id == id then 1 else 0) + count_id id ws

pub count_foreground : List Window → ℕ
count_foreground [] = 0
count_foreground (w ∷ ws) = (if w.foreground then 1 else 0) + count_foreground ws

mark_foreground_lem :
    (id : ℕ) (ws : List Window)
    → let (found, marked) = mark_foreground id ws in
      (count_foreground marked ≡ count_id id ws)
      × ((j : ℕ) → count_id j marked ≡ count_id j ws)
      × (found ≡ ltb 0 (count_id id ws))
unfolding mark_foreground count_id count_foreground
mark_foreground_lem id [] = (refl, λ j. refl, refl)
mark_foreground_lem id (w ∷ ws) =
    let (front, ids, found) = mark_foreground_lem id ws in
    (
      ap (λ n. (if w.id == id then 1 else 0) + n) front,
      λ j. ap (λ n. (if w.id == j then 1 else 0) + n) (ids j),
      ground (arith, found),
    )

-- The calls of the window manager on a scene.
pub data Reachable : DesktopScene → Type 0 where
  created :
      (session : ℕ) (s : DesktopScene) → session ≢ 0 → Reachable (create_desktop_scene session s).1
  attached :
      (session : ℕ) (bound : Bool) (s : DesktopScene)
      → Reachable s
      → Reachable (attach_shell_surface session bound s).1
  set : (id : ℕ) (s : DesktopScene) → Reachable s → Reachable (set_foreground_window id s).1

-- Ids are unique, one window is in front at most, and there is room for the shell's windows only
-- while they are not there.
pub record Inv (ws : List Window) : Type 0 where
  pub unique : (id : ℕ) → count_id id ws ≤ 1
  pub front : count_foreground ws ≤ 1
  pub desktop_there : 0 < length ws
  pub room : length ws ≤ 2 → (count_id 2 ws ≡ 0) × (count_id 3 ws ≡ 0)

abbrev shell_windows : List Window
shell_windows = make_window 2 shell ∷ make_window 3 taskbar ∷ []

attached_counts :
    (ws : List Window)
    → ((j : ℕ)
        → count_id j (ws ++ shell_windows)
          ≡ count_id j ws + (if 2 == j then 1 else 0) + (if 3 == j then 1 else 0))
      × (count_foreground (ws ++ shell_windows) ≡ count_foreground ws)
      × (length (ws ++ shell_windows) ≡ length ws + 2)
unfolding count_id count_foreground make_window
attached_counts [] = (λ j. ground arith, refl, refl)
attached_counts (w ∷ ws) =
    let (ids, front, size) = attached_counts ws in
    (λ j. omega (arith, ids j), omega (arith, front), omega (arith, size))

length-mark_foreground : (id : ℕ) (ws : List Window) → length (mark_foreground id ws).1 ≡ length ws
unfolding mark_foreground
length-mark_foreground id [] = refl
length-mark_foreground id (w ∷ ws) = omega (arith, length-mark_foreground id ws)

create-Inv :
    (session : ℕ) (s : DesktopScene) → session ≢ 0 → Inv (create_desktop_scene session s).1.windows
unfolding create_desktop_scene count_id count_foreground make_window
create-Inv session s ne =
    let some_session : session == 0 ≡ false = ground arith in
    rw (some_session, create_desktop_scene)
      (record {
        unique = λ id. ground arith;
        front = omega arith;
        desktop_there = omega arith;
        room = λ h. (refl, refl);
      })

attach-Inv :
    (session : ℕ) (bound : Bool) (s : DesktopScene)
    → Inv s.windows
    → Inv (attach_shell_surface session bound s).1.windows
unfolding attach_shell_surface
attach-Inv session bound s v =
    elim (Bool-cases (not (session == s.session_id) || not bound || ltb 4 (length s.windows + 2))) [
      | inl refused ↦ rw (refused, attach_shell_surface) v
      | inr taken ↦
          let fits : length s.windows ≤ 2 = ground arith in
          let (none2, none3) = v.room fits in
          let (ids, front, size) = attached_counts s.windows in
          rw (taken, attach_shell_surface)
            (record {
              unique = λ id. ground (arith, ids id, v.unique id, none2, none3);
              front = omega (arith, front, v.front);
              desktop_there = omega (arith, size);
              room = λ h. absurd (omega (arith, h, size, v.desktop_there));
            })
    ]

set-Inv : (id : ℕ) (s : DesktopScene) → Inv s.windows → Inv (set_foreground_window id s).1.windows
unfolding set_foreground_window
set-Inv id s v = elim (Bool-cases s.z_order_ready) [
  | inr not_ready ↦ rw (not_ready, set_foreground_window) v
  | inl is_ready ↦
      let (front, ids, _) = mark_foreground_lem id s.windows in
      rw (is_ready, set_foreground_window)
        (record {
          unique = λ j. omega (arith, ids j, v.unique j);
          front = omega (arith, front, v.unique id);
          desktop_there = omega (arith, length-mark_foreground id s.windows, v.desktop_there);
          room = λ h.
              let (none2, none3) = v.room (omega (arith, h, length-mark_foreground id s.windows)) in
              (ids 2 ∙ none2, ids 3 ∙ none3);
        })
]

-- Whatever calls a scene that was created has had, window ids are unique and at most one window is in front.
pub scene-Inv : (s : DesktopScene) → Reachable s → Inv s.windows
scene-Inv s (created session t ne) = create-Inv session t ne
scene-Inv s (attached session bound t r) = attach-Inv session bound t (scene-Inv t r)
scene-Inv s (set id t r) = set-Inv id t (scene-Inv t r)

-- In every scene that the window manager's calls lead to from a scene that was created, and whose
-- order is ready, SetForegroundWindow succeeds exactly when a window has the id; then one window
-- alone is in front, and none otherwise.
pub set_foreground_window_lem :
    (id : ℕ) (s : DesktopScene)
    → Reachable s
    → s.z_order_ready ≡ true
    → let (done, s') = set_foreground_window id s in
      (done ≡ ltb 0 (count_id id s.windows))
      × (count_foreground s'.windows ≡ (if done then 1 else 0))
unfolding set_foreground_window
set_foreground_window_lem id s r is_ready =
    let v = scene-Inv s r in
    let (front, ids, found) = mark_foreground_lem id s.windows in
    rw (is_ready, set_foreground_window) (found, ground (arith, front, found, v.unique id))
