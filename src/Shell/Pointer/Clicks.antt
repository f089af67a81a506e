-- ===== src/Shell/Pointer/Clicks.antt =====
-- A sequence of samples of the pointer: which of them are clicks.
use micro_nt.Base.{ℕ, ◌+◌, ◌≡◌, refl, ap, ◌∙◌, Bool, true, not, ◌&&◌, List, [], ◌∷◌, if◌then◌else◌}
use micro_nt.Shell.{DesktopLayout, resolve_hit_target}
use micro_nt.Shell.Pointer.{PointerState, PointerEvent, accepts, place, process_pointer}

-- A place and the state of the left button.
pub record Sample : Type 0 where
  pub x : ℕ
  pub y : ℕ
  pub left_down : Bool

-- The events of the samples in order, and the pointer after them.
pub process_all : PointerState → DesktopLayout → List Sample → List PointerEvent × PointerState
process_all p layout [] = ([], p)
process_all p layout (s ∷ ss) =
    let (event, q) = process_pointer p layout s.x s.y s.left_down in
    let (events, last) = process_all q layout ss in (event ∷ events, last)

pub count_clicks : List PointerEvent → ℕ
count_clicks [] = 0
count_clicks (e ∷ es) = (if e.clicked then 1 else 0) + count_clicks es

-- How often the button goes from pressed to released.
pub releases : Bool → List Sample → ℕ
releases down [] = 0
releases down (s ∷ ss) = (if down && not s.left_down then 1 else 0) + releases s.left_down ss

-- A sample of a ready pointer is a click on a release, keeps it ready, and keeps the button's state.
process_pointer_lem :
    (p : PointerState) (layout : DesktopLayout) (s : Sample)
    → accepts p layout ≡ true
    → let (event, q) = process_pointer p layout s.x s.y s.left_down in
      (accepts q layout ≡ true)
      × (q.left_button_down ≡ s.left_down)
      × (event.clicked ≡ (p.left_button_down && not s.left_down))
      × ((event.target, event.target_index) ≡ resolve_hit_target s.x s.y layout)
unfolding process_pointer accepts
process_pointer_lem p layout s ok = rw ok (ok, refl, refl, refl)

-- The target is what is under the pointer.
pub process_pointer-resolve_hit_target :
    (p : PointerState) (layout : DesktopLayout) (x y : ℕ) (down : Bool)
    → accepts p layout ≡ true
    → let (event, q) = process_pointer p layout x y down in
      (q.hot_target ≡ (resolve_hit_target x y layout).0)
      × (q.target_index ≡ (resolve_hit_target x y layout).1)
unfolding process_pointer place
process_pointer-resolve_hit_target p layout x y down ok = rw ok (refl, refl)

-- However the pointer moves over a layout that it accepts, ProcessPointer reports one click for
-- each sample at which the left button goes from pressed to released, and no other.
pub count_clicks-process_all :
    (p : PointerState) (layout : DesktopLayout) (ss : List Sample)
    → accepts p layout ≡ true
    → count_clicks (process_all p layout ss).0 ≡ releases p.left_button_down ss
unfolding count_clicks process_all releases
count_clicks-process_all p layout [] ok = refl
count_clicks-process_all p layout (s ∷ ss) ok =
    let (still, down, clicked, _) = process_pointer_lem p layout s ok in
    let rest =
      count_clicks-process_all (process_pointer p layout s.x s.y s.left_down).1 layout ss still in
    rw clicked (
      ap (λ t. (if p.left_button_down && not s.left_down then 1 else 0) + t)
        (rest ∙ ap (λ d. releases d ss) down))
