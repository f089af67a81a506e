-- ===== src/Shell/Activation/Index.antt =====
-- The active window is a window of the layout, so the code that reads it stays in the array.
use micro_nt.Base.{
  ◌<◌, ◌≡◌, true, not, ◌||◌, List, [], ◌∷◌, length, ◌==◌, arith, inl, inr, Bool-cases,
}
use micro_nt.Shell.{DesktopLayout}
use micro_nt.Shell.Pointer.{PointerState}
use micro_nt.Shell.Activation.{ActivationState, create_activation_state, apply_pointer_target}

-- The targets of the pointer in order.
pub apply_all : ActivationState → DesktopLayout → List PointerState → ActivationState
apply_all state layout [] = state
apply_all state layout (p ∷ ps) = apply_all (apply_pointer_target state p layout).1 layout ps

apply_pointer_target_index :
    (state : ActivationState) (layout : DesktopLayout) (p : PointerState)
    → state.active_window_index < length layout.windows
    → (apply_pointer_target state p layout).1.active_window_index < length layout.windows
unfolding apply_pointer_target
apply_pointer_target_index state layout p lt = ground arith

apply_all_index :
    (state : ActivationState) (layout : DesktopLayout) (ps : List PointerState)
    → state.active_window_index < length layout.windows
    → (apply_all state layout ps).active_window_index < length layout.windows
unfolding apply_all
apply_all_index state layout [] lt = lt
apply_all_index state layout (p ∷ ps) lt =
    apply_all_index (apply_pointer_target state p layout).1 layout ps
      (apply_pointer_target_index state layout p lt)

-- Once CreateActivationState succeeded for a layout, the active window's index is below the
-- number of the layout's windows, whatever targets of the pointer are applied.
pub apply_all-create_activation_state :
    (state : ActivationState) (layout : DesktopLayout) (ps : List PointerState)
    → let (done, fresh) = create_activation_state state layout in
      done ≡ true → (apply_all fresh layout ps).active_window_index < length layout.windows
unfolding create_activation_state
apply_all-create_activation_state state layout ps =
    elim (Bool-cases (not layout.ready || length layout.windows == 0)) [
      | inl refused ↦ rw (refused, create_activation_state) (λ e. cc)
      | inr taken ↦
          let some_window : 0 < length layout.windows = ground arith in
          rw (taken, create_activation_state) (λ e. apply_all_index _ layout ps some_window)
    ]
