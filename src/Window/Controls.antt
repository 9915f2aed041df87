-- ===== src/Window/Controls.antt =====
-- Laying out and rebuilding a tree keep its controls.
use kiv_ups.Prelude.{ℕ, zero, suc, ◌≡◌, refl, ◌∙◌, Bool, true, false, if◌then◌else◌}
use kiv_ups.Window.Geometry.{Float32, Rectangle}
use kiv_ups.Window.Areas.{clip, row_area, column_area}
use kiv_ups.Window.Component.{
  RgComponent, label, button, text_box, pot_display, panel, center, bounds_box, h_stack, v_stack,
  player_info, game_screen, Stack, stack, Components, end, child, MaybeComponent, absent, present,
  count_children,
}
use kiv_ups.Window.Layout.{
  Method, row_children, calculate_row, column_children, calculate_column, calculate_maybe,
  center_child, calculate_with, calculate,
}
use kiv_ups.Window.Rebuild.{rebuild, rebuild_stack, rebuild_children}
use kiv_ups.Window.Draw.Events.{controls, stack_controls, children_controls, maybe_controls}

module _ (F : Float32) {R : Type 0} where
  open F use {Float, plus, equal, of_int}

  -- A method that keeps the controls of every component.
  abbrev KeepsControls : Method F R → Type 0
  KeepsControls m = (c : RgComponent Float R) (r : Rectangle Float) → controls (m c r) ≡ controls c

  module _ (m : Method F R) (keeps : KeepsControls m) where
    children_controls-row_children :
        (cs : Components Float R) (area : Rectangle Float) (step : Float)
        → children_controls (row_children F m cs area step) ≡ children_controls cs
    unfolding children_controls row_children
    children_controls-row_children end area step = refl
    children_controls-row_children (child c cs) area step =
        rw (keeps c area, children_controls-row_children cs _ step) refl

    children_controls-column_children :
        (cs : Components Float R) (area : Rectangle Float) (step : Float)
        → children_controls (column_children F m cs area step) ≡ children_controls cs
    unfolding children_controls column_children
    children_controls-column_children end area step = refl
    children_controls-column_children (child c cs) area step =
        rw (keeps c area, children_controls-column_children cs _ step) refl

    laid_out_or_not :
        (b : Bool) (cs ds : Components Float R)
        → children_controls ds ≡ children_controls cs
        → children_controls (if b then cs else ds) ≡ children_controls cs
    laid_out_or_not true cs ds e = refl
    laid_out_or_not false cs ds e = e

    stack_controls-calculate_row :
        (s : Stack Float R) (r : Rectangle Float)
        → stack_controls (calculate_row F m s r) ≡ stack_controls s
    unfolding stack_controls calculate_row
    stack_controls-calculate_row (stack b cs padding) r =
        let count = of_int (count_children cs) in
        let area = row_area F padding count r in
        laid_out_or_not (equal count (of_int 0)) cs
          (row_children F m cs area (plus area.width padding))
          (children_controls-row_children cs area (plus area.width padding))

    stack_controls-calculate_column :
        (s : Stack Float R) (r : Rectangle Float)
        → stack_controls (calculate_column F m s r) ≡ stack_controls s
    unfolding stack_controls calculate_column
    stack_controls-calculate_column (stack b cs padding) r =
        let count = of_int (count_children cs) in
        let area = column_area F padding count r in
        laid_out_or_not (equal count (of_int 0)) cs
          (column_children F m cs area (plus area.height padding))
          (children_controls-column_children cs area (plus area.height padding))

    maybe_controls-calculate_maybe :
        (c : MaybeComponent Float R) (r : Rectangle Float)
        → maybe_controls (calculate_maybe F m c r) ≡ maybe_controls c
    unfolding maybe_controls calculate_maybe
    maybe_controls-calculate_maybe absent r = refl
    maybe_controls-calculate_maybe (present c) r = keeps c r

    once_or_twice :
        (b : Bool) (c : RgComponent Float R) (r s : Rectangle Float)
        → controls (if b then m (m c r) s else m c r) ≡ controls c
    once_or_twice true c r s = keeps (m c r) s ∙ keeps c r
    once_or_twice false c r s = keeps c r

    controls-center_child :
        (c : RgComponent Float R) (r : Rectangle Float)
        → controls (center_child F m c r) ≡ controls c
    unfolding center_child
    controls-center_child c r = once_or_twice _ c r _

  controls-calculate_with : (n : ℕ) → KeepsControls (calculate_with F n)
  unfolding calculate_with controls clip
  controls-calculate_with zero c r = refl
  controls-calculate_with (suc n) (label l) r = refl
  controls-calculate_with (suc n) (button b) r = refl
  controls-calculate_with (suc n) (text_box t) r = refl
  controls-calculate_with (suc n) (pot_display p) r = refl
  controls-calculate_with (suc n) (panel b color c) r = controls-calculate_with n c r
  controls-calculate_with (suc n) (center b c) r =
      controls-center_child (calculate_with F n) (controls-calculate_with n) c r
  controls-calculate_with (suc n) (bounds_box b wide high c) r = controls-calculate_with n c _
  controls-calculate_with (suc n) (h_stack s) r =
      stack_controls-calculate_row (calculate_with F n) (controls-calculate_with n) s r
  controls-calculate_with (suc n) (v_stack s) r =
      stack_controls-calculate_column (calculate_with F n) (controls-calculate_with n) s r
  controls-calculate_with (suc n) (player_info b turn desc cards) r =
      rw
        (
          stack_controls-calculate_row (calculate_with F n) (controls-calculate_with n) cards _,
          stack_controls-calculate_column (calculate_with F n) (controls-calculate_with n) desc _,
        )
        refl
  controls-calculate_with (suc n) (game_screen (stack b cs p) river hand actions others pot) r =
      let row = stack_controls-calculate_row (calculate_with F n) (controls-calculate_with n) in
      rw
        (
          row river _,
          row hand _,
          row actions _,
          row others _,
          maybe_controls-calculate_maybe (calculate_with F n) (controls-calculate_with n) pot _,
        )
        refl

  -- `Calculate` changes neither the controls of a tree nor their order.
  pub controls-calculate :
      (c : RgComponent Float R) (r : Rectangle Float) → controls (calculate F c r) ≡ controls c
  unfolding calculate
  controls-calculate c r = controls-calculate_with _ c r

module _ {X R : Type 0} where
  mutual
    unfolding controls rebuild

    -- Neither does `Rebuild`, whatever the old component is.
    pub controls-rebuild :
        (c : RgComponent X R) (old : MaybeComponent X R) → controls (rebuild c old) ≡ controls c
    controls-rebuild (text_box t) (present (text_box old)) = refl
    controls-rebuild (panel b color c) (present (panel _ _ old)) = controls-rebuild c (present old)
    controls-rebuild (center b c) (present (center _ old)) = controls-rebuild c (present old)
    controls-rebuild (bounds_box b wide high c) (present (bounds_box _ _ _ old)) =
        controls-rebuild c (present old)
    controls-rebuild (h_stack s) (present (h_stack old)) = stack_controls-rebuild_stack s old
    controls-rebuild (v_stack s) (present (v_stack old)) = stack_controls-rebuild_stack s old
    controls-rebuild (game_screen s river hand actions others pot)
          (present (game_screen _ _ _ old _ _)) =
        rw (stack_controls-rebuild_stack actions old) refl
    controls-rebuild c old = refl

    stack_controls-rebuild_stack :
        (s old : Stack X R) → stack_controls (rebuild_stack s old) ≡ stack_controls s
    stack_controls-rebuild_stack (stack b cs padding) (stack _ old _) =
        children_controls-rebuild_children cs old

    children_controls-rebuild_children :
        (cs old : Components X R)
        → children_controls (rebuild_children cs old) ≡ children_controls cs
    children_controls-rebuild_children end old = refl
    children_controls-rebuild_children (child c cs) end = refl
    children_controls-rebuild_children (child c cs) (child old olds) =
        rw (controls-rebuild c (present old), children_controls-rebuild_children cs olds) refl
