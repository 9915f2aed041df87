-- ===== src/Window/Layout/Depth.antt =====
-- The depth of a tree stays as it is while it is laid out, and it is enough fuel.
use kiv_ups.Prelude.{ℕ, zero, suc, ◌<◌, ◌≡◌, refl, ap, ◌∙◌, Bool, true, false, arith, if◌then◌else◌}
use kiv_ups.Window.Geometry.{Float32, Rectangle}
use kiv_ups.Window.Component.{
  RgComponent, label, button, text_box, pot_display, panel, center, bounds_box, h_stack, v_stack,
  player_info, game_screen, Stack, stack, Components, end, child, MaybeComponent, absent, present,
}
use kiv_ups.Window.Layout.{
  depth, stack_depth, children_depth, maybe_depth, Method, row_children, calculate_row,
  column_children, calculate_column, calculate_maybe, center_child, calculate_with,
}

module _ (F : Float32) {R : Type 0} where
  open F use {Float}

  -- A method that keeps the depth of the component.
  abbrev pub KeepsDepth : Method F R → Type 0
  KeepsDepth m = (c : RgComponent Float R) (r : Rectangle Float) → depth (m c r) ≡ depth c

  module _ (m : Method F R) (keeps : KeepsDepth m) where
    children_depth-row_children :
        (cs : Components Float R) (area : Rectangle Float) (step : Float)
        → children_depth (row_children F m cs area step) ≡ children_depth cs
    unfolding children_depth row_children
    children_depth-row_children end area step = refl
    children_depth-row_children (child c cs) area step =
        rw (keeps c area, children_depth-row_children cs _ step) refl

    children_depth-column_children :
        (cs : Components Float R) (area : Rectangle Float) (step : Float)
        → children_depth (column_children F m cs area step) ≡ children_depth cs
    unfolding children_depth column_children
    children_depth-column_children end area step = refl
    children_depth-column_children (child c cs) area step =
        rw (keeps c area, children_depth-column_children cs _ step) refl

    one_of_two :
        (b : Bool) (cs ds : Components Float R)
        → children_depth ds ≡ children_depth cs
        → children_depth (if b then cs else ds) ≡ children_depth cs
    one_of_two true cs ds e = refl
    one_of_two false cs ds e = e

    stack_depth-calculate_row :
        (s : Stack Float R) (r : Rectangle Float)
        → stack_depth (calculate_row F m s r) ≡ stack_depth s
    unfolding stack_depth calculate_row
    stack_depth-calculate_row (stack b cs padding) r =
        one_of_two _ cs _ (children_depth-row_children cs _ _)

    stack_depth-calculate_column :
        (s : Stack Float R) (r : Rectangle Float)
        → stack_depth (calculate_column F m s r) ≡ stack_depth s
    unfolding stack_depth calculate_column
    stack_depth-calculate_column (stack b cs padding) r =
        one_of_two _ cs _ (children_depth-column_children cs _ _)

    maybe_depth-calculate_maybe :
        (c : MaybeComponent Float R) (r : Rectangle Float)
        → maybe_depth (calculate_maybe F m c r) ≡ maybe_depth c
    unfolding maybe_depth calculate_maybe
    maybe_depth-calculate_maybe absent r = refl
    maybe_depth-calculate_maybe (present c) r = keeps c r

    center_keeps :
        (b : Bool) (c : RgComponent Float R) (r s : Rectangle Float)
        → depth (if b then m (m c r) s else m c r) ≡ depth c
    center_keeps true c r s = keeps (m c r) s ∙ keeps c r
    center_keeps false c r s = keeps c r

    depth-center_child :
        (c : RgComponent Float R) (r : Rectangle Float) → depth (center_child F m c r) ≡ depth c
    unfolding center_child
    depth-center_child c r = center_keeps _ c r _

  pub depth-calculate_with : (n : ℕ) → KeepsDepth (calculate_with F n)
  unfolding calculate_with depth
  depth-calculate_with zero c r = refl
  depth-calculate_with (suc n) (label l) r = refl
  depth-calculate_with (suc n) (button b) r = refl
  depth-calculate_with (suc n) (text_box t) r = refl
  depth-calculate_with (suc n) (pot_display p) r = refl
  depth-calculate_with (suc n) (panel b color c) r = ap suc (depth-calculate_with n c r)
  depth-calculate_with (suc n) (center b c) r =
      ap suc (depth-center_child (calculate_with F n) (depth-calculate_with n) c r)
  depth-calculate_with (suc n) (bounds_box b wide high c) r = ap suc (depth-calculate_with n c _)
  depth-calculate_with (suc n) (h_stack s) r =
      ap suc (stack_depth-calculate_row (calculate_with F n) (depth-calculate_with n) s r)
  depth-calculate_with (suc n) (v_stack s) r =
      ap suc (stack_depth-calculate_column (calculate_with F n) (depth-calculate_with n) s r)
  depth-calculate_with (suc n) (player_info b turn desc cards) r =
      rw
        (
          stack_depth-calculate_row (calculate_with F n) (depth-calculate_with n) cards _,
          stack_depth-calculate_column (calculate_with F n) (depth-calculate_with n) desc _,
        )
        refl
  depth-calculate_with (suc n) (game_screen (stack b cs p) river hand actions others pot) r =
      rw
        (
          stack_depth-calculate_row (calculate_with F n) (depth-calculate_with n) river _,
          stack_depth-calculate_row (calculate_with F n) (depth-calculate_with n) hand _,
          stack_depth-calculate_row (calculate_with F n) (depth-calculate_with n) actions _,
          stack_depth-calculate_row (calculate_with F n) (depth-calculate_with n) others _,
          maybe_depth-calculate_maybe (calculate_with F n) (depth-calculate_with n) pot _,
        )
        refl

  pub depth_pos : (c : RgComponent Float R) → 0 < depth c
  unfolding depth
  depth_pos (label l) = omega arith
  depth_pos (button b) = omega arith
  depth_pos (text_box t) = omega arith
  depth_pos (pot_display p) = omega arith
  depth_pos (panel b color c) = omega arith
  depth_pos (center b c) = omega arith
  depth_pos (bounds_box b wide high c) = omega arith
  depth_pos (h_stack s) = omega arith
  depth_pos (v_stack s) = omega arith
  depth_pos (player_info b turn desc cards) = omega arith
  depth_pos (game_screen s river hand actions others pot) = omega arith
