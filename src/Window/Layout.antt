-- ===== src/Window/Layout.antt =====
-- The methods `Calculate` of the components, which place a component and its children in a
-- rectangle. `Center.Calculate` may calculate its child twice, so the recursion is on fuel, for which
-- the depth of the tree is enough (Window/Layout/Depth).
pub mod Depth
pub mod Fuel
pub mod Erases
pub mod Again
use Prim.Native.Nat.{max}
use kiv_ups.Prelude.{ℕ, zero, suc, if◌then◌else◌}
use kiv_ups.Window.Geometry.{Float32, Rectangle}
use kiv_ups.Window.Areas.{
  clip, shrink, needs_centering, centered, upper_half, lower_half, GameAreas, game_areas, row_area,
  column_area,
}
use kiv_ups.Window.Component.{
  RgComponent, label, button, text_box, pot_display, panel, center, bounds_box, h_stack, v_stack,
  player_info, game_screen, Stack, stack, Components, end, child, MaybeComponent, absent, present,
  has_component, count_children, get_bounds,
}

module _ {X R : Type 0} where
  unfoldable mutual
    pub depth : RgComponent X R → ℕ
    depth (label l) = 1
    depth (button b) = 1
    depth (text_box t) = 1
    depth (pot_display p) = 1
    depth (panel b color c) = suc (depth c)
    depth (center b c) = suc (depth c)
    depth (bounds_box b wide high c) = suc (depth c)
    depth (h_stack s) = suc (stack_depth s)
    depth (v_stack s) = suc (stack_depth s)
    depth (player_info b turn desc cards) = suc (max (stack_depth desc) (stack_depth cards))
    depth (game_screen s river hand actions others pot) = suc (
        max (maybe_depth pot) (
          max (max (stack_depth river) (stack_depth others))
            (max (stack_depth hand) (stack_depth actions))))

    pub stack_depth : Stack X R → ℕ
    stack_depth (stack b cs padding) = children_depth cs

    pub children_depth : Components X R → ℕ
    children_depth end = 0
    children_depth (child c cs) = max (depth c) (children_depth cs)

    pub maybe_depth : MaybeComponent X R → ℕ
    maybe_depth absent = 0
    maybe_depth (present c) = depth c

-- A method `Calculate`: the one of a component, whatever its type is.
abbrev pub Method : Float32 → Type 0 → Type 0
Method F R = RgComponent F.Float R → Rectangle F.Float → RgComponent F.Float R

module _ (F : Float32) {R : Type 0} where
  open F use {Float, plus, equal, of_int}

  -- The loop of `HStack.Calculate`, from the first child's rectangle, in steps to the right.
  unfoldable pub row_children :
      Method F R → Components Float R → Rectangle Float → Float → Components Float R
  row_children place end area step = end
  row_children place (child c cs) area step =
      child (place c area) (row_children place cs (record area { x = plus area.x step }) step)

  unfoldable pub calculate_row : Method F R → Stack Float R → Rectangle Float → Stack Float R
  unfolding count_children row_children row_area
  calculate_row place (stack _ cs padding) r =
      let count = of_int (count_children cs) in
      let area = row_area F padding count r in
      let placed = row_children place cs area (plus area.width padding) in
      stack r (if equal count (of_int 0) then cs else placed) padding

  -- The loop of `VStack.Calculate`.
  unfoldable pub column_children :
      Method F R → Components Float R → Rectangle Float → Float → Components Float R
  column_children place end area step = end
  column_children place (child c cs) area step =
      child (place c area) (column_children place cs (record area { y = plus area.y step }) step)

  unfoldable pub calculate_column : Method F R → Stack Float R → Rectangle Float → Stack Float R
  unfolding count_children column_children column_area
  calculate_column place (stack _ cs padding) r =
      let count = of_int (count_children cs) in
      let area = column_area F padding count r in
      let placed = column_children place cs area (plus area.height padding) in
      stack r (if equal count (of_int 0) then cs else placed) padding

  unfoldable pub calculate_maybe :
      Method F R → MaybeComponent Float R → Rectangle Float → MaybeComponent Float R
  calculate_maybe place absent r = absent
  calculate_maybe place (present c) r = present (place c r)

  -- `CenterComponent.Calculate`, on its child.
  unfoldable pub center_child :
      Method F R → RgComponent Float R → Rectangle Float → RgComponent Float R
  unfolding get_bounds needs_centering centered
  center_child place c r =
      let once = place c r in
      let taken = get_bounds once in
      if needs_centering F r taken then place once (centered F r taken) else once

  unfoldable pub calculate_with : ℕ → Method F R
  unfolding clip shrink upper_half lower_half has_component game_areas calculate_row
      calculate_column calculate_maybe center_child
  calculate_with zero c r = c
  calculate_with (suc fuel) (label l) r = label (record l { bounds = r })
  calculate_with (suc fuel) (button b) r = button (clip F b r)
  calculate_with (suc fuel) (text_box t) r = text_box (record t { bounds = r })
  calculate_with (suc fuel) (pot_display p) r = pot_display (record p { bounds = r })
  calculate_with (suc fuel) (panel _ color c) r = panel r color (calculate_with fuel c r)
  calculate_with (suc fuel) (center _ c) r = center r (center_child (calculate_with fuel) c r)
  calculate_with (suc fuel) (bounds_box _ wide high c) r =
      bounds_box r wide high (calculate_with fuel c (shrink F wide high r))
  calculate_with (suc fuel) (h_stack s) r = h_stack (calculate_row (calculate_with fuel) s r)
  calculate_with (suc fuel) (v_stack s) r = v_stack (calculate_column (calculate_with fuel) s r)
  calculate_with (suc fuel) (player_info _ turn desc cards) r =
      player_info r turn (calculate_column (calculate_with fuel) desc (upper_half F r))
        (calculate_row (calculate_with fuel) cards (lower_half F r))
  calculate_with (suc fuel) (game_screen (stack _ cs padding) river hand actions others pot) r =
      let areas = game_areas F (has_component pot) padding r in
      game_screen (stack r cs padding) (calculate_row (calculate_with fuel) river areas.river_area)
        (calculate_row (calculate_with fuel) hand areas.hand_area)
        (calculate_row (calculate_with fuel) actions areas.actions_area)
        (calculate_row (calculate_with fuel) others areas.others_area)
        (calculate_maybe (calculate_with fuel) pot areas.pot_area)

  -- `Calculate`
  unfoldable pub calculate : Method F R
  unfolding depth calculate_with
  calculate c = calculate_with (depth c) c
