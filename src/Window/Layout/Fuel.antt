-- ===== src/Window/Layout/Fuel.antt =====
-- More fuel than the depth of a tree lays it out in the same way.
use kiv_ups.Prelude.{ℕ, zero, suc, ◌≤◌, ◌≡◌, refl, ap, Bool, arith, if◌then◌else◌}
use kiv_ups.Window.Geometry.{Float32, Rectangle}
use kiv_ups.Window.Component.{
  RgComponent, label, button, text_box, pot_display, panel, center, bounds_box, h_stack, v_stack,
  player_info, game_screen, Stack, stack, Components, end, child, MaybeComponent, absent, present,
}
use kiv_ups.Window.Layout.{
  depth, stack_depth, children_depth, maybe_depth, Method, row_children, calculate_row,
  column_children, calculate_column, calculate_maybe, center_child, calculate_with, calculate,
}
use kiv_ups.Window.Layout.Depth.{depth-calculate_with, depth_pos}

-- Two methods that do the same to every component of at most this depth.
abbrev Agree : (F : Float32) (R : Type 0) → ℕ → Method F R → Method F R → Type 0
Agree F R d m k =
    (c : RgComponent F.Float R) → depth c ≤ d → (r : Rectangle F.Float) → m c r ≡ k c r

module _ (F : Float32) {R : Type 0} where
  open F use {Float}

  rest_same :
      (b : Bool) (cs : Components Float R) (r : Rectangle Float) (padding : Float)
      → {ds es : Components Float R} → ds ≡ es
      → stack r (if b then cs else ds) padding ≡ stack r (if b then cs else es) padding
  rest_same b cs r padding e = rw e refl

  module _ (d : ℕ) (m k : Method F R) (same : Agree F R d m k) where
    row_children-Agree :
        (cs : Components Float R)
        → children_depth cs ≤ d
        → (area : Rectangle Float) (step : Float)
        → row_children F m cs area step ≡ row_children F k cs area step
    unfolding children_depth row_children
    row_children-Agree end h area step = refl
    row_children-Agree (child c cs) h area step =
        rw (same c (omega (arith, h)) area, row_children-Agree cs (omega (arith, h)) _ step) refl

    column_children-Agree :
        (cs : Components Float R)
        → children_depth cs ≤ d
        → (area : Rectangle Float) (step : Float)
        → column_children F m cs area step ≡ column_children F k cs area step
    unfolding children_depth column_children
    column_children-Agree end h area step = refl
    column_children-Agree (child c cs) h area step =
        rw (same c (omega (arith, h)) area, column_children-Agree cs (omega (arith, h)) _ step) refl

    calculate_row-Agree :
        (s : Stack Float R)
        → stack_depth s ≤ d
        → (r : Rectangle Float) → calculate_row F m s r ≡ calculate_row F k s r
    unfolding stack_depth calculate_row
    calculate_row-Agree (stack b cs padding) h r =
        rest_same _ cs r padding (row_children-Agree cs h _ _)

    calculate_column-Agree :
        (s : Stack Float R)
        → stack_depth s ≤ d
        → (r : Rectangle Float) → calculate_column F m s r ≡ calculate_column F k s r
    unfolding stack_depth calculate_column
    calculate_column-Agree (stack b cs padding) h r =
        rest_same _ cs r padding (column_children-Agree cs h _ _)

    calculate_maybe-Agree :
        (c : MaybeComponent Float R)
        → maybe_depth c ≤ d
        → (r : Rectangle Float) → calculate_maybe F m c r ≡ calculate_maybe F k c r
    unfolding maybe_depth calculate_maybe
    calculate_maybe-Agree absent h r = refl
    calculate_maybe-Agree (present c) h r = ap present (same c h r)

    center_child-Agree :
        (c : RgComponent Float R)
        → depth c ≤ d
        → (r : Rectangle Float) → depth (k c r) ≡ depth c
        → center_child F m c r ≡ center_child F k c r
    unfolding center_child
    center_child-Agree c h r keeps = rw (same c h r, same (k c r) (omega (arith, keeps, h)) _) refl

  same_fuel : (n g d : ℕ) → d ≤ n → d ≤ g → Agree F R d (calculate_with F n) (calculate_with F g)
  unfolding calculate_with depth
  same_fuel zero g d hn hg c h r = absurd (omega (arith, depth_pos F c, h, hn))
  same_fuel (suc n) zero d hn hg c h r = absurd (omega (arith, depth_pos F c, h, hg))
  same_fuel (suc n) (suc g) zero hn hg c h r = absurd (omega (arith, depth_pos F c, h))
  same_fuel (suc n) (suc g) (suc d) hn hg (label l) h r = refl
  same_fuel (suc n) (suc g) (suc d) hn hg (button b) h r = refl
  same_fuel (suc n) (suc g) (suc d) hn hg (text_box t) h r = refl
  same_fuel (suc n) (suc g) (suc d) hn hg (pot_display p) h r = refl
  same_fuel (suc n) (suc g) (suc d) hn hg (panel b color c) h r =
      ap (panel r color)
        (same_fuel n g d (omega (arith, hn)) (omega (arith, hg)) c (omega (arith, h)) r)
  same_fuel (suc n) (suc g) (suc d) hn hg (center b c) h r = ap (center r) (
      center_child-Agree d (calculate_with F n) (calculate_with F g)
        (same_fuel n g d (omega (arith, hn)) (omega (arith, hg))) c (omega (arith, h)) r
        (depth-calculate_with F g c r))
  same_fuel (suc n) (suc g) (suc d) hn hg (bounds_box b wide high c) h r =
      ap (bounds_box r wide high)
        (same_fuel n g d (omega (arith, hn)) (omega (arith, hg)) c (omega (arith, h)) _)
  same_fuel (suc n) (suc g) (suc d) hn hg (h_stack s) h r = ap h_stack (
      calculate_row-Agree d (calculate_with F n) (calculate_with F g)
        (same_fuel n g d (omega (arith, hn)) (omega (arith, hg))) s (omega (arith, h)) r)
  same_fuel (suc n) (suc g) (suc d) hn hg (v_stack s) h r = ap v_stack (
      calculate_column-Agree d (calculate_with F n) (calculate_with F g)
        (same_fuel n g d (omega (arith, hn)) (omega (arith, hg))) s (omega (arith, h)) r)
  same_fuel (suc n) (suc g) (suc d) hn hg (player_info b turn desc cards) h r =
      let below = same_fuel n g d (omega (arith, hn)) (omega (arith, hg)) in
      rw
        (
          calculate_column-Agree d (calculate_with F n) (calculate_with F g) below desc
              (omega (arith, h)) _,
          calculate_row-Agree d (calculate_with F n) (calculate_with F g) below cards
              (omega (arith, h)) _,
        )
        refl
  same_fuel (suc n) (suc g) (suc d) hn hg (game_screen (stack b cs p) river hand actions others pot)
        h r =
      let below = same_fuel n g d (omega (arith, hn)) (omega (arith, hg)) in
      let bar_same = calculate_row-Agree d (calculate_with F n) (calculate_with F g) below in
      rw
        (
          bar_same river (omega (arith, h)) _,
          bar_same hand (omega (arith, h)) _,
          bar_same actions (omega (arith, h)) _,
          bar_same others (omega (arith, h)) _,
          calculate_maybe-Agree d (calculate_with F n) (calculate_with F g) below pot
              (omega (arith, h)) _,
        )
        refl

  -- With any fuel that is not below the depth of the component, the layout is the same.
  pub calculate_with-depth :
      (n : ℕ) (c : RgComponent Float R) (r : Rectangle Float)
      → depth c ≤ n
      → calculate_with F n c r ≡ calculate F c r
  unfolding calculate
  calculate_with-depth n c r h = same_fuel n (depth c) (depth c) h (omega arith) c (omega arith) r
