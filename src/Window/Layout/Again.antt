-- ===== src/Window/Layout/Again.antt =====
-- A component that is laid out again, in another rectangle, keeps nothing of the first time.
use kiv_ups.Prelude.{ℕ, zero, suc, ◌≤◌, ◌≡◌, refl, ap, arith}
use kiv_ups.Window.Geometry.{Float32, Rectangle}
use kiv_ups.Window.Component.{
  RgComponent, label, button, text_box, pot_display, panel, center, bounds_box, h_stack, v_stack,
  player_info, game_screen, stack, MaybeComponent, absent, present, has_component,
}
use kiv_ups.Window.Areas.{clip}
use kiv_ups.Window.Layout.{depth, Method, calculate_maybe, calculate_with, calculate}
use kiv_ups.Window.Layout.Depth.{depth-calculate_with, depth_pos}
use kiv_ups.Window.Layout.Erases.{
  Erases, calculate_row-Erases, calculate_column-Erases, calculate_maybe-Erases,
  center_child-Erases,
}

module _ (F : Float32) {R : Type 0} where
  open F use {Float}

  has_component-calculate_maybe :
      (m : Method F R) (c : MaybeComponent Float R) (q : Rectangle Float)
      → has_component (calculate_maybe F m c q) ≡ has_component c
  unfolding has_component calculate_maybe
  has_component-calculate_maybe m absent q = refl
  has_component-calculate_maybe m (present c) q = refl

  Erases-fuel : (n g d : ℕ) → d ≤ n → Erases F R d (calculate_with F n) (calculate_with F g)
  unfolding calculate_with depth clip
  Erases-fuel zero g d hn c h q r = absurd (omega (arith, depth_pos F c, h, hn))
  Erases-fuel (suc n) zero d hn c h q r = refl
  Erases-fuel (suc n) (suc g) zero hn c h q r = absurd (omega (arith, depth_pos F c, h))
  Erases-fuel (suc n) (suc g) (suc d) hn (label l) h q r = refl
  Erases-fuel (suc n) (suc g) (suc d) hn (button b) h q r = refl
  Erases-fuel (suc n) (suc g) (suc d) hn (text_box t) h q r = refl
  Erases-fuel (suc n) (suc g) (suc d) hn (pot_display p) h q r = refl
  Erases-fuel (suc n) (suc g) (suc d) hn (panel b color c) h q r =
      ap (panel r color) (Erases-fuel n g d (omega (arith, hn)) c (omega (arith, h)) q r)
  Erases-fuel (suc n) (suc g) (suc d) hn (center b c) h q r = ap (center r) (
      center_child-Erases F d (calculate_with F n) (calculate_with F g)
        (Erases-fuel n g d (omega (arith, hn))) c (depth-calculate_with F g) (omega (arith, h)) q r)
  Erases-fuel (suc n) (suc g) (suc d) hn (bounds_box b wide high c) h q r =
      ap (bounds_box r wide high) (Erases-fuel n g d (omega (arith, hn)) c (omega (arith, h)) _ _)
  Erases-fuel (suc n) (suc g) (suc d) hn (h_stack s) h q r = ap h_stack (
      calculate_row-Erases F d (calculate_with F n) (calculate_with F g)
        (Erases-fuel n g d (omega (arith, hn))) s (omega (arith, h)) q r)
  Erases-fuel (suc n) (suc g) (suc d) hn (v_stack s) h q r = ap v_stack (
      calculate_column-Erases F d (calculate_with F n) (calculate_with F g)
        (Erases-fuel n g d (omega (arith, hn))) s (omega (arith, h)) q r)
  Erases-fuel (suc n) (suc g) (suc d) hn (player_info b turn desc cards) h q r =
      let below = Erases-fuel n g d (omega (arith, hn)) in
      rw
        (
          calculate_column-Erases F d (calculate_with F n) (calculate_with F g) below desc
              (omega (arith, h)) _ _,
          calculate_row-Erases F d (calculate_with F n) (calculate_with F g) below cards
              (omega (arith, h)) _ _,
        )
        refl
  Erases-fuel (suc n) (suc g) (suc d) hn (game_screen (stack b cs p) river hand actions others pot)
        h q r =
      let below = Erases-fuel n g d (omega (arith, hn)) in
      let bar_erases = calculate_row-Erases F d (calculate_with F n) (calculate_with F g) below in
      rw
        (
          has_component-calculate_maybe (calculate_with F g) pot _,
          bar_erases river (omega (arith, h)) _ _,
          bar_erases hand (omega (arith, h)) _ _,
          bar_erases actions (omega (arith, h)) _ _,
          bar_erases others (omega (arith, h)) _ _,
          calculate_maybe-Erases F d (calculate_with F n) (calculate_with F g) below pot
              (omega (arith, h)) _ _,
        )
        refl

  -- What `Calculate` leaves of a component depends on the component and on the last rectangle only:
  -- it makes no difference where the component was laid out before.
  pub calculate-calculate :
      (c : RgComponent Float R) (q r : Rectangle Float)
      → calculate F (calculate F c q) r ≡ calculate F c r
  calculate-calculate c q r =
      let n = depth c in
      let keeps = depth-calculate_with F n c q in
      unfold calculate in rw keeps (Erases-fuel n n n (omega arith) c (omega arith) q r)
