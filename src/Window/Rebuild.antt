-- ===== src/Window/Rebuild.antt =====
-- The methods `Rebuild`, by which a screen that is built anew for a frame takes over from the one
-- before it which text box is being edited. The old component may be nil or of another type.
pub mod Restore
use kiv_ups.Prelude.{◌≡◌, refl, ap, Bool, false}
use kiv_ups.Window.Component.{
  RgComponent, label, button, text_box, pot_display, panel, center, bounds_box, h_stack, v_stack,
  player_info, game_screen, Stack, stack, Components, end, child, MaybeComponent, absent, present,
}

module _ {X R : Type 0} where
  unfoldable mutual
    pub rebuild : RgComponent X R → MaybeComponent X R → RgComponent X R
    rebuild (text_box t) (present (text_box old)) =
        text_box (record t { edit_mode = old.edit_mode })
    rebuild (panel b color c) (present (panel _ _ old)) = panel b color (rebuild c (present old))
    rebuild (center b c) (present (center _ old)) = center b (rebuild c (present old))
    rebuild (bounds_box b wide high c) (present (bounds_box _ _ _ old)) =
        bounds_box b wide high (rebuild c (present old))
    rebuild (h_stack s) (present (h_stack old)) = h_stack (rebuild_stack s old)
    rebuild (v_stack s) (present (v_stack old)) = v_stack (rebuild_stack s old)
    rebuild (game_screen s river hand actions others pot) (present (game_screen _ _ _ old _ _)) =
        game_screen s river hand (rebuild_stack actions old) others pot
    rebuild c old = c

    pub rebuild_stack : Stack X R → Stack X R → Stack X R
    rebuild_stack (stack b cs padding) (stack _ old _) = stack b (rebuild_children cs old) padding

    pub rebuild_children : Components X R → Components X R → Components X R
    rebuild_children (child c cs) (child old olds) =
        child (rebuild c (present old)) (rebuild_children cs olds)
    rebuild_children cs old = cs

  -- The tree with every text box at rest, as the screens are built.
  unfoldable mutual
    pub at_rest : RgComponent X R → RgComponent X R
    at_rest (label l) = label l
    at_rest (button b) = button b
    at_rest (text_box t) = text_box (record t { edit_mode = false })
    at_rest (pot_display p) = pot_display p
    at_rest (panel b color c) = panel b color (at_rest c)
    at_rest (center b c) = center b (at_rest c)
    at_rest (bounds_box b wide high c) = bounds_box b wide high (at_rest c)
    at_rest (h_stack s) = h_stack (stack_at_rest s)
    at_rest (v_stack s) = v_stack (stack_at_rest s)
    at_rest (player_info b turn desc cards) =
        player_info b turn (stack_at_rest desc) (stack_at_rest cards)
    at_rest (game_screen s river hand actions others pot) =
        game_screen s (stack_at_rest river) (stack_at_rest hand) (stack_at_rest actions)
          (stack_at_rest others) (maybe_at_rest pot)

    pub stack_at_rest : Stack X R → Stack X R
    stack_at_rest (stack b cs padding) = stack b (children_at_rest cs) padding

    pub children_at_rest : Components X R → Components X R
    children_at_rest end = end
    children_at_rest (child c cs) = child (at_rest c) (children_at_rest cs)

    pub maybe_at_rest : MaybeComponent X R → MaybeComponent X R
    maybe_at_rest absent = absent
    maybe_at_rest (present c) = present (at_rest c)

  mutual
    unfolding at_rest rebuild

    -- Whatever the old component is, rebuilding changes nothing but which text boxes are edited.
    at_rest-rebuild :
        (c : RgComponent X R) (old : MaybeComponent X R) → at_rest (rebuild c old) ≡ at_rest c
    at_rest-rebuild (text_box t) (present (text_box old)) = refl
    at_rest-rebuild (panel b color c) (present (panel _ _ old)) =
        ap (panel b color) (at_rest-rebuild c (present old))
    at_rest-rebuild (center b c) (present (center _ old)) =
        ap (center b) (at_rest-rebuild c (present old))
    at_rest-rebuild (bounds_box b wide high c) (present (bounds_box _ _ _ old)) =
        ap (bounds_box b wide high) (at_rest-rebuild c (present old))
    at_rest-rebuild (h_stack s) (present (h_stack old)) =
        ap h_stack (stack_at_rest-rebuild_stack s old)
    at_rest-rebuild (v_stack s) (present (v_stack old)) =
        ap v_stack (stack_at_rest-rebuild_stack s old)
    at_rest-rebuild (game_screen s river hand actions others pot)
          (present (game_screen _ _ _ old _ _)) =
        ap
          (λ bar.
            game_screen s (stack_at_rest river) (stack_at_rest hand) bar (stack_at_rest others)
              (maybe_at_rest pot))
          (stack_at_rest-rebuild_stack actions old)
    at_rest-rebuild c old = refl

    stack_at_rest-rebuild_stack :
        (s old : Stack X R) → stack_at_rest (rebuild_stack s old) ≡ stack_at_rest s
    stack_at_rest-rebuild_stack (stack b cs padding) (stack _ old _) =
        ap (λ ds. stack b ds padding) (children_at_rest-rebuild_children cs old)

    children_at_rest-rebuild_children :
        (cs old : Components X R) → children_at_rest (rebuild_children cs old) ≡ children_at_rest cs
    children_at_rest-rebuild_children end old = refl
    children_at_rest-rebuild_children (child c cs) end = refl
    children_at_rest-rebuild_children (child c cs) (child old olds) =
        rw (at_rest-rebuild c (present old), children_at_rest-rebuild_children cs olds) refl
