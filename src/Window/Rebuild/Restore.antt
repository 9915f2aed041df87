-- ===== src/Window/Rebuild/Restore.antt =====
-- `Rebuild` gives a tree that was built anew the text boxes of the tree before it.
use kiv_ups.Prelude.{◌≡◌, refl, ap}
use kiv_ups.Window.Component.{
  RgComponent, label, button, text_box, pot_display, panel, center, bounds_box, h_stack, v_stack,
  player_info, game_screen, Stack, stack, Components, end, child, present,
}
use kiv_ups.Window.Rebuild.{
  rebuild, rebuild_stack, rebuild_children, at_rest, stack_at_rest, children_at_rest, maybe_at_rest,
}

module _ {X R : Type 0} where
  -- No text box is being edited where `Rebuild` does not come to: in the data of a player, and in the
  -- game screen outside of the action bar.
  unfoldable mutual
    pub IsReached : RgComponent X R → Type 0
    IsReached (panel b color c) = IsReached c
    IsReached (center b c) = IsReached c
    IsReached (bounds_box b wide high c) = IsReached c
    IsReached (h_stack s) = IsReachedStack s
    IsReached (v_stack s) = IsReachedStack s
    IsReached (player_info b turn desc cards) =
        (stack_at_rest desc ≡ desc) × (stack_at_rest cards ≡ cards)
    IsReached (game_screen s river hand actions others pot) =
        (stack_at_rest river ≡ river)
        × (stack_at_rest hand ≡ hand)
        × IsReachedStack actions
        × (stack_at_rest others ≡ others)
        × (maybe_at_rest pot ≡ pot)
    IsReached _ = Unit

    IsReachedStack : Stack X R → Type 0
    IsReachedStack (stack b cs padding) = AreReached cs

    AreReached : Components X R → Type 0
    AreReached end = Unit
    AreReached (child c cs) = IsReached c × AreReached cs

  mutual
    unfolding rebuild at_rest IsReached

    restores : (c : RgComponent X R) → IsReached c → rebuild (at_rest c) (present c) ≡ c
    restores (label l) h = refl
    restores (button b) h = refl
    restores (text_box t) h = refl
    restores (pot_display p) h = refl
    restores (panel b color c) h = ap (panel b color) (restores c h)
    restores (center b c) h = ap (center b) (restores c h)
    restores (bounds_box b wide high c) h = ap (bounds_box b wide high) (restores c h)
    restores (h_stack s) h = ap h_stack (rebuild_stack-stack_at_rest s h)
    restores (v_stack s) h = ap v_stack (rebuild_stack-stack_at_rest s h)
    restores (player_info b turn desc cards) (h, k) = rw (h, k) refl
    restores (game_screen s river hand actions others pot) (h, k, a, o, p) =
        rw (h, k, o, p, rebuild_stack-stack_at_rest actions a) refl

    rebuild_stack-stack_at_rest :
        (s : Stack X R) → IsReachedStack s → rebuild_stack (stack_at_rest s) s ≡ s
    rebuild_stack-stack_at_rest (stack b cs padding) h =
        ap (λ ds. stack b ds padding) (rebuild_children-children_at_rest cs h)

    rebuild_children-children_at_rest :
        (cs : Components X R) → AreReached cs → rebuild_children (children_at_rest cs) cs ≡ cs
    rebuild_children-children_at_rest end h = refl
    rebuild_children-children_at_rest (child c cs) (h, hs) =
        rw (restores c h, rebuild_children-children_at_rest cs hs) refl

  -- A tree in which no text box is being edited becomes the tree it was made from when it is
  -- rebuilt from it, if nothing was being edited where `Rebuild` does not come to.
  pub rebuild-at_rest : (c : RgComponent X R) → IsReached c → rebuild (at_rest c) (present c) ≡ c
  rebuild-at_rest = restores
