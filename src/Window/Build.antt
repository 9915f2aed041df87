-- ===== src/Window/Build.antt =====
-- The constructors of the components. A component that was not laid out yet has the zero rectangle.
use kiv_ups.Prelude.{ℕ, Bool, false, List, [], ◌∷◌, Bytes}
use kiv_ups.Prelude.Int.{ℤ}
use kiv_ups.Window.Geometry.{Float32, Rectangle, Color}
use kiv_ups.Window.Component.{
  RgComponent, label, button, text_box, pot_display, panel, center, bounds_box, player_info, Stack,
  stack, end, add_child,
}

module _ (F : Float32) where
  open F use {Float, of_int}

  abbrev no_bounds : Rectangle Float
  no_bounds = record { x = of_int 0; y = of_int 0; width = of_int 0; height = of_int 0 }

  module _ {R : Type 0} where
    abbrev pub new_label_component : Bytes → ℕ → Color → RgComponent Float R
    new_label_component text font_size color =
        label (record { bounds = no_bounds; text = text; font_size = font_size; color = color })

    abbrev pub new_button_component : Bytes → Bytes → Float → Float → RgComponent Float R
    new_button_component id text max_w max_h =
        button (record {
          bounds = no_bounds;
          id = id;
          text = text;
          max_width = max_w;
          max_height = max_h;
        })

    abbrev pub new_text_box_component : Bytes → R → ℕ → RgComponent Float R
    new_text_box_component id text max_chars = text_box (record {
      bounds = no_bounds;
      id = id;
      text = text;
      max_chars = max_chars;
      edit_mode = false;
    })

    abbrev pub new_pot_display_component : ℤ → ℤ → ℤ → RgComponent Float R
    new_pot_display_component pot round_bet chips =
        pot_display
          (record { bounds = no_bounds; pot = pot; round_bet = round_bet; my_chips = chips })

    abbrev pub new_panel_component : Color → RgComponent Float R → RgComponent Float R
    new_panel_component = panel no_bounds

    abbrev pub new_center_component : RgComponent Float R → RgComponent Float R
    new_center_component = center no_bounds

    abbrev pub new_bounds_box : Float → Float → RgComponent Float R → RgComponent Float R
    new_bounds_box = bounds_box no_bounds

    -- `NewHStack` and `NewVStack`
    abbrev pub new_stack : Float → Stack Float R
    new_stack = stack no_bounds end

    -- The calls of `AddChild`, in order.
    unfoldable pub add_children : Stack Float R → List (RgComponent Float R) → Stack Float R
    unfolding add_child
    add_children s [] = s
    add_children s (c ∷ cs) = add_children (add_child s c) cs

    -- `NewPlayerInfoComponent`, with its `AddDesc` and `AddCard`.
    abbrev pub new_player_info_component :
        Bool → List (RgComponent Float R) → List (RgComponent Float R) → RgComponent Float R
    new_player_info_component is_my_turn desc cards =
        player_info no_bounds is_my_turn (add_children (new_stack (of_int 2)) desc)
          (add_children (new_stack (of_int 2)) cards)
