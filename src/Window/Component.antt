-- ===== src/Window/Component.antt =====
-- The types that implement `RGComponent`: a component owns its children, so a screen is a tree. `X`
-- is the type of the floats, and `R` names the strings that text boxes point to. An interface value
-- that may be nil is a `MaybeComponent`.
use kiv_ups.Prelude.{ℕ, suc, Bool, true, false, Bytes}
use kiv_ups.Prelude.Int.{ℤ}
use kiv_ups.Window.Geometry.{Rectangle, Color}

pub record LabelComponent (X : Type 0) : Type 0 where
  pub bounds : Rectangle X
  pub text : Bytes
  pub font_size : ℕ
  pub color : Color

pub record ButtonComponent (X : Type 0) : Type 0 where
  pub bounds : Rectangle X
  pub id : Bytes
  pub text : Bytes
  pub max_width : X
  pub max_height : X

pub record TextBoxComponent (X R : Type 0) : Type 0 where
  pub bounds : Rectangle X
  pub id : Bytes
  pub text : R
  pub max_chars : ℕ
  pub edit_mode : Bool

pub record PotDisplayComponent (X : Type 0) : Type 0 where
  pub bounds : Rectangle X
  pub pot : ℤ
  pub round_bet : ℤ
  pub my_chips : ℤ

mutual
  pub data RgComponent (X R : Type 0) : Type 0 where
    label : LabelComponent X → RgComponent X R
    button : ButtonComponent X → RgComponent X R
    text_box : TextBoxComponent X R → RgComponent X R
    pot_display : PotDisplayComponent X → RgComponent X R
    panel : Rectangle X → Color → RgComponent X R → RgComponent X R
    center : Rectangle X → RgComponent X R → RgComponent X R
    bounds_box : Rectangle X → X → X → RgComponent X R → RgComponent X R
    h_stack v_stack : Stack X R → RgComponent X R
    -- Whether it is the player's turn, `desc` and `cards`.
    player_info : Rectangle X → Bool → Stack X R → Stack X R → RgComponent X R
    -- The embedded `VStack`, the bars of the river, the player, the actions and the other players,
    -- and the pot.
    game_screen :
        Stack X R
        → Stack X R
        → Stack X R
        → Stack X R
        → Stack X R
        → MaybeComponent X R
        → RgComponent X R

  -- The fields of an `HStack` and of a `VStack`.
  pub data Stack (X R : Type 0) : Type 0 where
    stack : Rectangle X → Components X R → X → Stack X R

  pub data Components (X R : Type 0) : Type 0 where
    end : Components X R
    child : RgComponent X R → Components X R → Components X R

  pub data MaybeComponent (X R : Type 0) : Type 0 where
    absent : MaybeComponent X R
    present : RgComponent X R → MaybeComponent X R

module _ {X R : Type 0} where
  -- `append(s.children, c)`
  unfoldable pub append_child : Components X R → RgComponent X R → Components X R
  append_child end c = child c end
  append_child (child d ds) c = child d (append_child ds c)

  unfoldable pub count_children : Components X R → ℕ
  count_children end = 0
  count_children (child d ds) = suc (count_children ds)

  -- `c != nil`
  unfoldable pub has_component : MaybeComponent X R → Bool
  has_component absent = false
  has_component (present c) = true

  -- `HStack.AddChild` and `VStack.AddChild`
  unfoldable pub add_child : Stack X R → RgComponent X R → Stack X R
  unfolding append_child
  add_child (stack b cs padding) c = stack b (append_child cs c) padding

  unfoldable stack_bounds : Stack X R → Rectangle X
  stack_bounds (stack b cs padding) = b

  -- `GetBounds`
  unfoldable pub get_bounds : RgComponent X R → Rectangle X
  unfolding stack_bounds
  get_bounds (label l) = l.bounds
  get_bounds (button b) = b.bounds
  get_bounds (text_box t) = t.bounds
  get_bounds (pot_display p) = p.bounds
  get_bounds (panel b color c) = b
  get_bounds (center b c) = b
  get_bounds (bounds_box b wide high c) = b
  get_bounds (h_stack s) = stack_bounds s
  get_bounds (v_stack s) = stack_bounds s
  get_bounds (player_info b turn desc cards) = b
  get_bounds (game_screen s river hand actions others pot) = stack_bounds s
