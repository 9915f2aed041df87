-- ===== src/Window/Draw.antt =====
-- The methods `Draw`, as far as they change something: the events of clicked buttons and changed text
-- boxes, the strings behind the text boxes, and which text box is edited. The event channel of a
-- frame is read only after all is drawn, so a send to the full channel blocks for ever: no result.
-- The input of a frame, as raylib and raygui answer it, and the strings are arguments.
pub mod Events
pub mod Total
use kiv_ups.Prelude.{
  ℕ, Bool, Option, none, some, List, [], ◌∷◌, ◌++◌, if◌then◌else◌, ltb, length, Bytes,
}
use kiv_ups.Window.Geometry.{Rectangle}
use kiv_ups.Window.Component.{
  ButtonComponent, TextBoxComponent, RgComponent, label, button, text_box, pot_display, panel,
  center, bounds_box, h_stack, v_stack, player_info, game_screen, Stack, stack, Components, end,
  child, MaybeComponent, absent, present,
}

pub data EventType : Type 0 where
  event_click event_value_change : EventType

pub record UiEvent : Type 0 where
  pub source_id : Bytes
  pub event_type : EventType

-- What the library answers within one frame: `rg.Button`, `rl.IsMouseButtonPressed` of the left
-- button, `rl.CheckCollisionPointRec` of the mouse, and `rg.TextBox` with the text it leaves.
pub record Input (X : Type 0) : Type 0 where
  pub clicked : Rectangle X → Bytes → Bool
  pub mouse_pressed : Bool
  pub mouse_in : Rectangle X → Bool
  pub edited : Rectangle X → Bytes → ℕ → Bool → Bytes × Bool

-- The strings that text boxes point to, in a store of type `S`.
pub record Strings (R S : Type 0) : Type 0 where
  pub load : R → S → Bytes
  pub save : R → Bytes → S → S

-- `make(chan w.UIEvent, 10)`
abbrev pub event_chan_size : ℕ
event_chan_size = 10

-- A value that drawing leaves, with the store and the events in the channel.
abbrev pub Drawing : Type 0 → Type 0 → Type 0
Drawing S A = Option (A × (S × List UiEvent))

module _ {S : Type 0} where
  -- `eventChannel <- event`
  unfoldable pub send_event : {A : Type 0} → UiEvent → A → S × List UiEvent → Drawing S A
  send_event event a (s, events) =
      if ltb (length events) event_chan_size then some (a, (s, events ++ event ∷ [])) else none

  unfoldable pub wrap : {A B : Type 0} → (A → B) → Drawing S A → Drawing S B
  wrap f none = none
  wrap f (some (a, k)) = some (f a, k)

  -- One part is drawn, and then another.
  unfoldable pub in_turn :
      {A B : Type 0} → Drawing S A → (S × List UiEvent → Drawing S B) → Drawing S (A × B)
  unfolding wrap
  in_turn none f = none
  in_turn (some (a, k)) f = wrap (λ b. (a, b)) (f k)

module _ {X R S : Type 0} (input : Input X) (strings : Strings R S) where
  unfoldable pub draw_button : ButtonComponent X → S × List UiEvent → Drawing S (RgComponent X R)
  unfolding send_event
  draw_button b k =
      if input.clicked b.bounds b.text
      then send_event (record { source_id = b.id; event_type = event_click }) (button b) k
      else some (button b, k)

  -- What `rg.TextBox` left, and whether it was changed.
  unfoldable pub after_edit :
      TextBoxComponent X R → S × List UiEvent → Bytes × Bool → Drawing S (RgComponent X R)
  unfolding send_event
  after_edit t (s, events) (content, changed) =
      let k : S × List UiEvent = (strings.save t.text content s, events) in
      if changed
      then send_event (record { source_id = t.id; event_type = event_value_change }) (text_box t) k
      else some (text_box t, k)

  unfoldable pub focus : TextBoxComponent X R → TextBoxComponent X R
  focus t = record t {
    edit_mode = if input.mouse_pressed then input.mouse_in t.bounds else t.edit_mode;
  }

  unfoldable pub draw_text_box :
      TextBoxComponent X R → S × List UiEvent → Drawing S (RgComponent X R)
  unfolding after_edit focus
  draw_text_box t (s, events) =
      let shown = focus t in
      after_edit shown (s, events)
        (input.edited t.bounds (strings.load t.text s) t.max_chars shown.edit_mode)

  unfoldable mutual
    unfolding draw_button draw_text_box wrap in_turn

    pub draw : RgComponent X R → S × List UiEvent → Drawing S (RgComponent X R)
    draw (label l) k = some (label l, k)
    draw (button b) k = draw_button b k
    draw (text_box t) k = draw_text_box t k
    draw (pot_display p) k = some (pot_display p, k)
    draw (panel b color c) k = wrap (panel b color) (draw c k)
    draw (center b c) k = wrap (center b) (draw c k)
    draw (bounds_box b wide high c) k = wrap (bounds_box b wide high) (draw c k)
    draw (h_stack s) k = wrap h_stack (draw_stack s k)
    draw (v_stack s) k = wrap v_stack (draw_stack s k)
    draw (player_info b turn desc cards) k =
        wrap (λ p. player_info b turn p.1 p.0) (in_turn (draw_stack cards k) (draw_stack desc))
    draw (game_screen s river hand actions others pot) k =
        wrap (λ p. game_screen s p.1.0 p.1.1.1.0 p.1.1.1.1 p.1.1.0 p.0)
          (in_turn (draw_maybe pot k) λ k1. in_turn (draw_stack river k1) λ k2.
            in_turn (draw_stack others k2) λ k3. in_turn (draw_stack hand k3) (draw_stack actions))

    pub draw_stack : Stack X R → S × List UiEvent → Drawing S (Stack X R)
    draw_stack (stack b cs padding) k = wrap (λ ds. stack b ds padding) (draw_children cs k)

    pub draw_children : Components X R → S × List UiEvent → Drawing S (Components X R)
    draw_children end k = some (end, k)
    draw_children (child c cs) k = wrap (λ p. child p.0 p.1) (in_turn (draw c k) (draw_children cs))

    pub draw_maybe : MaybeComponent X R → S × List UiEvent → Drawing S (MaybeComponent X R)
    draw_maybe absent k = some (absent, k)
    draw_maybe (present c) k = wrap present (draw c k)
