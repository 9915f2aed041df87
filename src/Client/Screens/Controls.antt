-- ===== src/Client/Screens/Controls.antt =====
-- The controls of the game screen: those of the action bar, since cards and players are no controls.
use kiv_ups.Prelude.{
  ◌≤◌, ◌≡◌, refl, sym, ap, ◌∙◌, Bool, true, false, List, [], ◌∷◌, ◌++◌, append_assoc, append-nil,
  if◌then◌else◌, length, arith, Bytes,
}
use kiv_ups.Window.Geometry.{Float32, Color, ray_white, gold}
use kiv_ups.Window.Component.{
  RgComponent, Stack, stack, Components, end, child, append_child, add_child,
}
use kiv_ups.Window.Build.{new_stack, add_children}
use kiv_ups.Window.Draw.Events.{controls, stack_controls, children_controls, maybe_controls}
use kiv_ups.GoLib.Sort.{sort, string_order}
use kiv_ups.Client.Map.{Map, lookup}
use kiv_ups.Client.Data.{Card, PlayerData, GameState}
use kiv_ups.Client.Effects.{or_zero}
use kiv_ups.Client.Screens.Game.{
  build_card_component, build_hidden_card_component, river_cards, hand_cards, status_line,
  player_lines, other_names, other_players, bet_stack, turn_buttons, action_buttons,
  build_game_screen,
}

-- The controls of components side by side.
unfoldable pub list_controls : {X R : Type 0} → List (RgComponent X R) → List Bytes
unfolding controls
list_controls [] = []
list_controls (c ∷ cs) = controls c ++ list_controls cs

pub list_controls-append :
    {X R : Type 0} (cs ds : List (RgComponent X R))
    → list_controls (cs ++ ds) ≡ list_controls cs ++ list_controls ds
unfolding list_controls
list_controls-append [] ds = refl
list_controls-append (c ∷ cs) ds =
    ap (◌++◌ (controls c)) (list_controls-append cs ds)
    ∙ sym (append_assoc (controls c) (list_controls cs) (list_controls ds))

children_controls-append_child :
    {X R : Type 0} (cs : Components X R) (c : RgComponent X R)
    → children_controls (append_child cs c) ≡ children_controls cs ++ controls c
unfolding children_controls append_child
children_controls-append_child end c = append-nil (controls c)
children_controls-append_child (child d ds) c =
    ap (◌++◌ (controls d)) (children_controls-append_child ds c)
    ∙ sym (append_assoc (controls d) (children_controls ds) (controls c))

stack_controls-add_child :
    {X R : Type 0} (s : Stack X R) (c : RgComponent X R)
    → stack_controls (add_child s c) ≡ stack_controls s ++ controls c
unfolding stack_controls add_child
stack_controls-add_child (stack b cs padding) c = children_controls-append_child cs c

module _ (F : Float32) where
  open F use {Float}

  stack_controls-add_children :
      {R : Type 0} (cs : List (RgComponent Float R)) (s : Stack Float R)
      → stack_controls (add_children F s cs) ≡ stack_controls s ++ list_controls cs
  unfolding add_children list_controls
  stack_controls-add_children [] s = sym (append-nil (stack_controls s))
  stack_controls-add_children (c ∷ cs) s =
      stack_controls-add_children cs (add_child s c)
      ∙ ap (λ ids. ids ++ list_controls cs) (stack_controls-add_child s c)
      ∙ append_assoc (stack_controls s) (controls c) (list_controls cs)

  -- The controls of a stack, from its children.
  stack_controls-new_stack :
      {R : Type 0} (padding : Float) (cs : List (RgComponent Float R))
      → stack_controls (add_children F (new_stack F padding) cs) ≡ list_controls cs
  unfolding stack_controls children_controls
  stack_controls-new_stack padding cs = stack_controls-add_children cs (new_stack F padding)

  river_cards_plain : (cards : List Card) → list_controls (river_cards F cards) ≡ []
  unfolding river_cards build_card_component list_controls controls
  river_cards_plain [] = refl
  river_cards_plain (card ∷ cards) = river_cards_plain cards

  hand_card_plain :
      (hidden : Bool) (shown : Bytes) (color : Color)
      → controls
          (if hidden then build_hidden_card_component F else build_card_component F shown color)
        ≡ []
  unfolding build_card_component build_hidden_card_component controls
  hand_card_plain true shown color = refl
  hand_card_plain false shown color = refl

  hand_cards_plain :
      (color : Color) (cards : List Card) → list_controls (hand_cards F color cards) ≡ []
  unfolding hand_cards list_controls
  hand_cards_plain color [] = refl
  hand_cards_plain color (card ∷ cards) =
      ap (λ ids. ids ++ list_controls (hand_cards F color cards))
        (hand_card_plain card.hidden card.symbol color)
      ∙ hand_cards_plain color cards

  status_line_plain : (player : PlayerData) → list_controls (status_line F player) ≡ []
  unfolding status_line list_controls controls
  status_line_plain player = ground arith

  player_lines_plain :
      (name : Bytes) (player : PlayerData) → list_controls (player_lines F name player) ≡ []
  unfolding player_lines list_controls controls
  player_lines_plain name player = ground (arith, status_line_plain player)

  other_players_plain :
      (players : Map PlayerData) (names : List Bytes)
      → list_controls (other_players F players names) ≡ []
  unfolding other_players list_controls controls
  other_players_plain players [] = refl
  other_players_plain players (name ∷ names) =
      let player = or_zero (lookup name players) in
      rw
        (
          stack_controls-new_stack _ (hand_cards F ray_white player.cards),
          hand_cards_plain ray_white player.cards,
          stack_controls-new_stack _ (player_lines F name player),
          player_lines_plain name player,
        )
        (other_players_plain players names)

  -- The controls of the game screen are the buttons and the text box of the action bar.
  pub controls-build_game_screen :
      (visited : List Bytes) (state : GameState)
      → controls (build_game_screen F visited state)
        ≡ list_controls
            (action_buttons F (or_zero (lookup state.nickname state.table.players)) state)
  unfolding build_game_screen controls maybe_controls
  controls-build_game_screen visited state =
      let my_data = or_zero (lookup state.nickname state.table.players) in
      rw
        (
          stack_controls-new_stack _ (river_cards F state.table.community_cards),
          river_cards_plain state.table.community_cards,
          stack_controls-new_stack _ (hand_cards F gold my_data.cards),
          hand_cards_plain gold my_data.cards,
          stack_controls-new_stack _ (
              other_players F state.table.players
                (sort string_order (other_names state.nickname visited))),
          other_players_plain state.table.players
              (sort string_order (other_names state.nickname visited)),
        )
        (stack_controls-new_stack _ (action_buttons F my_data state))

  -- The game screen has seven controls at most.
  pub action_buttons_few :
      (my_data : PlayerData) (state : GameState)
      → length (list_controls (action_buttons F my_data state)) ≤ 7
  unfolding action_buttons turn_buttons list_controls controls bet_stack stack_controls
      children_controls add_children add_child append_child
  action_buttons_few my_data state = ground arith
