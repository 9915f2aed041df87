-- ===== src/Client/Screens/Game.antt =====
-- `buildGameScreen`. `visited` are the keys of the player map in the order in which `range` comes to
-- them, which Go leaves open.
use mathlib.Core.List.{Permᴰ}
use mathlib.Core.List.Permᴰ
use kiv_ups.Prelude.{
  ◌≡◌, refl, Bool, true, false, not, ◌&&◌, List, [], ◌∷◌, ◌++◌, if◌then◌else◌, Bytes, codes, same,
}
use kiv_ups.Prelude.Int.{pos, is_zero, ltb_ℤ}
use kiv_ups.GoLib.Decimal.{format_int}
use kiv_ups.GoLib.Sort.{sort, string_order, sort-Permᴰ}
use kiv_ups.Window.Geometry.{
  Float32, Color, rgba, white, ray_white, black, red, gold, yellow, orange,
}
use kiv_ups.Window.Component.{h_stack, game_screen, present}
use kiv_ups.Window.Build.{
  new_label_component, new_button_component, new_text_box_component, new_pot_display_component,
  new_panel_component, new_center_component, new_player_info_component, new_stack, add_children,
}
use kiv_ups.Client.Map.{Map, lookup}
use kiv_ups.Client.Data.{Card, PlayerData, PokerTable, GameState}
use kiv_ups.Client.Effects.{or_zero}
use kiv_ups.Client.Screens.{bet_amount_ref, Screen}

-- The keys but the own nickname.
unfoldable pub other_names : Bytes → List Bytes → List Bytes
other_names nick [] = []
other_names nick (name ∷ names) =
    let rest = other_names nick names in if same name nick then rest else name ∷ rest

-- An element that is dropped or kept, in front of the same list and in front of two.
keep_one :
    (drops : Bool) (a : Bytes) {xs ys : List Bytes}
    → Permᴰ xs ys
    → Permᴰ (if drops then xs else a ∷ xs) (if drops then ys else a ∷ ys)
keep_one true a p = p
keep_one false a p = Permᴰ.cons refl p

keep_two :
    (drops_a drops_b : Bool) (a b : Bytes) (xs : List Bytes)
    → Permᴰ
        (if drops_a then if drops_b then xs else b ∷ xs else a ∷ (if drops_b then xs else b ∷ xs))
        (if drops_b then if drops_a then xs else a ∷ xs else b ∷ (if drops_a then xs else a ∷ xs))
keep_two true true a b xs = Permᴰ.refl xs
keep_two true false a b xs = Permᴰ.refl (b ∷ xs)
keep_two false true a b xs = Permᴰ.refl (a ∷ xs)
keep_two false false a b xs = Permᴰ.swap refl refl

other_names-Permᴰ :
    (nick : Bytes) {visited again : List Bytes}
    → Permᴰ visited again
    → Permᴰ (other_names nick visited) (other_names nick again)
unfolding other_names
other_names-Permᴰ nick Permᴰ.nil = Permᴰ.nil
other_names-Permᴰ nick (Permᴰ.cons {a = a} {b = b} e p) =
    rw e (keep_one (same b nick) b (other_names-Permᴰ nick p))
other_names-Permᴰ nick (Permᴰ.swap {a = a} {b = b} {l = names} e k) =
    rw (← e, ← k) (keep_two (same a nick) (same b nick) a b (other_names nick names))
other_names-Permᴰ nick (Permᴰ.trans p q) =
    Permᴰ.trans (other_names-Permᴰ nick p) (other_names-Permᴰ nick q)

module _ (F : Float32) where
  open F use {of_int}

  unfoldable pub build_card_component : Bytes → Color → Screen F
  build_card_component text color =
      new_panel_component F color (new_center_component F (new_label_component F text 20 black))

  unfoldable pub build_hidden_card_component : Screen F
  build_hidden_card_component =
      new_panel_component F red
        (new_center_component F (new_label_component F (codes "??") 20 white))

  unfoldable pub river_cards : List Card → List (Screen F)
  unfolding build_card_component
  river_cards [] = []
  river_cards (card ∷ cards) = build_card_component card.symbol ray_white ∷ river_cards cards

  -- The cards of a player, the shown ones in this colour.
  unfoldable pub hand_cards : Color → List Card → List (Screen F)
  unfolding build_card_component build_hidden_card_component
  hand_cards color [] = []
  hand_cards color (card ∷ cards) =
      (if card.hidden then build_hidden_card_component else build_card_component card.symbol color)
      ∷ hand_cards color cards

  abbrev line : Bytes → Color → Screen F
  line text = new_label_component F text 12

  unfoldable pub status_line : PlayerData → List (Screen F)
  status_line player =
      if not (same player.action_taken (codes "NONE"))
      then line (player.action_taken ++ codes " " ++ format_int player.action_amount) white ∷ []
      else if player.is_folded
      then line (codes "Folded") white ∷ []
      else if player.is_ready
      then line (codes "Ready") white ∷ []
      else []

  unfoldable pub player_lines : Bytes → PlayerData → List (Screen F)
  unfolding status_line
  player_lines name player =
      line name white
        ∷ line (codes "Chips: " ++ format_int player.chip_count) yellow
        ∷ (if ltb_ℤ (pos 0) player.total_bet
            then line (codes "Total Bet: " ++ format_int player.total_bet) orange ∷ []
            else [])
      ++ status_line player

  -- The loop over the sorted names.
  unfoldable pub other_players : Map PlayerData → List Bytes → List (Screen F)
  unfolding lookup player_lines hand_cards
  other_players players [] = []
  other_players players (name ∷ names) =
      let player = or_zero (lookup name players) in
      new_player_info_component F player.is_my_turn (player_lines name player)
        (hand_cards ray_white player.cards)
      ∷ other_players players names

  abbrev game_button : Bytes → Bytes → Screen F
  game_button id text = new_button_component F id text (of_int 100) (of_int 50)

  unfoldable pub bet_stack : Screen F
  unfolding add_children
  bet_stack = h_stack (
      add_children F (new_stack F (of_int 0)) (
        game_button (codes "Game_Bet") (codes "Bet")
        ∷ new_text_box_component F (codes "Game_BetAmount") bet_amount_ref 6
        ∷ []))

  -- The buttons for the own turn.
  unfoldable pub turn_buttons : PokerTable → List (Screen F)
  unfolding bet_stack
  turn_buttons table =
      (if is_zero table.high_bet
        then game_button (codes "Game_Check") (codes "Check") ∷ bet_stack ∷ []
        else [])
      ++ ((if ltb_ℤ (pos 0) table.high_bet
            then game_button (codes "Game_Call") (codes "Call " ++ format_int table.high_bet) ∷ []
            else [])
          ++ game_button (codes "Game_Fold") (codes "Fold") ∷ [])

  -- The buttons of the action bar, for the own data.
  unfoldable pub action_buttons : PlayerData → GameState → List (Screen F)
  unfolding turn_buttons
  action_buttons my_data state =
      (if not my_data.is_ready then game_button (codes "Game_Ready") (codes "Ready") ∷ [] else [])
      ++ ((if state.showdown
            then game_button (codes "Game_ShowOK") (codes "OK") ∷ []
            else if my_data.is_my_turn && not my_data.is_folded
            then turn_buttons state.table
            else [])
          ++ game_button (codes "Game_Leave") (codes "Leave") ∷ [])

  unfoldable pub build_game_screen : List Bytes → GameState → Screen F
  unfolding other_names sort river_cards other_players lookup hand_cards action_buttons add_children
  build_game_screen visited state =
      let names = sort string_order (other_names state.nickname visited) in
      let my_data = or_zero (lookup state.nickname state.table.players) in
      let bar = new_stack F (of_int 10) in
      new_panel_component F (rgba 20 80 40 255) (
        game_screen bar (add_children F bar (river_cards state.table.community_cards))
          (add_children F bar (hand_cards gold my_data.cards))
          (add_children F bar (action_buttons my_data state))
          (add_children F bar (other_players state.table.players names))
          (present
            (new_pot_display_component F state.table.pot state.table.high_bet my_data.chip_count)))

  -- The game screen does not depend on the order in which Go visits the map of the players.
  pub build_game_screen-Permᴰ :
      (state : GameState) {visited again : List Bytes}
      → Permᴰ visited again
      → build_game_screen visited state ≡ build_game_screen again state
  unfolding build_game_screen
  build_game_screen-Permᴰ state p =
      rw (sort-Permᴰ string_order (other_names-Permᴰ state.nickname p)) refl
