-- ===== src/Client/Ui/Actions.antt =====
-- What the buttons of the game screen ask for, and what the game state makes of it.
use kiv_ups.Prelude.{
  ◌≡◌, refl, sym, subst, ap, ◌∙◌, Bool, true, false, not, ◌&&◌, ◌⊎◌, inl, inr, Option, none, some,
  List, [], ◌∷◌, ◌++◌, if◌then◌else◌, Bytes, codes, same, arith, All,
}
use kiv_ups.Prelude.Int.{ℤ, pos, is_zero, ltb_ℤ}
use kiv_ups.GoLib.{FloatOps}
use kiv_ups.Window.Geometry.{Float32}
use kiv_ups.Window.Component.{ButtonComponent, button, append_child, add_child}
use kiv_ups.Window.Build.{add_children}
use kiv_ups.Window.Draw.Events.{controls, stack_controls, children_controls}
use kiv_ups.Client.Map.{lookup}
use kiv_ups.Client.Data.{PlayerData, ProgCtx, evt_game_action}
use kiv_ups.Client.Effects.{or_zero, player}
use kiv_ups.Client.Screens.{Screen}
use kiv_ups.Client.Screens.Game.{bet_stack, turn_buttons, action_buttons, build_game_screen}
use kiv_ups.Client.Screens.Controls.{
  list_controls, list_controls-append, controls-build_game_screen,
}
use kiv_ups.Client.Validate.{validate_game_action, validate_player, validate_turn}
use kiv_ups.Client.Ui.{send_input, source_of, handle_source, handle_ui_event}

-- An event of this control sends an action without an amount that `validateGameAction` lets pass.
abbrev pub IsAllowed : FloatOps → ProgCtx → Bytes → Type 0
IsAllowed F ctx id =
    (action : Bytes) × (handle_ui_event F id ctx ≡ send_input (evt_game_action action []) ctx)
    × (validate_game_action action [] ctx ≡ (ctx, true))

-- The button and the text box of a bet, or such a control.
abbrev pub IsOffered : FloatOps → ProgCtx → Bytes → Type 0
IsOffered F ctx id = ((id ≡ codes "Game_Bet") ⊎ (id ≡ codes "Game_BetAmount")) ⊎ IsAllowed F ctx id

positive_not_zero : (z : ℤ) → ltb_ℤ (pos 0) z ≡ true → is_zero z ≡ false
positive_not_zero z h = ground arith

first_of : (a b : Bool) → (a && b) ≡ true → a ≡ true
first_of true b h = refl
first_of false b h = h

module _ (F : FloatOps) (ctx : ProgCtx) where
  ready_case : IsAllowed F ctx (codes "Game_Ready")
  unfolding handle_ui_event source_of handle_source same validate_game_action
  ready_case = (codes "RDY1", refl, refl)

  leave_case : IsAllowed F ctx (codes "Game_Leave")
  unfolding handle_ui_event source_of handle_source same validate_game_action
  leave_case = (codes "GMLV", refl, refl)

  ok_case : ctx.state.showdown ≡ true → IsAllowed F ctx (codes "Game_ShowOK")
  unfolding handle_ui_event source_of handle_source same validate_game_action
  ok_case h = (codes "SDOK", refl, ap (λ b. (ctx, b)) h)

  module _ (turn : (player ctx.state.nickname ctx).is_my_turn ≡ true) where
    turn_reached :
        (found : Option PlayerData) (action amount : Bytes)
        → (or_zero found).is_my_turn ≡ true
        → (my_data : PlayerData) × (validate_player found action amount ctx
            ≡ validate_turn action amount my_data ctx)
    unfolding validate_player
    turn_reached none action amount h = cc
    turn_reached (some my_data) action amount h = (my_data, rw h refl)

    check_case : IsAllowed F ctx (codes "Game_Check")
    unfolding handle_ui_event source_of handle_source same validate_game_action validate_turn
    check_case = (
      codes "CHCK",
      refl,
      (turn_reached (lookup ctx.state.nickname ctx.state.table.players) (codes "CHCK") [] turn).1,
    )

    fold_case : IsAllowed F ctx (codes "Game_Fold")
    unfolding handle_ui_event source_of handle_source same validate_game_action validate_turn
    fold_case = (
      codes "FOLD",
      refl,
      (turn_reached (lookup ctx.state.nickname ctx.state.table.players) (codes "FOLD") [] turn).1,
    )

    call_case : ltb_ℤ (pos 0) ctx.state.table.high_bet ≡ true → IsAllowed F ctx (codes "Game_Call")
    unfolding handle_ui_event source_of handle_source same validate_game_action validate_turn
    call_case h = (
      codes "CALL",
      refl,
      (turn_reached (lookup ctx.state.nickname ctx.state.table.players) (codes "CALL") [] turn).1
          ∙ rw (positive_not_zero ctx.state.table.high_bet h) refl,
    )

  abbrev Offered : List Bytes → Type 0
  Offered = All (IsOffered F ctx)

  Offered-append : (is js : List Bytes) → Offered is → Offered js → Offered (is ++ js)
  Offered-append [] js h k = k
  Offered-append (i ∷ is) js (h, hs) k = (h, Offered-append is js hs k)

  module _ (G : Float32) where
    -- Components side by side whose controls are all offered.
    abbrev OfferedBy : List (Screen G) → Type 0
    OfferedBy cs = Offered (list_controls cs)

    OfferedBy-append :
        (cs ds : List (Screen G)) → OfferedBy cs → OfferedBy ds → OfferedBy (cs ++ ds)
    OfferedBy-append cs ds h k =
        subst Offered (sym (list_controls-append cs ds))
          (Offered-append (list_controls cs) (list_controls ds) h k)

    OfferedBy-if :
        (b : Bool) (cs ds : List (Screen G))
        → (b ≡ true → OfferedBy cs)
        → (b ≡ false → OfferedBy ds)
        → OfferedBy (if b then cs else ds)
    OfferedBy-if true cs ds h k = h refl
    OfferedBy-if false cs ds h k = k refl

    none_offered : OfferedBy []
    unfolding list_controls
    none_offered = tt

    button_offered :
        (b : ButtonComponent G.Float) (cs : List (Screen G))
        → IsOffered F ctx b.id
        → OfferedBy cs
        → OfferedBy (button b ∷ cs)
    unfolding list_controls controls
    button_offered b cs h hs = (h, hs)

    bet_stack_offered : OfferedBy (bet_stack G ∷ [])
    unfolding list_controls controls bet_stack stack_controls children_controls add_children
        add_child append_child
    bet_stack_offered = (inl (inl refl), (inl (inr refl), tt))

    turn_buttons_offered :
        (player ctx.state.nickname ctx).is_my_turn ≡ true
        → OfferedBy (turn_buttons G ctx.state.table)
    unfolding turn_buttons
    turn_buttons_offered turn =
        let high_bet = ctx.state.table.high_bet in
        OfferedBy-append _ _
          (OfferedBy-if (is_zero high_bet) _ []
            (λ h. button_offered _ _ (inr (check_case turn)) bet_stack_offered) (λ h. none_offered))
          (OfferedBy-append _ _
            (OfferedBy-if (ltb_ℤ (pos 0) high_bet) _ []
              (λ h. button_offered _ _ (inr (call_case turn h)) none_offered) (λ h. none_offered))
            (button_offered _ _ (inr (fold_case turn)) none_offered))

    action_buttons_offered : OfferedBy (action_buttons G (player ctx.state.nickname ctx) ctx.state)
    unfolding action_buttons
    action_buttons_offered =
        let my_data = player ctx.state.nickname ctx in
        OfferedBy-append _ _
          (OfferedBy-if (not my_data.is_ready) _ []
            (λ h. button_offered _ _ (inr ready_case) none_offered) (λ h. none_offered))
          (OfferedBy-append _ _
            (OfferedBy-if ctx.state.showdown _ _
              (λ h. button_offered _ _ (inr (ok_case h)) none_offered)
              (λ h.
                OfferedBy-if (my_data.is_my_turn && not my_data.is_folded) _ []
                  (λ k. turn_buttons_offered (first_of my_data.is_my_turn _ k))
                  (λ k. none_offered)))
            (button_offered _ _ (inr leave_case) none_offered))

    -- Of every control of the game screen but the button and the text box of a bet, the event sends
    -- an action without an amount, and the validation of the game state lets it pass at once, with
    -- the context that the screen was built from.
    pub build_game_screen-IsOffered :
        (visited : List Bytes)
        → All (IsOffered F ctx) (controls (build_game_screen G visited ctx.state))
    build_game_screen-IsOffered visited =
        subst Offered (sym (controls-build_game_screen G visited ctx.state)) action_buttons_offered
