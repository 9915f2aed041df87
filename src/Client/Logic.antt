-- ===== src/Client/Logic.antt =====
-- The states of the client's state machine (the types that implement `LogicState` in
-- StateMachine.go), what they remember, and the message codes that they switch on.
use kiv_ups.Prelude.{Bool, [], ◌∷◌, Option, none, some, Bytes, codes}
use kiv_ups.Prelude.Int.{ℤ}
use kiv_ups.GoLib.Panic.{Outcome, returned}
use kiv_ups.Client.Map.{Map, lookup}
use kiv_ups.Client.Data.{ProgCtx}

-- `GameAction`
pub data GameAction : Type 0 where
  bet_action call_action : ℤ → GameAction
  check_action fold_action ready_action : GameAction

pub data LogicState : Type 0 where
  main_menu sending_info requesting_rooms lobby joining_room : LogicState
  connecting : Bool → LogicState
  in_game : Option GameAction → LogicState

-- What a handler leaves: the context, the state itself, which `StateInGame` writes to, and the next
-- state, if it is not nil.
abbrev pub Reply : Type 0
Reply = ProgCtx × LogicState × Option LogicState

abbrev pub stay : LogicState → ProgCtx → Outcome Reply
stay s ctx = returned (ctx, s, none)

abbrev pub goto : LogicState → LogicState → ProgCtx → Outcome Reply
goto next s ctx = returned (ctx, s, some next)

-- The codes that a state handles, and all others.
pub data Code : Type 0 where
  pnok full fail rcon piok room done jnok rmst jnfl : Code
  pjin prdy gmst cdtp gmrd crvr ptrn tout acok acfl nyet pact sdwn glos gwin gmdn : Code
  other : Code

abbrev code_table : Map Code
code_table =
    (codes "PNOK", pnok)
    ∷ (codes "FULL", full)
    ∷ (codes "FAIL", fail)
    ∷ (codes "RCON", rcon)
    ∷ (codes "PIOK", piok)
    ∷ (codes "ROOM", room)
    ∷ (codes "DONE", done)
    ∷ (codes "JNOK", jnok)
    ∷ (codes "RMST", rmst)
    ∷ (codes "JNFL", jnfl)
    ∷ (codes "PJIN", pjin)
    ∷ (codes "PRDY", prdy)
    ∷ (codes "GMST", gmst)
    ∷ (codes "CDTP", cdtp)
    ∷ (codes "GMRD", gmrd)
    ∷ (codes "CRVR", crvr)
    ∷ (codes "PTRN", ptrn)
    ∷ (codes "TOUT", tout)
    ∷ (codes "ACOK", acok)
    ∷ (codes "ACFL", acfl)
    ∷ (codes "NYET", nyet)
    ∷ (codes "PACT", pact)
    ∷ (codes "SDWN", sdwn)
    ∷ (codes "GLOS", glos)
    ∷ (codes "GWIN", gwin)
    ∷ (codes "GMDN", gmdn)
    ∷ []

unfoldable pub code_of : Bytes → Code
unfolding lookup
code_of text = elim (lookup text code_table) [ none ↦ other | some c ↦ c ]
