-- ===== src/Client/Loop.antt =====
-- `gameThread` of Gamethread.go: the loop that takes an input or an event, hands it to the state and
-- makes the transition. What `select` takes in each round is given as a list.
pub mod Route
pub mod Follows
pub mod Moves
use kiv_ups.Prelude.{Bool, true, false, List, [], ◌∷◌, Option, none, some}
use kiv_ups.GoLib.{FloatOps}
use kiv_ups.GoLib.Panic.{Outcome, returned, panic, ◌>>=◌}
use kiv_ups.Network.{NetEvent, net_shutdown}
use kiv_ups.Client.Data.{ProgCtx, UserInputEvent, evt_quit}
use kiv_ups.Client.Effects.{send_command, mark_dirty}
use kiv_ups.Client.Enter.{enter, exit}
use kiv_ups.Client.Events.{handle_network}
use kiv_ups.Client.Input.{handle_input}
use kiv_ups.Client.Logic.{LogicState, main_menu, Reply}

-- What the `select` statement takes; `idle` is its default case.
pub data Taken : Type 0 where
  input : UserInputEvent → Taken
  net_event : NetEvent → Taken
  idle : Taken

-- The machine: the current state and the context.
abbrev pub Machine : Type 0
Machine = LogicState × ProgCtx

-- "Handle Transition": the state is left, replaced and entered.
unfoldable pub transition : FloatOps → Reply → Machine
transition F (ctx, self, none) = (self, ctx)
transition F (ctx, self, some next) = (next, mark_dirty (enter F next (exit self ctx)))

unfoldable pub take_input : FloatOps → LogicState → UserInputEvent → ProgCtx → Outcome Machine
unfolding transition
take_input F s evt_quit ctx = returned (s, record ctx { should_close = true })
take_input F s event ctx = do reply ← handle_input s event ctx; returned (transition F reply)

unfoldable pub step : FloatOps → Machine → Taken → Outcome Machine
unfolding take_input
step F (s, ctx) (input event) = take_input F s event ctx
step F (s, ctx) (net_event event) = do
  reply ← handle_network F s event ctx
  returned (transition F reply)
step F (s, ctx) idle = returned (s, ctx)

-- What follows the loop.
abbrev pub shut_down : Machine → Machine
shut_down (s, ctx) = (s, send_command net_shutdown ctx)

-- The loop, as far as the list goes, and the shutdown behind it once the context says so.
unfoldable pub run : FloatOps → Machine → List Taken → Outcome Machine
unfolding step
run F (s, ctx) [] =
    returned (elim ctx.should_close [ true ↦ shut_down (s, ctx) | false ↦ (s, ctx) ])
run F (s, ctx) (t ∷ ts) = elim ctx.should_close [
  | true ↦ returned (shut_down (s, ctx))
  | false ↦ do machine ← step F (s, ctx) t; run F machine ts
]

unfoldable pub game_thread : FloatOps → ProgCtx → List Taken → Outcome Machine
unfolding run
game_thread F ctx ts = run F (main_menu, enter F main_menu ctx) ts
