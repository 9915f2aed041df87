-- ===== src/Client/Loop/Moves.antt =====
-- Every step of `gameThread` keeps the state or takes an edge of the graph.
use kiv_ups.Client.Events.{
  menu_network, connecting_network, sending_network, requesting_network, lobby_network,
  joining_network, game_network,
}
use kiv_ups.Prelude.{
  ◌≡◌, refl, ◌⊎◌, inl, inr, true, false, List, [], ◌∷◌, Option, none, some, sym, subst, ap, ◌∙◌,
  ◌++◌, Bool-cases,
}
use kiv_ups.GoLib.{FloatOps}
use kiv_ups.GoLib.Panic.{Outcome, returned, panic, ◌>>=◌}
use kiv_ups.Network.{net_disconnected}
use kiv_ups.Client.Data.{ProgCtx, UserInputEvent, evt_quit}
use kiv_ups.Client.Events.{game_event, handle_network}
use kiv_ups.Client.Input.{handle_input}
use kiv_ups.Client.Logic.{
  GameAction, LogicState, main_menu, sending_info, requesting_rooms, lobby, joining_room,
  connecting, in_game, Reply,
}
use kiv_ups.Client.Loop.{
  Taken, input, net_event, idle, Machine, transition, take_input, step, shut_down, run,
}
use kiv_ups.Client.Loop.Route.{Kind, kind, k_game, k_joining, Edge, joined, Replies, Follows}
use kiv_ups.Client.Loop.Follows.{Follows-network, Follows-input}

-- The state is of the same kind, or an edge leads to it.
abbrev pub Moves : LogicState → LogicState → Type 0
Moves s next = (kind next ≡ kind s) ⊎ Edge (kind s) (kind next)

abbrev MovesAfter : LogicState → Outcome Machine → Type 0
MovesAfter s (returned (next, after)) = Moves s next
MovesAfter s panic = Unit

enters_game : {a : Kind} → Edge a k_game → a ≡ k_joining
enters_game joined = refl

is_joining : (s : LogicState) → (s ≡ joining_room) ⊎ (¬ (kind s ≡ k_joining))
is_joining joining_room = inl refl
is_joining main_menu = inr λ e. cc
is_joining (connecting r) = inr λ e. cc
is_joining sending_info = inr λ e. cc
is_joining requesting_rooms = inr λ e. cc
is_joining lobby = inr λ e. cc
is_joining (in_game last) = inr λ e. cc

-- The outcome is a machine in the game.
abbrev EndsInGame : Outcome Machine → Type 0
EndsInGame (returned (next, after)) = kind next ≡ k_game
EndsInGame panic = ⊥

module _ (F : FloatOps) where
  Moves-transition :
      (s : LogicState) (reply : Reply) → Replies s reply → Moves s (transition F reply).0
  unfolding transition
  Moves-transition s (ctx, self, none) h = inl (h.0)
  Moves-transition s (ctx, self, some next) h = inr (h.1)

  Moves-reply :
      (s : LogicState) (m : Outcome Reply)
      → Follows s m
      → MovesAfter s (m >>= λ reply. returned (transition F reply))
  Moves-reply s (returned reply) h = Moves-transition s reply h
  Moves-reply s panic h = tt

  Moves-input :
      (s : LogicState) (event : UserInputEvent) (ctx : ProgCtx)
      → MovesAfter s (take_input F s event ctx)
  unfolding take_input
  Moves-input s evt_quit ctx = inl refl
  Moves-input s event ctx = Moves-reply s (handle_input s event ctx) (Follows-input s event ctx)

  step-MovesAfter : (s : LogicState) (ctx : ProgCtx) (t : Taken) → MovesAfter s (step F (s, ctx) t)
  unfolding step
  step-MovesAfter s ctx (input event) = Moves-input s event ctx
  step-MovesAfter s ctx idle = inl refl
  step-MovesAfter s ctx (net_event event) =
      Moves-reply s (handle_network F s event ctx) (Follows-network F s event ctx)

  -- Every step of the game thread that does not panic keeps the kind of the state or takes an edge of
  -- the graph.
  pub step-Moves :
      (s : LogicState) (ctx : ProgCtx) (t : Taken) {next : LogicState} {after : ProgCtx}
      → step F (s, ctx) t ≡ returned (next, after)
      → Moves s next
  step-Moves s ctx t e = subst (MovesAfter s) e (step-MovesAfter s ctx t)

  -- A step that does not panic leads to the game only from the game itself and from the state that
  -- joins a room.
  pub step-in_game :
      (s : LogicState) (ctx : ProgCtx) (t : Taken) {last : Option GameAction} {after : ProgCtx}
      → step F (s, ctx) t ≡ returned (in_game last, after)
      → (kind s ≡ k_game) ⊎ (kind s ≡ k_joining)
  step-in_game s ctx t e = elim (step-Moves s ctx t e) [
    | inl same_kind ↦ inl (sym same_kind)
    | inr edge ↦ inr (enters_game edge)
  ]

  run_open :
      (s : LogicState) (ctx : ProgCtx) (t : Taken) (ts : List Taken)
      → ctx.should_close ≡ false
      → run F (s, ctx) (t ∷ ts) ≡ step F (s, ctx) t >>= λ machine. run F machine ts
  unfolding run
  run_open s ctx t ts h =
      ap
        (λ b. elim b [
          | true ↦ returned (shut_down (s, ctx))
          | false ↦ step F (s, ctx) t >>= λ machine. run F machine ts
        ])
        h

  run_closed :
      (s : LogicState) (ctx : ProgCtx) (ts : List Taken)
      → ctx.should_close ≡ true
      → run F (s, ctx) ts ≡ returned (shut_down (s, ctx))
  unfolding run
  run_closed s ctx [] h =
      ap (λ b. returned (elim b [ true ↦ shut_down (s, ctx) | false ↦ (s, ctx) ])) h
  run_closed s ctx (t ∷ ts) h =
      ap
        (λ b. elim b [
          | true ↦ returned (shut_down (s, ctx))
          | false ↦ step F (s, ctx) t >>= λ machine. run F machine ts
        ])
        h

  run_ended :
      (s : LogicState) (ctx : ProgCtx)
      → ctx.should_close ≡ false
      → run F (s, ctx) [] ≡ returned (s, ctx)
  unfolding run
  run_ended s ctx h = ap (λ b. returned (elim b [ true ↦ shut_down (s, ctx) | false ↦ (s, ctx) ])) h

  -- A first part of what is taken leads to the state that joins a room.
  abbrev pub Joins : LogicState → ProgCtx → List Taken → Type 0
  Joins s ctx ts =
      (before : List Taken) × (rest : List Taken) × (mid : ProgCtx) × (ts ≡ before ++ rest)
      × (run F (s, ctx) before ≡ returned (joining_room, mid))

  Joins-prepend :
      (s next : LogicState) (ctx after : ProgCtx) (t : Taken) (ts : List Taken)
      → ctx.should_close ≡ false
      → step F (s, ctx) t ≡ returned (next, after)
      → Joins next after ts
      → Joins s ctx (t ∷ ts)
  Joins-prepend s next ctx after t ts h e (before, rest, mid, split, r) = (
    t ∷ before,
    rest,
    mid,
    ap (λ l. t ∷ l) split,
    run_open s ctx t before h ∙ ap (λ m. m >>= λ machine. run F machine before) e ∙ r,
  )

  -- A step in front of runs that join a room on their way to the game.
  step-Joins :
      (s : LogicState) (ctx : ProgCtx) (t : Taken) (ts : List Taken) (m : Outcome Machine)
      → ctx.should_close ≡ false
      → ¬ (kind s ≡ k_game)
      → ¬ (kind s ≡ k_joining)
      → step F (s, ctx) t ≡ m
      → ((next : LogicState) (after : ProgCtx)
          → ¬ (kind next ≡ k_game)
          → EndsInGame (run F (next, after) ts)
          → Joins next after ts)
      → EndsInGame (m >>= λ machine. run F machine ts)
      → Joins s ctx (t ∷ ts)
  step-Joins s ctx t ts panic running away apart e onward ends = absurd ends
  step-Joins s ctx t ts (returned (next, after)) running away apart e onward ends =
      Joins-prepend s next ctx after t ts running e (
        onward next after
          (λ k. elim (step-Moves s ctx t e) [
            | inl same_kind ↦ away (sym same_kind ∙ k)
            | inr edge ↦ apart (enters_game (subst (λ q. Edge (kind s) q) k edge))
          ])
          ends)

  run-Joins :
      (ts : List Taken) (s : LogicState) (ctx : ProgCtx)
      → ¬ (kind s ≡ k_game)
      → EndsInGame (run F (s, ctx) ts)
      → Joins s ctx ts
  run-Joins [] s ctx away ends = elim (Bool-cases ctx.should_close) [
    | inl closed ↦ absurd (away (subst EndsInGame (run_closed s ctx [] closed) ends))
    | inr running ↦ absurd (away (subst EndsInGame (run_ended s ctx running) ends))
  ]
  run-Joins (t ∷ ts) s ctx away ends = elim (Bool-cases ctx.should_close) [
    | inl closed ↦ absurd (away (subst EndsInGame (run_closed s ctx (t ∷ ts) closed) ends))
    | inr running ↦ elim (is_joining s) [
      | inl there ↦
          ([], t ∷ ts, ctx, refl, run_ended s ctx running ∙ ap (λ q. returned (q, ctx)) there)
      | inr apart ↦
          step-Joins s ctx t ts (step F (s, ctx) t) running away apart refl
            (λ next after. run-Joins ts next after)
            (subst EndsInGame (run_open s ctx t ts running) ends)
    ]
  ]

  -- A run of the game thread that starts outside the game and ends in it, without a panic, has been in
  -- the state that joins a room: a first part of its inputs and events leads there.
  pub run-in_game :
      (s : LogicState) (ctx : ProgCtx) (ts : List Taken) {last : Option GameAction}
      {after : ProgCtx}
      → ¬ (kind s ≡ k_game)
      → run F (s, ctx) ts ≡ returned (in_game last, after)
      → Joins s ctx ts
  run-in_game s ctx ts away e = run-Joins ts s ctx away (subst EndsInGame (sym e) refl)

  -- Whatever the state, a lost connection leads the game thread to the main menu.
  pub step-net_disconnected :
      (s : LogicState) (ctx : ProgCtx)
      → (after : ProgCtx) × (step F (s, ctx) (net_event net_disconnected)
          ≡ returned (main_menu, after))
  unfolding step transition handle_network menu_network connecting_network sending_network
      requesting_network lobby_network joining_network game_network game_event
  step-net_disconnected main_menu ctx = (_, refl)
  step-net_disconnected sending_info ctx = (_, refl)
  step-net_disconnected requesting_rooms ctx = (_, refl)
  step-net_disconnected lobby ctx = (_, refl)
  step-net_disconnected joining_room ctx = (_, refl)
  step-net_disconnected (connecting r) ctx = (_, refl)
  step-net_disconnected (in_game last) ctx = (_, refl)
