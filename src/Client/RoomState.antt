-- ===== src/Client/RoomState.antt =====
-- `deserializeRoomState`, `handleRoomData` and `deserializeRoom` of StateMachine.go. An error is the
-- text that `errors.Join` makes.
pub mod Listing
use kiv_ups.Prelude.{
  ℕ, zero, suc, ◌+◌, Bool, true, false, ◌&&◌, List, [], ◌∷◌, ◌++◌, Option, none, some,
  if◌then◌else◌, Bytes, codes, same, replicate,
}
use kiv_ups.Prelude.Int.{ℤ, pos, negsuc}
use kiv_ups.GoLib.{FloatOps}
use kiv_ups.GoLib.Panic.{Outcome, returned, panic, slice_from, ◌>>=◌}
use kiv_ups.Serde.Fields.{read_small_int, read_big_int, read_string}
use kiv_ups.Serde.NetMsg.{NetMsg}
use kiv_ups.Serde.Message.{ParseType, small_int, var_int, Any, parse_message}
use kiv_ups.Client.Map.{insert_int}
use kiv_ups.Client.Data.{Card, ProgCtx, Room}
use kiv_ups.Client.Effects.{on_table, on_state, set_player}
use kiv_ups.Client.Cards.{open_card}
use kiv_ups.Client.Values.{int_at, is_one, rounds}
use kiv_ups.Client.Payloads.{player_types, player_of}

abbrev pub read_types : List ParseType
read_types = var_int ∷ var_int ∷ small_int ∷ small_int ∷ small_int ∷ small_int ∷ []

-- `errors.Join(err, fmt.Errorf(text))`
abbrev join_errors : Bytes → Bytes → Bytes
join_errors err text = err ++ (b'\n' ∷ text)

-- `make([]T, z)`, which panics on a negative length.
abbrev pub make_length : ℤ → Outcome ℕ
make_length (pos n) = returned n
make_length (negsuc n) = panic

-- The community cards: the first `n` values from `index` on.
unfoldable pub append_cards : List Any → ℕ → ℕ → List Card → Outcome (List Card)
append_cards res index zero cards = returned cards
append_cards res index (suc n) cards = do
  id ← int_at res index
  append_cards res (suc index) n (cards ++ open_card id ∷ [])

-- The context, and the error if there is one.
abbrev pub Loaded : Type 0
Loaded = ProgCtx × Option Bytes

-- The loop over the players; the cards dealt are those of the client's own player.
unfoldable pub read_players : FloatOps → ℕ → Bytes → Bool → ℤ → ℤ → ProgCtx → Outcome Loaded
read_players F zero next_payload cards_dealt card_1 card_2 ctx = returned (ctx, none)
read_players F (suc n) next_payload cards_dealt card_1 card_2 ctx = do
  (res, consumed, err) ← parse_message F next_payload player_types
  elim err [
    | some e ↦ returned (ctx, some (join_errors e (codes "Error occured during reading player")))
    | none ↦ do
      rest ← slice_from next_payload consumed
      (nick, info) ← player_of res
      let dealt =
          if same nick ctx.state.nickname && cards_dealt
          then record info { cards = open_card card_1 ∷ open_card card_2 ∷ [] }
          else info
      read_players F n rest cards_dealt card_1 card_2 (set_player nick dealt ctx)
  ]

-- From the second parse on, with the values of the first.
unfoldable pub read_cards : FloatOps → Bytes → List Any → ProgCtx → Outcome Loaded
unfolding append_cards read_players
read_cards F next_payload head ctx = do
  pot ← int_at head 0
  high_bet ← int_at head 1
  dealt ← int_at head 2
  card_1 ← int_at head 3
  card_2 ← int_at head 4
  comm_count ← int_at head 5
  let betted = on_table (λ t. record t { pot = pot; high_bet = high_bet }) ctx
  count ← make_length comm_count
  (res, consumed, err) ← parse_message F next_payload (replicate (suc count) small_int)
  elim err [
    | some e ↦ returned (
      betted,
      some (join_errors e (codes "Error occured during reading CommunityCards and PlayerCount")),
    )
    | none ↦ do
      rest ← slice_from next_payload consumed
      cards ← append_cards res 0 count betted.state.table.community_cards
      player_count ← int_at res count
      read_players F (rounds player_count) rest (is_one dealt) card_1 card_2
          (on_table (λ t. record t { community_cards = cards }) betted)
  ]

unfoldable pub deserialize_room_state : FloatOps → Bytes → ProgCtx → Outcome Loaded
unfolding read_cards
deserialize_room_state F payload ctx = do
  let cleared = on_table (λ t. record t { community_cards = [] }) ctx
  (res, consumed, err) ← parse_message F payload read_types
  elim err [
    | some e ↦ returned (cleared, some (join_errors e (codes "Error occured during 1st phase")))
    | none ↦ do rest ← slice_from payload consumed; read_cards F rest res cleared
  ]

abbrev pub err_room : Room
err_room = record {
  id = negsuc 0;
  name = codes "Invalid Room Data";
  current_players = pos 0;
  max_players = pos 0;
}

-- A reader that fails makes the whole room invalid.
abbrev pub or_err_room {ℓ} : {A : Type ℓ} → Option A → (A → Outcome Room) → Outcome Room
or_err_room none next = returned err_room
or_err_room (some a) next = next a

-- `nameLen, _ := ReadBigInt(…)`
abbrev pub length_or_zero : Option ℕ → ℕ
length_or_zero none = 0
length_or_zero (some n) = n

unfoldable pub deserialize_room : Bytes → Outcome Room
deserialize_room payload = do
  read_id ← read_big_int payload
  or_err_room read_id λ id. do
    named ← slice_from payload (pos 4)
    read_name ← read_string named
    or_err_room read_name λ name. do
      again ← slice_from payload (pos 4)
      name_len ← read_big_int again
      let offset = 8 + length_or_zero name_len
      counted ← slice_from payload (pos offset)
      read_curr ← read_small_int counted
      or_err_room read_curr λ curr_players. do
        last ← slice_from payload (pos (offset + 2))
        read_max ← read_small_int last
        or_err_room read_max λ max_players. returned (record {
          id = pos id;
          name = name;
          current_players = pos curr_players;
          max_players = pos max_players;
        })

-- `room.ID == -1`
abbrev pub is_invalid_id : ℤ → Bool
is_invalid_id (negsuc zero) = true
is_invalid_id _ = false

-- The flag says whether the room was valid.
unfoldable pub handle_room_data : NetMsg → ProgCtx → Outcome (ProgCtx × Bool)
unfolding deserialize_room
handle_room_data msg ctx = do
  room ← deserialize_room msg.payload
  if is_invalid_id room.id
      then returned (ctx, false)
      else returned (on_state (λ s. record s { rooms = insert_int room.id room s.rooms }) ctx, true)
