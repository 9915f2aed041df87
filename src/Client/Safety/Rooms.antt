-- ===== src/Client/Safety/Rooms.antt =====
-- When `deserializeRoomState` and `handleRoomData` return without a panic.
use kiv_ups.Prelude.{
  ℕ, zero, suc, ◌+◌, ◌≤◌, ◌<◌, ◌≡◌, refl, Bool, List, [], Option, none, some, arith, Bytes, length,
  drop, length-drop, length-take, >>=-eq-some, get_elem?, replicate, ap, ◌∙◌,
}
use kiv_ups.Prelude.Int.{ℤ, pos}
use kiv_ups.GoLib.{FloatOps}
use kiv_ups.GoLib.Panic.{Outcome, returned, slice_from, slice_from_lem, Returns, Returns->>=, ◌>>=◌}
use kiv_ups.Serde.Message.Safety.{IsReadable}
use kiv_ups.Serde.Fields.Total.{small_int_at, big_int_at}
use kiv_ups.Serde.Fields.Total.{
  string_behind, read_string-returned, read_small_int-returned, read_big_int-returned,
}
use kiv_ups.Serde.Fields.{read_small_int}
use kiv_ups.Serde.Fields.Bounds.{small_int_at_bounds, big_int_at_bounds, string_behind_bounds}
use kiv_ups.Serde.NetMsg.{NetMsg}
use kiv_ups.Serde.Message.{small_int, var_int, Any}
use kiv_ups.Serde.Message.Safety.{Typed}
use kiv_ups.Client.Data.{ProgCtx, Card, Room}
use kiv_ups.Client.Effects.{on_table}
use kiv_ups.Client.Payloads.{player_types, player_of}
use kiv_ups.Client.RoomState.{
  read_types, or_err_room, is_invalid_id, append_cards, read_players, read_cards,
  deserialize_room_state, deserialize_room, handle_room_data,
}
use kiv_ups.Client.Safety.Parsing.{
  Returns-parse, Returns-slice, Returns-int, Returns-small, Returns-if, player_of-Returns,
}

get_elem?-replicate {ℓ} :
    {A : Type ℓ} (n i : ℕ) (a : A) → i < n → get_elem? (replicate n a) i ≡ some a
get_elem?-replicate zero i a h = absurd (omega (arith, h))
get_elem?-replicate (suc n) zero a h = refl
get_elem?-replicate (suc n) (suc i) a h = get_elem?-replicate n i a (omega (arith, h))

append_cards-Returns :
    (total : ℕ) (res : List Any) (i n : ℕ) (cards : List Card)
    → Typed (replicate total small_int) res
    → i + n ≤ total
    → Returns (append_cards res i n cards)
unfolding append_cards
append_cards-Returns total res i zero cards h k = tt
append_cards-Returns total res i (suc n) cards h k =
    Returns-small (replicate total small_int) res i h _
      (get_elem?-replicate total i small_int (omega (arith, k)))
      λ id. append_cards-Returns total res (suc i) n _ h (omega (arith, k))

module _ (F : FloatOps) where
  read_players-Returns :
      (n : ℕ) (next_payload : Bytes) (dealt : Bool) (card_1 card_2 : ℤ) (ctx : ProgCtx)
      → IsReadable F next_payload
      → Returns (read_players F n next_payload dealt card_1 card_2 ctx)
  unfolding read_players
  read_players-Returns zero next_payload dealt card_1 card_2 ctx short = tt
  read_players-Returns (suc n) next_payload dealt card_1 card_2 ctx short =
      Returns-parse F next_payload player_types _ short (λ res offset err. tt)
        λ res offset within h. Returns-slice F next_payload offset _ within short λ rest k.
          Returns->>= (player_of res) _ (player_of-Returns res h)
            λ p _. read_players-Returns n rest dealt card_1 card_2 _ k

  read_cards-Returns :
      (next_payload : Bytes) (head : List Any) (ctx : ProgCtx)
      → Typed read_types head
      → IsReadable F next_payload
      → Returns (read_cards F next_payload head ctx)
  unfolding read_cards
  read_cards-Returns next_payload head ctx h short =
      Returns-int read_types head 0 h var_int _ refl tt λ pot.
        Returns-int read_types head 1 h var_int _ refl tt λ high.
          Returns-int read_types head 2 h small_int _ refl tt λ dealt.
            Returns-int read_types head 3 h small_int _ refl tt λ card_1.
              Returns-int read_types head 4 h small_int _ refl tt λ card_2.
                Returns-small read_types head 5 h _ refl λ count.
                  Returns-parse F next_payload (replicate (suc count) small_int) _ short
                    (λ res offset err. tt)
                    λ res offset within typed.
                      Returns-slice F next_payload offset _ within short λ rest k.
                        Returns->>= (append_cards res 0 count _) _
                          (append_cards-Returns (suc count) res 0 count _ typed (omega arith))
                          λ cards _.
                            Returns-small (replicate (suc count) small_int) res count typed _
                              (get_elem?-replicate (suc count) count small_int (omega arith))
                              λ players. read_players-Returns players rest _ card_1 card_2 _ k

  pub deserialize_room_state-Returns :
      (payload : Bytes) (ctx : ProgCtx)
      → IsReadable F payload
      → Returns (deserialize_room_state F payload ctx)
  unfolding deserialize_room_state
  deserialize_room_state-Returns payload ctx short =
      Returns-parse F payload read_types _ short (λ res offset err. tt)
        λ res offset within h. Returns-slice F payload offset _ within short λ rest k.
          read_cards-Returns rest res (on_table (λ t. record t { community_cards = [] }) ctx) h k

-- The length that is read again for the offset is that of the string.
string_behind-length :
    (slice : Bytes) {name : Bytes}
    → string_behind slice ≡ some name
    → big_int_at slice ≡ some (length name)
unfolding string_behind
string_behind-length slice {name} h =
    let (n, e, k) = >>=-eq-some (big_int_at slice) _ h in
    e ∙ ap some (ground (arith, length-take n (drop 4 slice), length-drop 4 slice))

Returns-or_err {ℓ} :
    {A : Type ℓ} (o : Option A) (next : A → Outcome Room)
    → ((a : A) → o ≡ some a → Returns (next a))
    → Returns (or_err_room o next)
Returns-or_err none next h = tt
Returns-or_err (some a) next h = h a refl

Returns-drop {κ} :
    {B : Type κ} (payload : Bytes) (low : ℕ) (next : Bytes → Outcome B)
    → low ≤ length payload
    → Returns (next (drop low payload))
    → Returns (slice_from payload (pos low) >>= next)
Returns-drop payload low next h k = rw (slice_from_lem payload low h) k

-- The two counts behind the name.
counts_return :
    (payload : Bytes) (n : ℕ) (room_of : ℕ → ℕ → Room)
    → 4 + n ≤ length (drop 4 payload)
    → Returns (
        read_small_int (drop (8 + n) payload) >>= λ read_curr. or_err_room read_curr λ curr.
          slice_from payload (pos (8 + n + 2)) >>= λ last. read_small_int last >>= λ read_max.
          or_err_room read_max λ most. returned (room_of curr most))
counts_return payload n room_of named = rw (read_small_int-returned (drop (8 + n) payload)) (
    Returns-or_err (small_int_at (drop (8 + n) payload)) _ λ curr g.
      let (counted, _) = small_int_at_bounds (drop (8 + n) payload) g in
      Returns-drop payload (8 + n + 2) _
        (omega (arith, named, counted, length-drop 4 payload, length-drop (8 + n) payload))
        (rw (read_small_int-returned (drop (8 + n + 2) payload))
          (Returns-or_err (small_int_at (drop (8 + n + 2) payload)) _ λ most _. tt)))

deserialize_room-Returns : (payload : Bytes) → Returns (deserialize_room payload)
unfolding deserialize_room
deserialize_room-Returns payload = rw (read_big_int-returned payload) (
    Returns-or_err (big_int_at payload) _ λ id e.
      let (long, _) = big_int_at_bounds payload e in
      Returns-drop payload 4 _ long (
        rw (read_string-returned (drop 4 payload)) (
          Returns-or_err (string_behind (drop 4 payload)) _ λ name f.
            let (named, _) = string_behind_bounds (drop 4 payload) f in
            Returns-drop payload 4 _ long (
              rw (read_big_int-returned (drop 4 payload), string_behind-length (drop 4 payload) f)
                (Returns-drop payload (8 + length name) _
                  (omega (arith, named, length-drop 4 payload))
                  (counts_return payload (length name) _ named))))))

pub handle_room_data-Returns : (msg : NetMsg) (ctx : ProgCtx) → Returns (handle_room_data msg ctx)
unfolding handle_room_data
handle_room_data-Returns msg ctx =
    Returns->>= (deserialize_room msg.payload) _ (deserialize_room-Returns msg.payload)
      λ room _. Returns-if (is_invalid_id room.id) _ _ tt tt
