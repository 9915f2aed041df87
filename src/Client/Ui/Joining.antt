-- ===== src/Client/Ui/Joining.antt =====
-- The way from the button of a room to the message that asks to join it.
use kiv_ups.Prelude.{
  ℕ, ◌<◌, ◌≡◌, refl, sym, ap, ◌∙◌, some, [], ◌∷◌, ◌++◌, append-nil, arith, Bytes, codes, same,
}
use kiv_ups.Prelude.Int.{pos}
use kiv_ups.GoLib.{FloatOps}
use kiv_ups.GoLib.Decimal.{format_int, format_padded}
use kiv_ups.GoLib.Strconv.{parse_int-format_int}
use kiv_ups.Serde.Fields.{read_big_int}
use kiv_ups.Serde.Fields.Total.{big_int_at, read_big_int-returned}
use kiv_ups.GoLib.Panic.{returned}
use kiv_ups.Serde.Fields.RoundTrip.{big_int_at-format_padded}
use kiv_ups.Window.Geometry.{Float32}
use kiv_ups.Window.Draw.Events.{controls}
use kiv_ups.Client.Data.{Room, ProgCtx, evt_room_join}
use kiv_ups.Client.Effects.{send_net_msg}
use kiv_ups.Client.Logic.{lobby, joining_room}
use kiv_ups.Client.Input.{lobby_input}
use kiv_ups.Client.Screens.Menu.{centered_button}
use kiv_ups.Client.Screens.Rooms.{room_button}
use kiv_ups.Client.Ui.{
  send_input, source_of, cut_prefix, click_room, handle_source, handle_ui_event,
}

-- The ID of the button of the room with this ID, and the payload that the server reads.
abbrev pub join_id : ℕ → Bytes
join_id n = codes "join_" ++ format_int (pos n)

abbrev pub join_payload : ℕ → Bytes
join_payload n = format_padded 4 (pos n)

controls-room_button :
    (G : Float32) (room : Room) (n : ℕ)
    → room.id ≡ pos n
    → controls (room_button G room) ≡ join_id n ∷ []
unfolding room_button centered_button controls
controls-room_button G room n e = rw e refl

handle_ui_event-join_id :
    (F : FloatOps) (n : ℕ) (ctx : ProgCtx)
    → handle_ui_event F (join_id n) ctx ≡ send_input (evt_room_join (format_int (pos n))) ctx
unfolding handle_ui_event source_of handle_source click_room cut_prefix same
handle_ui_event-join_id F n ctx = refl

lobby_input-evt_room_join :
    (n : ℕ) (ctx : ProgCtx)
    → n < 10000
    → lobby_input (evt_room_join (format_int (pos n))) ctx ≡ (
      send_net_msg (record { code = codes "JOIN"; payload = join_payload n }) ctx,
      lobby,
      some joining_room,
    )
unfolding lobby_input
lobby_input-evt_room_join n ctx h =
    ap
      (λ r. (
        send_net_msg (record { code = codes "JOIN"; payload = format_padded 4 r.0 }) ctx,
        lobby,
        some joining_room,
      ))
      (parse_int-format_int (pos n) (omega (arith, h)))

-- The only control of a room's button is the one whose event sends the input to join; the lobby
-- answers this input, in any context, with a JOIN message and the change to the joining state; and
-- the payload of the message is read back as the ID of the room, for IDs of at most four digits.
pub room_button_joins :
    (F : FloatOps) (G : Float32) (room : Room) (n : ℕ) (ctx later : ProgCtx)
    → room.id ≡ pos n
    → n < 10000
    → (controls (room_button G room) ≡ join_id n ∷ [])
      × (handle_ui_event F (join_id n) ctx ≡ send_input (evt_room_join (format_int (pos n))) ctx)
      × (lobby_input (evt_room_join (format_int (pos n))) later ≡ (
        send_net_msg (record { code = codes "JOIN"; payload = join_payload n }) later,
        lobby,
        some joining_room,
      ))
      × (read_big_int (join_payload n) ≡ returned (some n))
room_button_joins F G room n ctx later e h = (
  controls-room_button G room n e,
  handle_ui_event-join_id F n ctx,
  lobby_input-evt_room_join n later h,
  read_big_int-returned (join_payload n)
      ∙ ap returned
          (sym (ap big_int_at (append-nil (join_payload n))) ∙ big_int_at-format_padded n [] h),
)
