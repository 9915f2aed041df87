-- ===== src/Tests/Protocol.antt =====
-- The protocol's theorems at concrete messages and payloads.
use kiv_ups.Prelude.{replicate, true}
use kiv_ups.Network.{NetHandler, reconnect_max, state_disconnected}
use kiv_ups.Network.Connect.{reconnect}
use kiv_ups.Network.Connect.GivingUp.{no_answer, attempts_from, reconnect_gives_up}
use kiv_ups.Serde.Parser.{ok, results, scan, parse_byte_in}
use kiv_ups.Serde.Parser.Frame.{at_payload}
use kiv_ups.Serde.Parser.Stuck.{parse_bytes_stuck}
use kiv_ups.Network.Handler.{tick}
use kiv_ups.Network.Liveness.{process_buffer-alive_missed, tick-alive_missed}
use kiv_ups.Prelude.{
  ◌<◌, ◌≡◌, refl, List, [], ◌∷◌, ◌++◌, none, some, arith, Bytes, codes, same, length,
}
use mathlib.Core.List.{map}
use kiv_ups.Prelude.Int.{pos, negsuc, add_int}
use kiv_ups.GoLib.Decimal.{digits, format_int, format_padded}
use kiv_ups.GoLib.Panic.{returned, panic}
use kiv_ups.Serde.NetMsg.{NetMsg, to_string}
use kiv_ups.Serde.Parser.{init, parse_bytes}
use kiv_ups.Serde.Parser.Frame.{accepted, parse_bytes-to_string}
use kiv_ups.Serde.Message.{ParseType, small_int, var_int, string, Any, int, str, parse_message}
use kiv_ups.Serde.Message.Safety.{IsSafe, parse_message-IsSafe}
use kiv_ups.Serde.Message.RoundTrip.{
  write_field, write_fields, write_fields_total, parse_message-write_fields,
}
use kiv_ups.Serde.Message.Overcount.{parse_message_overcount}
use kiv_ups.Serde.Fields.{
  read_big_int, read_string, write_string, read_var_int, write_var_int, count_digits,
  write_small_int, write_big_int,
}
use kiv_ups.Serde.Fields.Decides.{
  StringRead, read_string-StringRead, VarIntRead, read_var_int-VarIntRead,
}
use kiv_ups.Serde.Fields.RoundTrip.{
  string_text, var_int_text, read_string-write_string, read_var_int-write_var_int,
}
use kiv_ups.Serde.Parser.Sound.{parse_bytes_sound}
use kiv_ups.Network.{net_message}
use kiv_ups.Network.Buffer.{process_buffer}
use kiv_ups.Network.Buffer.Feed.{feed, process_buffer-feed}
use kiv_ups.Network.Buffer.Delivery.{
  frames, process_reads, dispatch_all, process_reads-frames, process_reads-event_chan,
}
use kiv_ups.Tests.Fixtures.{
  int_floats, int_floats-IsExactAt, int_floats-IsReadable, rounding_floats, writes, online, msg,
}

abbrev two_messages : List NetMsg
two_messages = msg (codes "PNOK") [] ∷ msg (codes "PTRN") (codes "0003bob") ∷ []

-- The two frames, cut in the middle of the first and of the second.
abbrev cut : List Bytes
cut = codes "PKRNPN" ∷ codes "OK\nPKRPPTRN0007000" ∷ codes "3bob\n" ∷ []

frames-two_messages : frames two_messages ≡ codes "PKRNPNOK\nPKRPPTRN00070003bob\n"
unfolding to_string format_padded digits
frames-two_messages = refl

process_reads-frames_example :
    process_reads writes cut init online ≡ (init, dispatch_all writes two_messages online)
unfolding to_string format_padded digits
process_reads-frames_example =
    process_reads-frames writes two_messages cut online
      ((refl, omega arith), ((refl, omega arith), tt)) refl

process_reads-event_chan_example :
    (process_reads writes cut init online).1.event_chan ≡ map net_message two_messages
unfolding to_string format_padded digits same
process_reads-event_chan_example =
    process_reads-event_chan writes two_messages cut online
      ((refl, omega arith), ((refl, omega arith), tt)) ((refl, refl), ((refl, refl), tt)) refl

process_buffer-feed_example : process_buffer writes (codes "PKRNPNOK\nx") init online ≡ (
  (feed writes (codes "PKRNPNOK\nx") init online).0,
  (feed writes (codes "PKRNPNOK\nx") init online).1,
)
process_buffer-feed_example = process_buffer-feed writes (codes "PKRNPNOK\nx") init online

parse_bytes-to_string_example :
    (parse_bytes init (to_string (msg (codes "PTRN") (codes "0003bob")) ++ codes "PKRN")).1
    ≡ accepted (msg (codes "PTRN") (codes "0003bob"))
parse_bytes-to_string_example =
    parse_bytes-to_string (msg (codes "PTRN") (codes "0003bob")) (codes "PKRN") refl (omega arith)

abbrev fields : List ParseType
fields = string ∷ var_int ∷ small_int ∷ []

abbrev values : List Any
values = str (codes "bob") ∷ int (negsuc 41) ∷ int (pos 7) ∷ []

abbrev fields_text : Bytes
fields_text = codes "0003bob03-4207"

write_fields-values : write_fields int_floats fields values ≡ some fields_text
unfolding add_int write_fields write_field write_small_int write_big_int write_var_int write_string
    count_digits format_int format_padded digits
write_fields-values = refl

parse_message-write_fields_example :
    parse_message int_floats (fields_text ++ codes "!") fields
    ≡ returned (values, pos (length fields_text), none)
parse_message-write_fields_example =
    parse_message-write_fields int_floats fields values fields_text (codes "!")
      (omega arith, (omega arith, (omega arith, tt))) (int_floats-IsExactAt (negsuc 41), tt)
      write_fields-values (omega arith)

write_fields_total_example : (out : Bytes) × (write_fields int_floats fields values ≡ some out)
write_fields_total_example =
    write_fields_total int_floats fields values (omega arith, (omega arith, (omega arith, tt)))
      (int_floats-IsExactAt (negsuc 41), tt)

parse_message-IsSafe_example :
    IsSafe fields_text fields (parse_message int_floats fields_text fields)
parse_message-IsSafe_example =
    parse_message-IsSafe int_floats fields_text fields
      (int_floats-IsReadable fields_text (omega arith))

parse_message_overcount_example :
    parse_message rounding_floats (var_int_text (pos 999999999999999)) (var_int ∷ var_int ∷ [])
    ≡ panic
unfolding digits
parse_message_overcount_example =
    parse_message_overcount rounding_floats 999999999999998 (omega arith) refl var_int []

read_var_int-write_var_int_example :
    (write_var_int int_floats (negsuc 41) ≡ some (var_int_text (negsuc 41)))
    × (read_var_int (var_int_text (negsuc 41) ++ codes "07") ≡ returned (some (negsuc 41)))
read_var_int-write_var_int_example =
    read_var_int-write_var_int int_floats (negsuc 41) (codes "07") (omega arith)
      (int_floats-IsExactAt (negsuc 41))

read_string-write_string_example :
    (write_string (codes "bob") ≡ some (string_text (codes "bob")))
    × (read_string (string_text (codes "bob") ++ codes "07") ≡ returned (some (codes "bob")))
read_string-write_string_example = read_string-write_string (codes "bob") (codes "07") (omega arith)

read_string-StringRead_example : StringRead (codes "0003bob07") (read_string (codes "0003bob07"))
read_string-StringRead_example = read_string-StringRead (codes "0003bob07")

-- The length of a string that is cut off.
read_string_cut : read_string (codes "0009bob") ≡ returned none
unfolding read_string read_big_int
read_string_cut = refl

read_var_int-VarIntRead_example : VarIntRead (codes "03-4207") (read_var_int (codes "03-4207"))
read_var_int-VarIntRead_example = read_var_int-VarIntRead (codes "03-4207")

-- The parser behind the size of a frame of type P with the size 0000.
parse_bytes-zero : (parse_bytes init (codes "PKRPPTRN0000")).0 ≡ at_payload (codes "PTRN") 0
unfolding parse_bytes scan parse_byte_in
parse_bytes-zero = refl

parse_bytes_stuck_example : parse_bytes (at_payload (codes "PTRN") 0) (codes "\nPKRNALV!\n") ≡ (
  record (at_payload (codes "PTRN") 0) { payload = codes "\nPKRNALV!\n" },
  results (at_payload (codes "PTRN") 0) ok 10,
)
parse_bytes_stuck_example = parse_bytes_stuck (codes "PTRN") (codes "\nPKRNALV!\n")

process_buffer-alive_missed_example :
    (process_buffer writes (codes "PKRNALV!\n") init online).1.alive_missed ≡ 0
process_buffer-alive_missed_example =
    process_buffer-alive_missed writes (codes "PKRNALV!\n") init online

tick-alive_missed_example : (tick writes online).alive_missed ≡ 1
tick-alive_missed_example = tick-alive_missed writes online refl

-- A handler that reconnects.
abbrev lost : NetHandler
lost = record online { conn = none; active = true }

reconnect_gives_up_example :
    ((reconnect (replicate reconnect_max no_answer ++ no_answer ∷ []) lost).event_chan
      ≡ attempts_from 0 reconnect_max)
    × ((reconnect (replicate reconnect_max no_answer ++ no_answer ∷ []) lost).state
        ≡ state_disconnected)
reconnect_gives_up_example = reconnect_gives_up [] lost refl refl refl refl

ptrn_done : (parse_bytes init (codes "PKRPPTRN00070003bob\nPKR")).1.parser_done ≡ true
unfolding parse_bytes scan parse_byte_in results
ptrn_done = refl

parse_bytes_sound_example :
    (m : NetMsg) × (rest : Bytes) × (codes "PKRPPTRN00070003bob\nPKR" ≡ to_string m ++ rest)
    × (length m.code ≡ 4)
    × (length m.payload < 10000)
    × ((parse_bytes init (codes "PKRPPTRN00070003bob\nPKR")).1 ≡ accepted m)
parse_bytes_sound_example = parse_bytes_sound (codes "PKRPPTRN00070003bob\nPKR") ptrn_done
