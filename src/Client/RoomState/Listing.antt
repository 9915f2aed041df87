-- ===== src/Client/RoomState/Listing.antt =====
-- A room of the list that the server sends, and `deserializeRoom`.
use kiv_ups.Prelude.{
  ℕ, ◌+◌, ◌<◌, ◌≡◌, refl, ap, sym, ◌∙◌, [], ◌++◌, some, arith, Bytes, length, length-append,
  drop-append, append_assoc, append-nil,
}
use kiv_ups.Prelude.Int.{pos}
use kiv_ups.GoLib.Decimal.{format_padded}
use kiv_ups.GoLib.Panic.{returned, slice_from, slice_from_lem}
use kiv_ups.Serde.Fields.Total.{
  read_small_int-returned, read_big_int-returned, small_int_at, big_int_at,
}
use kiv_ups.Serde.Fields.RoundTrip.{
  string_text, length-string_text, length-format_padded, small_int_at-format_padded,
  big_int_at-format_padded, read_string-write_string,
}
use kiv_ups.Client.RoomState.{deserialize_room}

-- Four digits, the name behind its length, and twice two digits.
abbrev pub room_text : ℕ → Bytes → ℕ → ℕ → Bytes
room_text id name current most =
    format_padded 4 (pos id)
    ++ (string_text name ++ (format_padded 2 (pos current) ++ format_padded 2 (pos most)))

slice_prefix : (a b : Bytes) (n : ℕ) → length a ≡ n → slice_from (a ++ b) (pos n) ≡ returned b
slice_prefix a b n h =
    slice_from_lem (a ++ b) n (omega (arith, h, length-append a b))
    ∙ ap returned (drop-append a b n (sym h))

module _ (id : ℕ) (name : Bytes) (current most : ℕ) (id_fits : id < 10000)
    (name_fits : length name < 10000) (current_fits : current < 100) (most_fits : most < 100) where
  abbrev first : Bytes
  first = format_padded 2 (pos current)

  abbrev second : Bytes
  second = format_padded 2 (pos most)

  abbrev counts : Bytes
  counts = first ++ second

  abbrev front : Bytes
  front = format_padded 4 (pos id)

  length-front : length front ≡ 4
  length-front = length-format_padded 3 id (omega arith) (omega arith)

  behind_id :
      slice_from (front ++ (string_text name ++ counts)) (pos 4)
      ≡ returned (string_text name ++ counts)
  behind_id = slice_prefix front (string_text name ++ counts) 4 length-front

  behind_name :
      slice_from (front ++ (string_text name ++ counts)) (pos (8 + length name)) ≡ returned counts
  behind_name = rw (← append_assoc front (string_text name) counts) (
      slice_prefix (front ++ string_text name) counts (8 + length name) (
        omega (
          arith,
          length-append front (string_text name),
          length-front,
          length-string_text name name_fits,
        )))

  behind_current :
      slice_from (front ++ (string_text name ++ counts)) (pos (8 + length name + 2))
      ≡ returned (format_padded 2 (pos most))
  behind_current =
      ap (λ l. slice_from l (pos (8 + length name + 2)))
        (sym (append_assoc front (string_text name) counts)
          ∙ sym (append_assoc (front ++ string_text name) first second))
      ∙ slice_prefix ((front ++ string_text name) ++ first) second (8 + length name + 2) (
          omega (
            arith,
            length-append (front ++ string_text name) first,
            length-append front (string_text name),
            length-front,
            length-string_text name name_fits,
            length-format_padded 1 current (omega arith) (omega arith),
          ))

  name_length : big_int_at (string_text name ++ counts) ≡ some (length name)
  name_length =
      rw (append_assoc (format_padded 4 (pos (length name))) name counts)
        (big_int_at-format_padded (length name) (name ++ counts) name_fits)

  most_read : small_int_at (format_padded 2 (pos most)) ≡ some most
  most_read =
      ap small_int_at (sym (append-nil (format_padded 2 (pos most))))
      ∙ small_int_at-format_padded most [] most_fits

  -- The listing of a room whose id and name length have at most four digits and whose counts have at
  -- most two is read back by `deserializeRoom` as that room.
  pub deserialize_room-room_text :
      deserialize_room (room_text id name current most)
      ≡ returned (record {
        id = pos id;
        name = name;
        current_players = pos current;
        max_players = pos most;
      })
  unfolding deserialize_room
  deserialize_room-room_text =
      rw
        (
          read_big_int-returned (room_text id name current most),
          big_int_at-format_padded id (string_text name ++ counts) id_fits,
          behind_id,
          (read_string-write_string name counts name_fits).1,
          read_big_int-returned (string_text name ++ counts),
          name_length,
          behind_name,
          read_small_int-returned counts,
          small_int_at-format_padded current (format_padded 2 (pos most)) current_fits,
          behind_current,
          read_small_int-returned second,
          most_read,
        )
        refl
