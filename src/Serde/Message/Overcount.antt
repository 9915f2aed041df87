-- ===== src/Serde/Message/Overcount.antt =====
-- What `ParseMessage` does where `countDigits` counts one digit too many, as floats do at
-- 999999999999999: the offset runs past the field.
use kiv_ups.Prelude.{some, ℕ, suc, ◌+◌, ◌<◌, ◌^◌, ◌≡◌, ◌∙◌, List, [], ◌∷◌, arith, append-nil}
use kiv_ups.Prelude.Int.{pos, add_int}
use kiv_ups.GoLib.{FloatOps, log10_digits}
use kiv_ups.GoLib.Decimal.{digit_count, digit_count-le}
use kiv_ups.GoLib.Panic.{panic, slice_from_beyond}
use kiv_ups.Serde.Fields.{count_digits}
use kiv_ups.Serde.Fields.RoundTrip.{var_int_text, var_int_behind-var_int_text, length-var_int_text}
use kiv_ups.Serde.Message.{ParseType, var_int, int, parse_fields, parse_message}
use kiv_ups.Serde.Message.Round.{field_at, parse_fields_more}
use kiv_ups.Serde.Message.Safety.{add_int_pos}

module _ (F : FloatOps) (n : ℕ) (fits : suc n < 2 ^ 63)
    (over : log10_digits F (pos (suc n)) ≡ pos (suc (digit_count (suc n)))) where
  wide : add_int (pos 2) (pos (suc (digit_count (suc n)))) ≡ pos (3 + digit_count (suc n))
  unfolding add_int
  wide = ground (arith, digit_count-le (suc n) 19 (omega arith))

  counted : count_digits F (pos (suc n)) ≡ pos (suc (digit_count (suc n)))
  unfolding count_digits
  counted = ground arith

  field_at_over :
      field_at F var_int (var_int_text (pos (suc n)))
      ≡ some (int (pos (suc n)), pos (3 + digit_count (suc n)))
  unfolding field_at
  field_at_over =
      let read = rw append-nil at (var_int_behind-var_int_text (pos (suc n)) [] fits) in
      rw (read, counted, wide)

  -- A payload that ends with such an integer panics when one more field is asked for.
  pub parse_message_overcount :
      (t : ParseType) (types : List ParseType)
      → parse_message F (var_int_text (pos (suc n))) (var_int ∷ t ∷ types) ≡ panic
  unfolding parse_message
  parse_message_overcount t types =
      let text = var_int_text (pos (suc n)) in
      parse_fields_more F text var_int (t ∷ types) 0 [] (omega arith) (int (pos (suc n)))
        (pos (3 + digit_count (suc n))) field_at_over
      ∙ rw
          (add_int_pos 0 (3 + digit_count (suc n))
            (omega (arith, digit_count-le (suc n) 19 (omega arith))))
          (unfold parse_fields in
            rw (
              slice_from_beyond text (0 + (3 + digit_count (suc n)))
                (omega (arith, length-var_int_text (pos (suc n)) fits))))
