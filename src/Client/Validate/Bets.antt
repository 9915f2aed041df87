-- ===== src/Client/Validate/Bets.antt =====
-- Which bets `validateGameAction` lets pass: the drawing code hands it the bet as `WriteVarInt` encodes
-- it, with its length in front, and `strconv.Atoi` reads the length as digits of the bet.
use kiv_ups.Prelude.{
  ℕ, ◌+◌, ◌*◌, ◌^◌, ◌<◌, ◌≡◌, refl, ◌∙◌, ap, Bool, true, false, not, none, some, arith,
  if◌then◌else◌, Bytes, codes, same, All, IsDigit,
}
use kiv_ups.Prelude.Int.{pos, ltb_ℤ}
use native.Mathlib.Nat.{mul-pos, one-le-pow}
use kiv_ups.GoLib.Decimal.{
  digits, digit_count, digit_count_pos, format_int, format_padded, value, value-append, value_shift,
  value-digits, value-format_padded, format_padded-IsDigit, digits-IsDigit, All-IsDigit-append,
}
use kiv_ups.GoLib.Strconv.{parse_int, parse_int-value}
use kiv_ups.Serde.Fields.RoundTrip.{var_int_text, length-var_int_text, text_count-lt}
use kiv_ups.Client.Map.{lookup}
use kiv_ups.Client.Data.{PlayerData, ProgCtx}
use kiv_ups.Client.Validate.{validate_bet, validate_turn, validate_player, validate_game_action}

-- The number that the encoding of the bet `b` spells.
abbrev pub spelt : ℕ → ℕ
spelt b = digit_count b * 10 ^ digit_count b + b

parse_int-var_int_text :
    (b : ℕ)
    → b < 2 ^ 63
    → spelt b < 2 ^ 63
    → parse_int (var_int_text (pos b)) ≡ (pos (spelt b), none)
parse_int-var_int_text b h fits =
    let small = text_count-lt (pos b) (omega (arith, h)) in
    let head = format_padded 2 (pos (digit_count b)) in
    let spelling : value 0 (var_int_text (pos b)) ≡ spelt b =
      unfold format_int in
      value-append head (digits b) 0
      ∙ rw (value-format_padded 2 (digit_count b) (omega (arith, small)))
          (value_shift (digits b) (digit_count b) ∙ rw (value-digits b (omega (arith, h))) refl) in
    let all_digits : All IsDigit (var_int_text (pos b)) =
      unfold format_int in
      All-IsDigit-append head (digits b) (format_padded-IsDigit 2 (digit_count b))
        (digits-IsDigit b) in
    parse_int-value (var_int_text (pos b)) all_digits
      (omega (arith, length-var_int_text (pos b) (omega (arith, h)))) (rw spelling fits)
    ∙ ap (λ n. (pos n, none)) spelling

pub ltb_pos : (a b : ℕ) → a < b → ltb_ℤ (pos a) (pos b) ≡ true
ltb_pos a b h = ground arith

second_if :
    (b : Bool) (x y : ProgCtx)
    → (if◌then◌else◌ {A = ProgCtx × Bool} b (x, false) (y, true)).1 ≡ not b
second_if true x y = refl
second_if false x y = refl

validate_bet_pos :
    (my_data : PlayerData) (ctx : ProgCtx) (n : ℕ)
    → 0 < n
    → (validate_bet (pos n, none) my_data ctx).1 ≡ not (ltb_ℤ my_data.chip_count (pos n))
unfolding validate_bet
validate_bet_pos my_data ctx n h =
    rw (ltb_pos 0 n h) (second_if (ltb_ℤ my_data.chip_count (pos n)) _ _)

pub spelt-gt : (b : ℕ) → b < spelt b
spelt-gt b =
    omega (arith, mul-pos (digit_count_pos b) (one-le-pow (digit_count b) 10 (omega arith)))

module _ (ctx : ProgCtx) (my_data : PlayerData) (b : ℕ)
    (found : lookup ctx.state.nickname ctx.state.table.players ≡ some my_data)
    (turn : my_data.is_my_turn ≡ true) (positive : 0 < b) (fits : spelt b < 2 ^ 63) where
  -- The cases before the bet's do not apply.
  bet_reached :
      (amount : Bytes)
      → validate_game_action (codes "BETT") amount ctx ≡ validate_bet (parse_int amount) my_data ctx
  unfolding validate_game_action validate_player validate_turn same
  bet_reached amount = rw found (rw turn refl)

  -- On the player's own turn, a positive bet `b` as the drawing code encodes it passes exactly if the
  -- player's chips cover the number that the whole encoding spells, d · 10^d + b for a bet of d
  -- digits, while that number is an int64.
  pub validate_game_action-spelt :
      (validate_game_action (codes "BETT") (var_int_text (pos b)) ctx).1
      ≡ not (ltb_ℤ my_data.chip_count (pos (spelt b)))
  validate_game_action-spelt =
      ap (λ r. r.1) (bet_reached (var_int_text (pos b)))
      ∙ ap (λ z. (validate_bet z my_data ctx).1)
          (parse_int-var_int_text b (omega (arith, fits)) fits)
      ∙ validate_bet_pos my_data ctx (spelt b) (omega (arith, positive))

  -- So a bet of all the chips is always refused.
  pub all_in_refused :
      my_data.chip_count ≡ pos b
      → (validate_game_action (codes "BETT") (var_int_text (pos b)) ctx).1 ≡ false
  all_in_refused all =
      validate_game_action-spelt ∙ rw all (ap not (ltb_pos b (spelt b) (spelt-gt b)))
