-- ===== src/Client/Cards.antt =====
-- `TranslateCardID` of StateMachine.go and `actionIntToString` of Helpers.go.
use kiv_ups.Prelude.{
  ℕ, ◌/◌, ◌%◌, true, false, List, [], ◌∷◌, ◌++◌, none, some, ltb, leb, if◌then◌else◌, Bytes, codes,
  length, get_elem?, ◌==◌,
}
use kiv_ups.Prelude.Int.{ℤ, pos, negsuc}
use kiv_ups.Client.Data.{Card}

abbrev pub ranks : List Bytes
ranks =
    codes "2"
    ∷ codes "3"
    ∷ codes "4"
    ∷ codes "5"
    ∷ codes "6"
    ∷ codes "7"
    ∷ codes "8"
    ∷ codes "9"
    ∷ codes "10"
    ∷ codes "Jack"
    ∷ codes "Queen"
    ∷ codes "King"
    ∷ codes "Ace"
    ∷ []

abbrev pub suits : List Bytes
suits = codes "Hearts" ∷ codes "Diamonds" ∷ codes "Clubs" ∷ codes "Spades" ∷ []

-- An index that is below the length wherever it is taken.
abbrev pub entry : List Bytes → ℕ → Bytes
entry xs i = elim (get_elem? xs i) [ none ↦ [] | some x ↦ x ]

unfoldable pub translate_card_id : ℤ → Bytes
translate_card_id (negsuc n) = codes "??"
translate_card_id (pos id) =
    if ltb 51 id
    then codes "??"
    else if leb (length suits) (id / 13)
    then codes "??"
    else entry ranks (id % 13) ++ (codes " of " ++ entry suits (id / 13))

abbrev pub open_card : ℤ → Card
open_card id = record { id = id; symbol = translate_card_id id; hidden = false }

-- `Card{Hidden: true}`
abbrev pub hidden_card : Card
hidden_card = record { id = pos 0; symbol = []; hidden = true }

unfoldable pub action_int_to_string : ℤ → Bytes
action_int_to_string (negsuc n) = codes "UNKNOWN"
action_int_to_string (pos n) =
    if n == 0
    then codes "NONE"
    else if n == 1
    then codes "CHCK"
    else if n == 2
    then codes "CALL"
    else if n == 3
    then codes "FOLD"
    else if n == 4
    then codes "BETT"
    else if n == 5
    then codes "LEFT"
    else codes "UNKNOWN"
