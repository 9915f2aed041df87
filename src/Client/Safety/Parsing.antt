-- ===== src/Client/Safety/Parsing.antt =====
-- Code that goes on from a `ParseMessage`: its index expressions and type assertions hold, and the
-- slice behind the bytes consumed is in range.
use kiv_ups.Prelude.{
  ℕ, zero, suc, ◌≤◌, ◌<◌, ◌^◌, ◌≡◌, refl, Bool, true, false, List, [], ◌∷◌, Option, none, some,
  Bytes, length, drop, get_elem?, if◌then◌else◌,
}
use kiv_ups.Prelude.Int.{ℤ, pos, negsuc}
use kiv_ups.GoLib.{FloatOps}
use kiv_ups.GoLib.Panic.{
  Outcome, returned, panic, slice_from, slice_from_lem, Returns, Returns->>=, ◌>>=◌,
}
use kiv_ups.Serde.Message.{
  ParseType, small_int, big_int, var_int, string, Any, nil, int, str, Parsed, parse_message,
}
use kiv_ups.Serde.Message.Safety.{
  IsReadable, IsReadable-drop, Typed, IsSafe, HasVarInt, parse_message-IsSafe,
  parse_message-IsSafe_plain,
}
use kiv_ups.Client.Values.{int_at, str_at}
use kiv_ups.Client.Payloads.{player_types, player_of}

-- The two ways that `ParseMessage` ends, for what follows it.
module _ (F : FloatOps) where
  Returns-safe {κ} :
      {B : Type κ} (payload : Bytes) (types : List ParseType) (m : Outcome Parsed)
      (next : Parsed → Outcome B)
      → IsSafe payload types m
      → ((res : List Any) (offset : ℕ) (err : Bytes) → Returns (next (res, pos offset, some err)))
      → ((res : List Any) (offset : ℕ)
          → offset ≤ length payload
          → Typed types res
          → Returns (next (res, pos offset, none)))
      → Returns (m >>= next)
  Returns-safe payload types (returned (res, pos offset, none)) next h bad good =
      good res offset h.0 h.1
  Returns-safe payload types (returned (res, pos offset, some err)) next h bad good =
      bad res offset err
  Returns-safe payload types (returned (res, negsuc offset, err)) next h bad good = absurd h
  Returns-safe payload types panic next h bad good = absurd h

  pub Returns-parse {κ} :
      {B : Type κ} (payload : Bytes) (types : List ParseType) (next : Parsed → Outcome B)
      → IsReadable F payload
      → ((res : List Any) (offset : ℕ) (err : Bytes) → Returns (next (res, pos offset, some err)))
      → ((res : List Any) (offset : ℕ)
          → offset ≤ length payload
          → Typed types res
          → Returns (next (res, pos offset, none)))
      → Returns (parse_message F payload types >>= next)
  Returns-parse payload types next short bad good =
      Returns-safe payload types (parse_message F payload types) next
        (parse_message-IsSafe F payload types short) bad good

  -- Nothing is asked of the floats if no variable integer is parsed.
  pub Returns-parse_plain {κ} :
      {B : Type κ} (payload : Bytes) (types : List ParseType) (next : Parsed → Outcome B)
      → length payload < 2 ^ 63
      → ¬ HasVarInt types
      → ((res : List Any) (offset : ℕ) (err : Bytes) → Returns (next (res, pos offset, some err)))
      → ((res : List Any) (offset : ℕ)
          → offset ≤ length payload
          → Typed types res
          → Returns (next (res, pos offset, none)))
      → Returns (parse_message F payload types >>= next)
  Returns-parse_plain payload types next short plain bad good =
      Returns-safe payload types (parse_message F payload types) next
        (parse_message-IsSafe_plain F payload types short plain) bad good

-- The slice behind the bytes consumed.
pub Returns-slice {κ} :
    {B : Type κ} (F : FloatOps) (payload : Bytes) (offset : ℕ) (next : Bytes → Outcome B)
    → offset ≤ length payload
    → IsReadable F payload
    → ((rest : Bytes) → IsReadable F rest → Returns (next rest))
    → Returns (slice_from payload (pos offset) >>= next)
Returns-slice F payload offset next h short k =
    rw (slice_from_lem payload offset h)
      (k (drop offset payload) (IsReadable-drop F payload offset short))

abbrev pub IsIntType : ParseType → Type 0
IsIntType string = ⊥
IsIntType _ = Unit

int_at-Typed :
    (types : List ParseType) (res : List Any) (i : ℕ) (t : ParseType)
    → get_elem? types i ≡ some t
    → IsIntType t
    → Typed types res
    → Returns (int_at res i)
int_at-Typed [] res i t e k h = cc
int_at-Typed (u ∷ types) [] i t e k h = absurd h
int_at-Typed (string ∷ types) (v ∷ res) zero string e k h = absurd k
int_at-Typed (string ∷ types) (v ∷ res) zero _ e k h = cc
int_at-Typed (small_int ∷ types) (int z ∷ res) zero t e k h = tt
int_at-Typed (big_int ∷ types) (int z ∷ res) zero t e k h = tt
int_at-Typed (var_int ∷ types) (int z ∷ res) zero t e k h = tt
int_at-Typed (u ∷ types) (nil ∷ res) zero t e k h = absurd (h.0)
int_at-Typed (u ∷ types) (str s ∷ res) zero t e k h = absurd (h.0)
int_at-Typed (u ∷ types) (v ∷ res) (suc i) t e k h = int_at-Typed types res i t e k h.1

str_at-Typed :
    (types : List ParseType) (res : List Any) (i : ℕ)
    → get_elem? types i ≡ some string
    → Typed types res
    → Returns (str_at res i)
str_at-Typed [] res i e h = cc
str_at-Typed (u ∷ types) [] i e h = absurd h
str_at-Typed (string ∷ types) (str s ∷ res) zero e h = tt
str_at-Typed (string ∷ types) (int z ∷ res) zero e h = absurd (h.0)
str_at-Typed (string ∷ types) (nil ∷ res) zero e h = absurd (h.0)
str_at-Typed (small_int ∷ types) (v ∷ res) zero e h = cc
str_at-Typed (big_int ∷ types) (v ∷ res) zero e h = cc
str_at-Typed (var_int ∷ types) (v ∷ res) zero e h = cc
str_at-Typed (u ∷ types) (v ∷ res) (suc i) e h = str_at-Typed types res i e h.1

-- A small number is there as a natural number.
small_at-Typed {κ} :
    {B : Type κ} (types : List ParseType) (res : List Any) (i : ℕ) (next : ℤ → Outcome B)
    → get_elem? types i ≡ some small_int
    → Typed types res
    → ((n : ℕ) → Returns (next (pos n)))
    → Returns (int_at res i >>= next)
small_at-Typed [] res i next e h f = cc
small_at-Typed (u ∷ types) [] i next e h f = absurd h
small_at-Typed (small_int ∷ types) (int (pos n) ∷ res) zero next e h f = f n
small_at-Typed (small_int ∷ types) (int (negsuc n) ∷ res) zero next e h f = absurd (h.0)
small_at-Typed (small_int ∷ types) (nil ∷ res) zero next e h f = absurd (h.0)
small_at-Typed (small_int ∷ types) (str s ∷ res) zero next e h f = absurd (h.0)
small_at-Typed (string ∷ types) (v ∷ res) zero next e h f = cc
small_at-Typed (big_int ∷ types) (v ∷ res) zero next e h f = cc
small_at-Typed (var_int ∷ types) (v ∷ res) zero next e h f = cc
small_at-Typed (u ∷ types) (v ∷ res) (suc i) next e h f = small_at-Typed types res i next e h.1 f

-- A type assertion on a field of the right type, and what follows it.
module _ {κ} {B : Type κ} (types : List ParseType) (res : List Any) (i : ℕ)
    (h : Typed types res) where
  pub Returns-int :
      (t : ParseType) (next : ℤ → Outcome B)
      → get_elem? types i ≡ some t
      → IsIntType t
      → ((z : ℤ) → Returns (next z))
      → Returns (int_at res i >>= next)
  Returns-int t next e k f =
      Returns->>= (int_at res i) next (int_at-Typed types res i t e k h) (λ z _. f z)

  pub Returns-str :
      (next : Bytes → Outcome B)
      → get_elem? types i ≡ some string
      → ((s : Bytes) → Returns (next s))
      → Returns (str_at res i >>= next)
  Returns-str next e f = Returns->>= (str_at res i) next (str_at-Typed types res i e h) (λ z _. f z)

  pub Returns-small :
      (next : ℤ → Outcome B)
      → get_elem? types i ≡ some small_int
      → ((n : ℕ) → Returns (next (pos n)))
      → Returns (int_at res i >>= next)
  Returns-small next e f = small_at-Typed types res i next e h f

-- The fields of a player are there, with their types.
pub player_of-Returns : (res : List Any) → Typed player_types res → Returns (player_of res)
unfolding player_of
player_of-Returns res h = Returns-str player_types res 0 h _ refl λ _.
    Returns-int player_types res 1 h var_int _ refl tt λ _.
      Returns-int player_types res 2 h small_int _ refl tt λ _.
        Returns-int player_types res 3 h small_int _ refl tt λ _.
          Returns-int player_types res 4 h small_int _ refl tt λ _.
            Returns-int player_types res 5 h small_int _ refl tt λ _.
              Returns-int player_types res 6 h var_int _ refl tt λ _.
                Returns-int player_types res 7 h var_int _ refl tt
                  λ _. Returns-int player_types res 8 h var_int _ refl tt λ _. tt

-- A test and a lookup, where both ways return.
pub Returns-if {κ} :
    {B : Type κ} (b : Bool) (x y : Outcome B) → Returns x → Returns y → Returns (if b then x else y)
Returns-if true x y h k = h
Returns-if false x y h k = k

pub Returns-option {ℓ κ} :
    {A : Type ℓ} {B : Type κ} (o : Option A) (x : Outcome B) (f : A → Outcome B)
    → Returns x
    → ((a : A) → Returns (f a))
    → Returns (elim o [ none ↦ x | some a ↦ f a ])
Returns-option none x f h k = h
Returns-option (some a) x f h k = k a
