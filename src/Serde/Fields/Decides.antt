-- ===== src/Serde/Fields/Decides.antt =====
-- `ReadString` and `ReadVarInt` against a description that does not mention how they read: a body
-- behind digits that spell its length.
use mathlib.Core.Option.{some-injective}
use kiv_ups.Prelude.{
  ℕ, zero, suc, ◌+◌, ◌-◌, ◌*◌, ◌≤◌, ◌≡◌, refl, sym, ap, ◌∙◌, true, false, Bool, ltb, if◌then◌else◌,
  [], ◌∷◌, ◌++◌, Option, none, some, arith, Bytes, length, take, drop, length-append, append_assoc,
  take-append, drop-append, length-take, length-drop, All, IsDigit, ◌>>=◌, >>=-eq-some,
  le→ltb_false,
}
use kiv_ups.Prelude.Int.{ℤ}
use kiv_ups.GoLib.Decimal.{value}
use kiv_ups.GoLib.Panic.{Outcome, returned, panic}
use kiv_ups.GoLib.Strconv.{parse_int}
use kiv_ups.Serde.Fields.{read_string, read_var_int, ok_value}
use kiv_ups.Serde.Fields.Total.{digits_at, small_int_at, big_int_at}
use kiv_ups.Serde.Fields.Bounds.{ok_value-eq-some, >>=-guard}
use kiv_ups.Serde.Fields.RoundTrip.{digits_at-append}
use kiv_ups.Serde.Fields.Total.{
  string_behind, var_int_behind, read_string-returned, read_var_int-returned,
}

-- `w` digits, the bytes whose number they spell, and anything else.
abbrev pub Prefixed : ℕ → Bytes → Bytes → Type 0
Prefixed w body slice =
    (p : Bytes) × (rest : Bytes) × (slice ≡ (p ++ body) ++ rest)
    × (length p ≡ w)
    × All IsDigit p
    × (value 0 p ≡ length body)

-- The digits that were read.
abbrev Split : ℕ → ℕ → Bytes → ℕ → Type 0
Split w number slice r =
    (p : Bytes) × (after : Bytes) × (slice ≡ p ++ after)
    × (length p ≡ w)
    × All IsDigit p
    × (value number p ≡ r)

digits_at-Split :
    (w number : ℕ) (slice : Bytes) {r : ℕ}
    → digits_at w number slice ≡ some r
    → Split w number slice r
unfolding digits_at
digits_at-Split zero number slice h = ([], slice, refl, refl, tt, ground arith)
digits_at-Split (suc w) number [] h = cc
digits_at-Split (suc w) number (c ∷ slice) {r} h =
    let digit : IsDigit c = ground arith in
    let more : digits_at w (number * 10 + (c - b'0')) slice ≡ some r = ground arith in
    let (p, after, e, long, are, spells) =
      digits_at-Split w (number * 10 + (c - b'0')) slice more in
    (c ∷ p, after, ap (λ l. c ∷ l) e, omega (arith, long), (digit, are), spells)

ltb-false-le : (a b : ℕ) → ltb a b ≡ false → b ≤ a
ltb-false-le a b h = ground arith

-- A length of `w` digits and the bytes that it counts.
abbrev behind : ℕ → Bytes → Option Bytes
behind w slice = do
  n ← if ltb (length slice) w then none else digits_at w 0 slice
  if ltb (length slice) (w + n) then none else some (take n (drop w slice))

take-drop : (n : ℕ) (xs : Bytes) → take n xs ++ drop n xs ≡ xs
take-drop zero xs = refl
take-drop (suc n) [] = refl
take-drop (suc n) (x ∷ xs) = ap (λ l. x ∷ l) (take-drop n xs)

-- A digit prefix and what the slice expression behind it gives.
joined :
    (w n : ℕ) (slice p after : Bytes)
    → slice ≡ p ++ after
    → length p ≡ w
    → slice ≡ (p ++ take n (drop w slice)) ++ drop n (drop w slice)
joined w n slice p after e long =
    let rest : drop w slice ≡ after = ap (drop w) e ∙ drop-append p after w (sym long) in
    rw rest (
      e
      ∙ ap (λ l. p ++ l) (sym (take-drop n after))
      ∙ sym (append_assoc p (take n after) (drop n after)))

behind_sound :
    (w : ℕ) (slice : Bytes) {body : Bytes} → behind w slice ≡ some body → Prefixed w body slice
behind_sound w slice {body} h =
    let (n, counted, taken) =
      >>=-eq-some (if ltb (length slice) w then none else digits_at w 0 slice) _ h in
    let (_, digits_read) = >>=-guard (ltb (length slice) w) _ counted in
    let (fits, is_body) = >>=-guard (ltb (length slice) (w + n)) _ taken in
    let (p, after, e, long, are, spells) = digits_at-Split w 0 slice digits_read in
    let same_body : take n (drop w slice) ≡ body = some-injective _ _ is_body in
    let counts : n ≡ length body = omega (
      arith,
      ap length same_body,
      length-take n (drop w slice),
      length-drop w slice,
      ltb-false-le (length slice) (w + n) fits,
    ) in
    (
      p,
      drop n (drop w slice),
      rw same_body at (joined w n slice p after e long),
      long,
      are,
      spells ∙ counts,
    )

behind_complete : (w : ℕ) (slice body : Bytes) → Prefixed w body slice → behind w slice ≡ some body
behind_complete w slice body (p, rest, e, long, are, spells) =
    let total : length slice ≡ w + length body + length rest =
      omega (arith, ap length e, length-append (p ++ body) rest, length-append p body, long) in
    let regrouped : slice ≡ p ++ (body ++ rest) = e ∙ append_assoc p body rest in
    let counted : digits_at w 0 slice ≡ some (length body) =
      ap (digits_at w 0) regrouped
      ∙ digits_at-append p (body ++ rest) w 0 are (sym long)
      ∙ ap some spells in
    let is_body : take (length body) (drop w slice) ≡ body =
      ap (λ l. take (length body) (drop w l)) regrouped
      ∙ ap (take (length body)) (drop-append p (body ++ rest) w (sym long))
      ∙ take-append body rest (length body) refl in
    rw
      (
        le→ltb_false (length slice) w (omega (arith, total)),
        counted,
        le→ltb_false (length slice) (w + length body) (omega (arith, total)),
        is_body,
      )
      refl

-- What `ReadString` gives: a string behind four digits that spell its length, and none if the slice
-- starts with no such string.
abbrev pub StringRead : Bytes → Outcome (Option Bytes) → Type 0
StringRead slice (returned (some str)) = Prefixed 4 str slice
StringRead slice (returned none) = (str : Bytes) → ¬ Prefixed 4 str slice
StringRead slice panic = ⊥

string_behind-StringRead :
    (slice : Bytes) (o : Option Bytes) → behind 4 slice ≡ o → StringRead slice (returned o)
string_behind-StringRead slice (some str) e = behind_sound 4 slice e
string_behind-StringRead slice none e =
    λ str h. let k = behind_complete 4 slice str h in absurd (cc)

-- `ReadString` never panics, reads exactly the strings that stand behind four digits that spell
-- their length, whatever follows, and fails exactly on a slice that starts with no such string.
pub read_string-StringRead : (slice : Bytes) → StringRead slice (read_string slice)
read_string-StringRead slice =
    rw (read_string-returned slice) (
      string_behind-StringRead slice (string_behind slice)
        (unfold string_behind big_int_at in refl))

-- What `ReadVarInt` gives: the number that `ParseInt` reads, without an error, from the bytes behind
-- two digits that spell their number.
abbrev pub VarIntRead : Bytes → Outcome (Option ℤ) → Type 0
VarIntRead slice (returned (some z)) =
    (body : Bytes) × Prefixed 2 body slice × (parse_int body ≡ (z, none))
VarIntRead slice (returned none) =
    (body : Bytes) (z : ℤ) → Prefixed 2 body slice → ¬ (parse_int body ≡ (z, none))
VarIntRead slice panic = ⊥

var_int_behind-behind :
    (slice : Bytes) → var_int_behind slice ≡ behind 2 slice >>= λ body. ok_value (parse_int body)
unfolding var_int_behind small_int_at
var_int_behind-behind slice = go (if ltb (length slice) 2 then none else digits_at 2 0 slice)
  where
    pick :
        (b : Bool) (body : Bytes)
        → (if b then none else ok_value (parse_int body))
          ≡ (if b then none else some body) >>= λ s. ok_value (parse_int s)
    pick true body = refl
    pick false body = refl

    go :
        (o : Option ℕ)
        → (o >>= λ n.
            if ltb (length slice) (2 + n)
            then none
            else ok_value (parse_int (take n (drop 2 slice))))
          ≡ (o >>= λ n. if ltb (length slice) (2 + n) then none else some (take n (drop 2 slice)))
            >>= λ body. ok_value (parse_int body)
    go none = refl
    go (some n) = pick (ltb (length slice) (2 + n)) (take n (drop 2 slice))

var_int-VarIntRead :
    (slice : Bytes) (o : Option ℤ)
    → behind 2 slice >>= (λ body. ok_value (parse_int body)) ≡ o
    → VarIntRead slice (returned o)
var_int-VarIntRead slice (some z) e =
    let (body, found, exact) = >>=-eq-some (behind 2 slice) (λ body. ok_value (parse_int body)) e in
    (body, behind_sound 2 slice found, ok_value-eq-some (parse_int body) exact)
var_int-VarIntRead slice none e = λ body z h k.
    let found = behind_complete 2 slice body h in
    let exact : some z ≡ none =
      ap ok_value (sym k) ∙ ap (λ o. o >>= λ s. ok_value (parse_int s)) (sym found) ∙ e in
    absurd (cc)

-- `ReadVarInt` never panics, reads exactly the numbers that `ParseInt` takes from the bytes behind
-- two digits that spell their number, whatever follows, and fails exactly where there are none.
pub read_var_int-VarIntRead : (slice : Bytes) → VarIntRead slice (read_var_int slice)
read_var_int-VarIntRead slice =
    rw (read_var_int-returned slice)
      (var_int-VarIntRead slice (var_int_behind slice) (sym (var_int_behind-behind slice)))
