-- ===== src/Serde/Parser/Stages.antt =====
-- What the loop of `ParseBytes` has read, part by part, when it ends with a finished frame.
use kiv_ups.Prelude.{
  ℕ, suc, ◌+◌, ◌<◌, ◌≤◌, ◌≡◌, ◌⊎◌, Bool-cases, ==_iff, inl, inr, refl, sym, ap, ◌∙◌, true, false,
  [], ◌∷◌, ◌++◌, arith, ◌==◌, Bytes, four_bytes, length, length-append, All, IsDigit,
}
use kiv_ups.GoLib.Decimal.{value}
use kiv_ups.Serde.Parser.{
  Parser, done, magic_2, magic_3, type, code, endline, init, payload_msg, no_payload_msg,
  parse_byte_in, scan,
}
use kiv_ups.Serde.Parser.Frame.{at_endline, at_size, at_payload, scan_size, scan_last}

-- The loop of `ParseBytes` ends with a finished frame.
abbrev pub Ends : Parser → Bytes → ℕ → Type 0
Ends p bytes i = (scan p bytes i).1 ≡ done

-- The state behind the type.
abbrev pub at_code : ℕ → Bytes → ℕ → Parser
at_code t c n = record init { msg_type = t; phase = code; code = c; code_index = n }

module _ (c : ℕ) (bytes : Bytes) (i : ℕ) where
  pub first_byte :
      Ends init (c ∷ bytes) i → (c ≡ b'P') × Ends (record init { phase = magic_2 }) bytes (i + 1)
  unfolding scan parse_byte_in
  first_byte h = ground arith

  pub second_byte :
      Ends (record init { phase = magic_2 }) (c ∷ bytes) i
      → (c ≡ b'K') × Ends (record init { phase = magic_3 }) bytes (i + 1)
  unfolding scan parse_byte_in
  second_byte h = ground arith

  pub third_byte :
      Ends (record init { phase = magic_3 }) (c ∷ bytes) i
      → (c ≡ b'R') × Ends (record init { phase = type }) bytes (i + 1)
  unfolding scan parse_byte_in
  third_byte h = ground arith

  pub type_byte :
      Ends (record init { phase = type }) (c ∷ bytes) i
      → ((c ≡ b'N') × Ends (at_code no_payload_msg [] 0) bytes (i + 1))
        ⊎ ((c ≡ b'P') × Ends (at_code payload_msg [] 0) bytes (i + 1))
  unfolding scan parse_byte_in
  type_byte h = ground arith

  last_byte : (p : Parser) → p.phase ≡ endline → Ends p (c ∷ bytes) i → c ≡ b'\n'
  unfolding scan parse_byte_in
  last_byte p e h = ground arith

pub ended :
    (p : Parser) (bytes : Bytes) (i : ℕ)
    → p.phase ≡ endline
    → Ends p bytes i
    → (rest : Bytes) × (bytes ≡ b'\n' ∷ rest)
ended p [] i e h = unfold scan in cc
ended p (b ∷ rest) i e h = (rest, ap (λ x. x ∷ rest) (last_byte b rest i p e h))

-- The code: four bytes, whatever they are.
pub code_bytes :
    (t : ℕ) (bytes : Bytes) (i : ℕ)
    → (t ≡ no_payload_msg) ⊎ (t ≡ payload_msg)
    → Ends (at_code t [] 0) bytes i
    → (c rest : Bytes) × (bytes ≡ c ++ rest)
      × (length c ≡ 4)
      × (((t ≡ no_payload_msg) × Ends (at_endline c) rest (i + 4))
          ⊎ ((t ≡ payload_msg) × Ends (at_size c) rest (i + 4)))
unfolding scan parse_byte_in
code_bytes t [] i k h = cc
code_bytes t (a ∷ []) i k h = ground arith
code_bytes t (a ∷ b ∷ []) i k h = ground arith
code_bytes t (a ∷ b ∷ c ∷ []) i k h = ground arith
code_bytes t (a ∷ b ∷ c ∷ d ∷ rest) i k h = (a ∷ b ∷ c ∷ d ∷ [], rest, refl, refl, ground arith)

-- The size: four digits.
pub size_bytes :
    (c bytes : Bytes) (i : ℕ)
    → Ends (at_size c) bytes i
    → (s rest : Bytes) × (bytes ≡ s ++ rest)
      × (length s ≡ 4)
      × All IsDigit s
      × Ends (at_payload c (value 0 s)) rest (i + 4)
unfolding scan parse_byte_in
size_bytes e [] i h = cc
size_bytes e (a ∷ []) i h = ground arith
size_bytes e (a ∷ b ∷ []) i h = ground arith
size_bytes e (a ∷ b ∷ c ∷ []) i h = ground arith
size_bytes e (a ∷ b ∷ c ∷ d ∷ rest) i h =
    let are_digits : All IsDigit (a ∷ b ∷ c ∷ d ∷ []) = ground arith in
    (
      a ∷ b ∷ c ∷ d ∷ [],
      rest,
      refl,
      refl,
      are_digits,
      ap (λ r. r.1) (sym (scan_size a b c d rest i e are_digits)) ∙ h,
    )

module _ (c : Bytes) (n : ℕ) where
  abbrev pub stored_so_far : Bytes → Parser
  stored_so_far acc = record (at_payload c n) { payload = acc }

  full_byte :
      (a : ℕ) (acc bytes : Bytes) (i : ℕ)
      → (suc (length acc) == n) ≡ true
      → Ends (stored_so_far acc) (a ∷ bytes) i
      → (rest : Bytes) × (bytes ≡ b'\n' ∷ rest)
  full_byte a acc bytes i h k =
      ended _ bytes (i + 1) refl
        (ap (λ r. r.1) (sym (scan_last a bytes acc c n i ((==_iff (suc (length acc)) n).0 h))) ∙ k)

  further_byte :
      (a : ℕ) (acc bytes : Bytes) (i : ℕ)
      → (suc (length acc) == n) ≡ false
      → Ends (stored_so_far acc) (a ∷ bytes) i
      → Ends (stored_so_far (acc ++ a ∷ [])) bytes (i + 1)
  unfolding scan parse_byte_in
  further_byte a acc bytes i h k = ground (arith, length-append acc (a ∷ []))

  pub payload_bytes :
      (bytes acc : Bytes) (i : ℕ)
      → Ends (stored_so_far acc) bytes i
      → (x rest : Bytes) × (bytes ≡ x ++ b'\n' ∷ rest)
        × (0 < length x)
        × (length acc + length x ≡ n)
  payload_bytes [] acc i h = unfold scan in cc
  payload_bytes (a ∷ bytes) acc i h = elim (Bool-cases (suc (length acc) == n)) [
    | inl e ↦
        let (rest, r) = full_byte a acc bytes i e h in
        (a ∷ [], rest, ap (◌∷◌ a) r, omega arith, omega (arith, (==_iff (suc (length acc)) n).0 e))
    | inr e ↦
        let (x, rest, r, filled, total) =
          payload_bytes bytes (acc ++ a ∷ []) (i + 1) (further_byte a acc bytes i e h) in
        (a ∷ x, rest, ap (◌∷◌ a) r, omega arith, omega (arith, total, length-append acc (a ∷ [])))
  ]

digit_range : (c : ℕ) → IsDigit c → (48 ≤ c) × (c ≤ 57)
digit_range c h = ground arith

abbrev Range : ℕ → Type 0
Range c = (48 ≤ c) × (c ≤ 57)

four_ranges :
    (a b c d x y z w : ℕ)
    → Range a
    → Range b
    → Range c
    → Range d
    → Range x
    → Range y
    → Range z
    → Range w
    → value 0 (a ∷ b ∷ c ∷ d ∷ []) ≡ value 0 (x ∷ y ∷ z ∷ w ∷ [])
    → (a ∷ b ∷ c ∷ d ∷ [] ≡ x ∷ y ∷ z ∷ w ∷ []) × (value 0 (a ∷ b ∷ c ∷ d ∷ []) < 10000)
four_ranges a b c d x y z w ha hb hc hd hx hy hz hw e =
    let ea : a ≡ x = omega arith in
    let eb : b ≡ y = omega arith in
    let ec : c ≡ z = omega arith in
    let ed : d ≡ w = omega arith in (rw (ea, eb, ec, ed) refl, omega arith)

-- Four digits are determined by the number that they spell, which is below 10000.
pub same_value :
    (s t : Bytes)
    → length s ≡ 4
    → length t ≡ 4
    → All IsDigit s
    → All IsDigit t
    → value 0 s ≡ value 0 t
    → (s ≡ t) × (value 0 s < 10000)
same_value s t h k ds dt e =
    let (a, b, c, d, sa) = four_bytes s h in
    let (x, y, z, w, tb) = four_bytes t k in
    let (ha, (hb, (hc, (hd, u)))) = rw sa at ds in
    let (hx, (hy, (hz, (hw, v)))) = rw tb at dt in
    let r =
      four_ranges a b c d x y z w (digit_range a ha) (digit_range b hb) (digit_range c hc)
        (digit_range d hd) (digit_range x hx) (digit_range y hy) (digit_range z hz)
        (digit_range w hw) (rw (sa, tb) at e) in
    (sa ∙ r.0 ∙ sym tb, rw sa r.1)
