-- ===== src/Client/Safety/Showdown.antt =====
-- `handleShowdown`: when it returns, and when it panics.
use kiv_ups.Prelude.{
  ℕ, zero, suc, ◌≤◌, ◌<◌, ◌≡◌, refl, true, false, List, [], ◌∷◌, Option, none, some, arith, Bytes,
  length, length-drop, drop, ◌^◌, same, if◌then◌else◌,
}
use kiv_ups.Prelude.Int.{ℤ}
use kiv_ups.GoLib.{FloatOps}
use kiv_ups.GoLib.Panic.{
  Outcome, returned, panic, slice_from_beyond, slice_from_lem, Returns, Returns->>=, ◌>>=◌,
}
use kiv_ups.Serde.Fields.Total.{small_int_at, read_small_int-returned}
use kiv_ups.Serde.Message.{small_int}
use kiv_ups.Client.Map.{Map, lookup, insert}
use kiv_ups.Client.Cards.{open_card}
use kiv_ups.Client.Data.{Card, PlayerData, ProgCtx}
use kiv_ups.Client.Effects.{set_player}
use kiv_ups.Client.Payloads.{showdown_types, reveal, showdown_rounds, or_none, handle_showdown}
use kiv_ups.Client.Values.{set_at}
use kiv_ups.Client.Safety.Parsing.{Returns-parse_plain, Returns-int, Returns-str}

-- Every player of the map has two cards at least.
abbrev pub IsDealt : Map PlayerData → Type 0
IsDealt [] = Unit
IsDealt ((nick, p) ∷ m) = (2 ≤ length p.cards) × IsDealt m

IsDealt-lookup :
    (nick : Bytes) (m : Map PlayerData) {p : PlayerData}
    → IsDealt m
    → lookup nick m ≡ some p
    → 2 ≤ length p.cards
unfolding lookup
IsDealt-lookup nick [] h e = cc
IsDealt-lookup nick ((j, q) ∷ m) {p} h e = ground (arith, h.0, IsDealt-lookup nick m {p = p} h.1)

IsDealt-insert :
    (nick : Bytes) (p : PlayerData) (m : Map PlayerData)
    → IsDealt m
    → 2 ≤ length p.cards
    → IsDealt (insert nick p m)
unfolding insert
IsDealt-insert nick p [] h k = (k, tt)
IsDealt-insert nick p ((j, q) ∷ m) h k =
    elim (same j nick) as (λ b. IsDealt (if b then (j, p) ∷ m else (j, q) ∷ insert nick p m)) [
      | true ↦ (k, h.1)
      | false ↦ (h.0, IsDealt-insert nick p m h.1 k)
    ]

-- The outcome is a context whose players all have two cards.
abbrev DealtAfter : Outcome ProgCtx → Type 0
DealtAfter (returned ctx) = IsDealt ctx.state.table.players
DealtAfter panic = ⊥

-- What follows it returns.
DealtAfter->>= :
    {B : Type 0} (m : Outcome ProgCtx) (next : ProgCtx → Outcome B)
    → DealtAfter m
    → ((ctx : ProgCtx) → IsDealt ctx.state.table.players → Returns (next ctx))
    → Returns (m >>= next)
DealtAfter->>= (returned ctx) next h k = k ctx h
DealtAfter->>= panic next h k = absurd h

-- The two writes succeed on two cards, and keep their number.
writes-IsDealt :
    (cards : List Card) (a b : Card) (next : List Card → Outcome ProgCtx)
    → 2 ≤ length cards
    → ((both : List Card) → 2 ≤ length both → DealtAfter (next both))
    → DealtAfter (set_at cards 0 a >>= λ one. set_at one 1 b >>= next)
unfolding set_at
writes-IsDealt [] a b next h k = absurd (omega (arith, h))
writes-IsDealt (x ∷ []) a b next h k = absurd (omega (arith, h))
writes-IsDealt (x ∷ (y ∷ cards)) a b next h k = k (a ∷ b ∷ cards) (omega arith)

module _ (nick : Bytes) (card_1 card_2 : ℤ) (ctx : ProgCtx)
    (h : IsDealt ctx.state.table.players) where
  found-IsDealt :
      (o : Option PlayerData)
      → lookup nick ctx.state.table.players ≡ o
      → DealtAfter (elim o [
        | none ↦ returned ctx
        | some p ↦ do
          one ← set_at p.cards 0 (open_card card_1)
          both ← set_at one 1 (open_card card_2)
          returned (set_player nick (record p { cards = both }) ctx)
      ])
  found-IsDealt none e = h
  found-IsDealt (some p) e =
      writes-IsDealt p.cards _ _ _ (IsDealt-lookup nick ctx.state.table.players h e)
        λ both k. IsDealt-insert nick (record p { cards = both }) ctx.state.table.players h k

  reveal-IsDealt : DealtAfter (reveal nick card_1 card_2 ctx)
  unfolding reveal
  reveal-IsDealt = found-IsDealt (lookup nick ctx.state.table.players) refl

module _ (F : FloatOps) where
  showdown_rounds-Returns :
      (n : ℕ) (next_payload : Bytes) (ctx : ProgCtx)
      → length next_payload < 2 ^ 63
      → IsDealt ctx.state.table.players
      → Returns (showdown_rounds F n next_payload ctx)
  unfolding showdown_rounds
  showdown_rounds-Returns zero next_payload ctx short h = tt
  showdown_rounds-Returns (suc n) next_payload ctx short h =
      Returns-parse_plain F next_payload showdown_types _ short (λ h. h)
        (λ res offset err. showdown_rounds-Returns n next_payload ctx short h)
        λ res offset within typed. rw (slice_from_lem next_payload offset within) (
          Returns-str showdown_types res 0 typed _ refl λ nick.
            Returns-int showdown_types res 1 typed small_int _ refl tt λ card_1.
              Returns-int showdown_types res 2 typed small_int _ refl tt λ card_2.
                DealtAfter->>= (reveal nick card_1 card_2 ctx) _
                  (reveal-IsDealt nick card_1 card_2 ctx h)
                  λ shown dealt.
                    showdown_rounds-Returns n (drop offset next_payload) shown
                      (omega (arith, length-drop offset next_payload)) dealt)

  -- A showdown whose payload has from 2 up to 2⁶³ − 1 bytes does not panic while every player of the
  -- table has two cards at least, whatever the floats do.
  pub handle_showdown-Returns :
      (payload : Bytes) (ctx : ProgCtx)
      → 2 ≤ length payload
      → length payload < 2 ^ 63
      → IsDealt ctx.state.table.players
      → Returns (handle_showdown F payload ctx)
  unfolding handle_showdown
  handle_showdown-Returns payload ctx long short h =
      rw (read_small_int-returned payload, slice_from_lem payload 2 long)
        (Returns->>= (showdown_rounds F (or_none (small_int_at payload)) (drop 2 payload) ctx) _
          (showdown_rounds-Returns (or_none (small_int_at payload)) (drop 2 payload) ctx
            (omega (arith, length-drop 2 payload)) h)
          λ shown _. tt)

-- A showdown whose payload is shorter than two bytes panics in every context.
pub handle_showdown_short :
    (F : FloatOps) (payload : Bytes) (ctx : ProgCtx)
    → length payload < 2
    → handle_showdown F payload ctx ≡ panic
unfolding handle_showdown
handle_showdown_short F payload ctx h =
    rw (read_small_int-returned payload, slice_from_beyond payload 2 h) refl
