-- ===== src/Client/Game/Chips.antt =====
-- Chips under "ACOK" and "GMDN": what an accepted action takes from the player goes into the pot.
use kiv_ups.Prelude.{ℕ, ◌+◌, ◌-◌, ◌≤◌, ◌<◌, ◌^◌, ◌≡◌, refl, ap, ◌∙◌, some, arith, Bytes, same_refl}
use kiv_ups.Prelude.Int.{ℤ, pos, add_int, sub_int}
use kiv_ups.Client.Map.{Map, lookup, insert, lookup-insert}
use kiv_ups.Client.Data.{PlayerData, ProgCtx}
use kiv_ups.Client.Effects.{player, or_zero}
use kiv_ups.Client.Game.{accept_action}
use kiv_ups.Client.Logic.{GameAction, bet_action, call_action}

found_again :
    (nick : Bytes) (p : PlayerData) (m : Map PlayerData) → lookup nick (insert nick p m) ≡ some p
found_again nick p m = rw (lookup-insert nick nick p m, same_refl nick) refl

-- A bet or a call of `amount`.
pub data Puts : ℤ → GameAction → Type 0 where
  puts_bet : {amount : ℤ} → Puts amount (bet_action amount)
  puts_call : {amount : ℤ} → Puts amount (call_action amount)

sub_pos : (c a : ℕ) → a ≤ c → c < 2 ^ 63 → sub_int (pos c) (pos a) ≡ pos (c - a)
unfolding sub_int
sub_pos c a h k = ground (arith, h, k)

add_pos : (p a : ℕ) → p + a < 2 ^ 63 → add_int (pos p) (pos a) ≡ pos (p + a)
unfolding add_int
add_pos p a h = ground (arith, h)

module _ (ctx : ProgCtx) (chips pot amount : ℕ)
    (has : (player ctx.state.nickname ctx).chip_count ≡ pos chips)
    (lies : ctx.state.table.pot ≡ pos pot) (covered : amount ≤ chips)
    (fits : chips + pot < 2 ^ 63) where
  paid :
      (q : PlayerData)
      → q.chip_count ≡ pos chips
      → sub_int q.chip_count (pos amount) ≡ pos (chips - amount)
  paid q e = rw e (sub_pos chips amount covered (omega (arith, fits)))

  -- When the server accepts a bet or a call of an amount that the own player's chips cover, the pot
  -- grows by the amount that the player loses, while chips and pot together are an int64.
  pub accept_action_chips :
      (action : GameAction)
      → Puts (pos amount) action
      → ((player ctx.state.nickname (accept_action (some action) ctx)).chip_count
          ≡ pos (chips - amount))
        × ((accept_action (some action) ctx).state.table.pot ≡ pos (pot + amount))
  unfolding accept_action
  accept_action_chips _ puts_bet = (
    ap (λ o. (or_zero o).chip_count) (found_again ctx.state.nickname _ ctx.state.table.players)
        ∙ paid (player ctx.state.nickname ctx) has,
    rw lies (add_pos pot amount (omega (arith, fits, covered))),
  )
  accept_action_chips _ puts_call = (
    ap (λ o. (or_zero o).chip_count) (found_again ctx.state.nickname _ ctx.state.table.players)
        ∙ paid (player ctx.state.nickname ctx) has,
    rw lies (add_pos pot amount (omega (arith, fits, covered))),
  )
