-- ===== src/Network/Connect/GivingUp.antt =====
-- When nothing answers, `connectWithRetry` tries 30 times and then gives up.
use kiv_ups.Prelude.{
  ℕ, zero, suc, ◌+◌, ◌≡◌, refl, ap, ◌∙◌, true, false, not, ◌||◌, List, [], ◌∷◌, ◌++◌, Option, none,
  some, arith, ltb, if_true, if_false, replicate, append_assoc,
}
use kiv_ups.Network.{
  reconnect_max, NetHandler, NetEvent, net_reconnecting, net_disconnected, state_disconnected,
  state_reconnecting,
}
use kiv_ups.Network.Handler.{set_state, emit, disconnect_internal, close_conn}
use kiv_ups.Network.Connect.{Round, give_up, retry, reconnect}

-- Nothing answers, and nobody asks to stop.
abbrev pub no_answer : Round
no_answer = (none, none)

closed-event_chan : (c : Option ℕ) (nh : NetHandler) → (close_conn c nh).event_chan ≡ nh.event_chan
unfolding close_conn
closed-event_chan none nh = refl
closed-event_chan (some c) nh = refl

give_up-event_chan :
    (nh : NetHandler) → (give_up nh).event_chan ≡ nh.event_chan ++ net_disconnected ∷ []
unfolding give_up disconnect_internal
give_up-event_chan nh = ap (λ l. l ++ net_disconnected ∷ []) (closed-event_chan nh.conn nh)

-- The events of `n` attempts from the one behind `k` on, and the one that says that all failed.
abbrev pub attempts_from : ℕ → ℕ → List NetEvent
attempts_from k zero = net_disconnected ∷ []
attempts_from k (suc n) = net_reconnecting (k + 1) reconnect_max ∷ attempts_from (k + 1) n

retry-event_chan :
    (n : ℕ) (more : List Round) (nh : NetHandler)
    → nh.shutdown ≡ false
    → nh.active ≡ true
    → nh.attempts + n ≡ reconnect_max
    → (retry (replicate n no_answer ++ no_answer ∷ more) nh).event_chan
      ≡ nh.event_chan ++ attempts_from nh.attempts n
unfolding retry
retry-event_chan zero more nh runs active e =
    ap (λ (h : NetHandler). h.event_chan)
      (if_false (nh.shutdown || not nh.active) _ _ (rw (runs, active) refl))
    ∙ ap (λ (h : NetHandler). h.event_chan)
        (if_true (ltb reconnect_max (nh.attempts + 1)) _ _ (ground (arith, e)))
    ∙ give_up-event_chan _
retry-event_chan (suc n) more nh runs active e =
    ap (λ (h : NetHandler). h.event_chan)
      (if_false (nh.shutdown || not nh.active) _ _ (rw (runs, active) refl))
    ∙ ap (λ (h : NetHandler). h.event_chan)
        (if_false (ltb reconnect_max (nh.attempts + 1)) _ _ (ground (arith, e)))
    ∙ retry-event_chan n more
        (emit (net_reconnecting (nh.attempts + 1) reconnect_max)
          (record nh { attempts = nh.attempts + 1 }))
        runs active (omega (arith, e))
    ∙ append_assoc nh.event_chan (net_reconnecting (nh.attempts + 1) reconnect_max ∷ []) _

-- The same rounds end in a handler that is disconnected.
retry-state :
    (n : ℕ) (more : List Round) (nh : NetHandler)
    → nh.shutdown ≡ false
    → nh.active ≡ true
    → nh.attempts + n ≡ reconnect_max
    → (retry (replicate n no_answer ++ no_answer ∷ more) nh).state ≡ state_disconnected
unfolding retry give_up
retry-state zero more nh runs active e =
    ap (λ (h : NetHandler). h.state)
      (if_false (nh.shutdown || not nh.active) _ _ (rw (runs, active) refl))
    ∙ ap (λ (h : NetHandler). h.state)
        (if_true (ltb reconnect_max (nh.attempts + 1)) _ _ (ground (arith, e)))
retry-state (suc n) more nh runs active e =
    ap (λ (h : NetHandler). h.state)
      (if_false (nh.shutdown || not nh.active) _ _ (rw (runs, active) refl))
    ∙ ap (λ (h : NetHandler). h.state)
        (if_false (ltb reconnect_max (nh.attempts + 1)) _ _ (ground (arith, e)))
    ∙ retry-state n more
        (emit (net_reconnecting (nh.attempts + 1) reconnect_max)
          (record nh { attempts = nh.attempts + 1 }))
        runs active (omega (arith, e))

-- A reconnect that begins as `handleConnectionLost` starts it, without the player's disconnect or a
-- shutdown, and that nothing answers in 31 rounds, announces the attempts 1 to 30, then the loss of
-- the connection, and ends disconnected; it uses no further round.
pub reconnect_gives_up :
    (more : List Round) (nh : NetHandler)
    → nh.user_disconnect ≡ false
    → nh.shutdown ≡ false
    → nh.active ≡ true
    → nh.attempts ≡ 0
    → ((reconnect (replicate reconnect_max no_answer ++ no_answer ∷ more) nh).event_chan
        ≡ nh.event_chan ++ attempts_from 0 reconnect_max)
      × ((reconnect (replicate reconnect_max no_answer ++ no_answer ∷ more) nh).state
          ≡ state_disconnected)
unfolding reconnect
reconnect_gives_up more nh keeps runs active fresh =
    let begun = set_state state_reconnecting nh in
    (
      ap (λ (h : NetHandler). h.event_chan) (if_false nh.user_disconnect _ _ keeps)
          ∙ retry-event_chan reconnect_max more begun runs active (omega (arith, fresh))
          ∙ ap (λ k. nh.event_chan ++ attempts_from k reconnect_max) fresh,
      ap (λ (h : NetHandler). h.state) (if_false nh.user_disconnect _ _ keeps)
          ∙ retry-state reconnect_max more begun runs active (omega (arith, fresh)),
    )
