-- ===== src/Window/Draw/Total.antt =====
-- Drawing ends, as long as the event channel has room for the controls of what is drawn.
use kiv_ups.Prelude.{
  ◌<◌, ◌≡◌, Bool, true, false, some, List, [], ◌∷◌, ◌++◌, if◌then◌else◌, length, arith, Bytes,
}
use kiv_ups.Window.Component.{
  ButtonComponent, TextBoxComponent, RgComponent, label, button, text_box, pot_display, panel,
  center, bounds_box, h_stack, v_stack, player_info, game_screen, Stack, stack, Components, end,
  child, MaybeComponent, absent, present,
}
use kiv_ups.Window.Draw.{
  UiEvent, event_click, event_value_change, Input, Strings, event_chan_size, send_event,
  draw_button, after_edit, focus, draw_text_box, draw, draw_stack, draw_children, draw_maybe,
}
use kiv_ups.Window.Draw.Events.{
  controls, stack_controls, children_controls, maybe_controls, picked_none, skip, pick, Drawn, Fits,
  nothing_sent, Drawn-wrap, Drawn-in_turn,
}

send_event_fits :
    {S A : Type 0} (e : UiEvent) (a : A) (s : S) (events : List UiEvent)
    → length events < event_chan_size
    → send_event e a (s, events) ≡ some (a, (s, events ++ e ∷ []))
unfolding send_event
send_event_fits e a s events h = ground (arith, h)

one_sent :
    {S A : Type 0} (e : UiEvent) (a : A) (s : S) (events : List UiEvent)
    → Fits (e.source_id ∷ []) events
    → Drawn (e.source_id ∷ []) events (send_event e a (s, events))
one_sent e a s events h = record {
  left = a;
  store = s;
  sent = e ∷ [];
  drawn = send_event_fits e a s events (omega (arith, h));
  picked = pick e picked_none;
}

none_sent :
    {S A : Type 0} (i : Bytes) (a : A) (s : S) (events : List UiEvent)
    → Drawn (i ∷ []) events (some (a, (s, events)))
none_sent i a s events =
    let d = nothing_sent a s events in
    record {
      left = d.left;
      store = d.store;
      sent = d.sent;
      drawn = d.drawn;
      picked = skip i d.picked;
    }

one_or_none :
    {S A : Type 0} (b : Bool) (e : UiEvent) (a : A) (s : S) (events : List UiEvent)
    → Fits (e.source_id ∷ []) events
    → Drawn
        (e.source_id ∷ [])
        events
        (if b then send_event e a (s, events) else some (a, (s, events)))
one_or_none true e a s events h = one_sent e a s events h
one_or_none false e a s events h = none_sent e.source_id a s events

module _ {X R S : Type 0} (input : Input X) (strings : Strings R S) where
  draw_button-Drawn :
      (b : ButtonComponent X) (s : S) (events : List UiEvent)
      → Fits (b.id ∷ []) events
      → Drawn (b.id ∷ []) events (draw_button {R = R} input strings b (s, events))
  unfolding draw_button
  draw_button-Drawn b s events h =
      one_or_none (input.clicked b.bounds b.text)
        (record { source_id = b.id; event_type = event_click }) (button b) s events h

  after_edit-Drawn :
      (t : TextBoxComponent X R) (s : S) (events : List UiEvent) (r : Bytes × Bool)
      → Fits (t.id ∷ []) events
      → Drawn (t.id ∷ []) events (after_edit input strings t (s, events) r)
  unfolding after_edit
  after_edit-Drawn t s events (content, changed) h =
      one_or_none changed (record { source_id = t.id; event_type = event_value_change })
        (text_box t) (strings.save t.text content s) events h

  draw_text_box-Drawn :
      (t : TextBoxComponent X R) (s : S) (events : List UiEvent)
      → Fits (t.id ∷ []) events
      → Drawn (t.id ∷ []) events (draw_text_box input strings t (s, events))
  unfolding draw_text_box focus
  draw_text_box-Drawn t s events h = after_edit-Drawn (focus input strings t) s events _ h

  mutual
    unfolding draw controls

    draws :
        (c : RgComponent X R) (s : S) (events : List UiEvent)
        → Fits (controls c) events
        → Drawn (controls c) events (draw input strings c (s, events))
    draws (label l) s es h = nothing_sent (label l) s es
    draws (button b) s es h = draw_button-Drawn b s es h
    draws (text_box t) s es h = draw_text_box-Drawn t s es h
    draws (pot_display p) s es h = nothing_sent (pot_display p) s es
    draws (panel b color c) s es h = Drawn-wrap _ _ (draws c s es h)
    draws (center b c) s es h = Drawn-wrap _ _ (draws c s es h)
    draws (bounds_box b wide high c) s es h = Drawn-wrap _ _ (draws c s es h)
    draws (h_stack t) s es h = Drawn-wrap _ _ (draw_stack-Drawn t s es h)
    draws (v_stack t) s es h = Drawn-wrap _ _ (draw_stack-Drawn t s es h)
    draws (player_info b turn desc cards) s es h = Drawn-wrap _ _ (
        Drawn-in_turn _ (draw_stack input strings desc) (stack_controls cards) (stack_controls desc)
          es h (draw_stack-Drawn cards s es) (draw_stack-Drawn desc))
    draws (game_screen t river hand actions others pot) s es h = Drawn-wrap _ _ (
        Drawn-in_turn _ _ (maybe_controls pot) _ es h (draw_maybe-Drawn pot s es) λ s1 es1 h1.
          Drawn-in_turn _ _ (stack_controls river) _ es1 h1 (draw_stack-Drawn river s1 es1)
            λ s2 es2 h2.
              Drawn-in_turn _ _ (stack_controls others) _ es2 h2 (draw_stack-Drawn others s2 es2)
                λ s3 es3 h3.
                  Drawn-in_turn _ (draw_stack input strings actions) (stack_controls hand)
                    (stack_controls actions) es3 h3 (draw_stack-Drawn hand s3 es3)
                    (draw_stack-Drawn actions))

    draw_stack-Drawn :
        (t : Stack X R) (s : S) (events : List UiEvent)
        → Fits (stack_controls t) events
        → Drawn (stack_controls t) events (draw_stack input strings t (s, events))
    draw_stack-Drawn (stack b cs padding) s es h = Drawn-wrap _ _ (draw_children-Drawn cs s es h)

    draw_children-Drawn :
        (cs : Components X R) (s : S) (events : List UiEvent)
        → Fits (children_controls cs) events
        → Drawn (children_controls cs) events (draw_children input strings cs (s, events))
    draw_children-Drawn end s es h = nothing_sent end s es
    draw_children-Drawn (child c cs) s es h = Drawn-wrap _ _ (
        Drawn-in_turn _ (draw_children input strings cs) (controls c) (children_controls cs) es h
          (draws c s es) (draw_children-Drawn cs))

    draw_maybe-Drawn :
        (c : MaybeComponent X R) (s : S) (events : List UiEvent)
        → Fits (maybe_controls c) events
        → Drawn (maybe_controls c) events (draw_maybe input strings c (s, events))
    draw_maybe-Drawn absent s es h = nothing_sent absent s es
    draw_maybe-Drawn (present c) s es h = Drawn-wrap _ _ (draws c s es h)

  -- Drawing a component ends, whatever the input of the frame, if the channel has room for one
  -- event of each of its controls. It adds to the channel one event at most of each control, in the
  -- order of the controls, and nothing else.
  pub draw-Drawn :
      (c : RgComponent X R) (s : S) (events : List UiEvent)
      → Fits (controls c) events
      → Drawn (controls c) events (draw input strings c (s, events))
  draw-Drawn = draws
