-- ===== src/Window/Draw/Events.antt =====
-- Which events drawing a component sends.
use kiv_ups.Prelude.{
  ◌+◌, ◌≤◌, ◌≡◌, refl, sym, ap, some, List, [], ◌∷◌, ◌++◌, append_assoc, append-nil, length,
  length-append, arith, Bytes,
}
use kiv_ups.Window.Component.{
  RgComponent, label, button, text_box, pot_display, panel, center, bounds_box, h_stack, v_stack,
  player_info, game_screen, Stack, stack, Components, end, child, MaybeComponent, absent, present,
}
use kiv_ups.Window.Draw.{UiEvent, event_chan_size, Drawing, wrap, in_turn}

module _ {X R : Type 0} where
  -- The IDs of the buttons and text boxes, in the order in which they are drawn.
  unfoldable mutual
    pub controls : RgComponent X R → List Bytes
    controls (label l) = []
    controls (button b) = b.id ∷ []
    controls (text_box t) = t.id ∷ []
    controls (pot_display p) = []
    controls (panel b color c) = controls c
    controls (center b c) = controls c
    controls (bounds_box b wide high c) = controls c
    controls (h_stack s) = stack_controls s
    controls (v_stack s) = stack_controls s
    controls (player_info b turn desc cards) = stack_controls cards ++ stack_controls desc
    controls (game_screen s river hand actions others pot) =
        maybe_controls pot
        ++ (stack_controls river
            ++ (stack_controls others ++ (stack_controls hand ++ stack_controls actions)))

    pub stack_controls : Stack X R → List Bytes
    stack_controls (stack b cs padding) = children_controls cs

    pub children_controls : Components X R → List Bytes
    children_controls end = []
    children_controls (child c cs) = controls c ++ children_controls cs

    pub maybe_controls : MaybeComponent X R → List Bytes
    maybe_controls absent = []
    maybe_controls (present c) = controls c

-- The events are those of some of these controls, in their order, and one of each at most.
pub data Picked : List Bytes → List UiEvent → Type 0 where
  picked_none : Picked [] []
  skip :
      (i : Bytes) {ids : List Bytes} {events : List UiEvent}
      → Picked ids events
      → Picked (i ∷ ids) events
  pick :
      (e : UiEvent) {ids : List Bytes} {events : List UiEvent}
      → Picked ids events
      → Picked (e.source_id ∷ ids) (e ∷ events)

Picked-append :
    {is js : List Bytes} {xs ys : List UiEvent}
    → Picked is xs
    → Picked js ys
    → Picked (is ++ js) (xs ++ ys)
Picked-append picked_none q = q
Picked-append (skip i p) q = skip i (Picked-append p q)
Picked-append (pick e p) q = pick e (Picked-append p q)

pub length-Picked : {ids : List Bytes} {xs : List UiEvent} → Picked ids xs → length xs ≤ length ids
length-Picked picked_none = omega arith
length-Picked (skip i p) = omega (arith, length-Picked p)
length-Picked (pick e p) = omega (arith, length-Picked p)

-- A drawing that ends, and adds events of these controls to those in the channel.
pub record Drawn {S A : Type 0} (ids : List Bytes) (events : List UiEvent) (drawing : Drawing S A)
    : Type 0 where
  pub left : A
  pub store : S
  pub sent : List UiEvent
  pub drawn : drawing ≡ some (left, (store, events ++ sent))
  pub picked : Picked ids sent

-- The channel has room for an event of each of them.
abbrev pub Fits : List Bytes → List UiEvent → Type 0
Fits ids events = length events + length ids ≤ event_chan_size

module _ {S A : Type 0} where
  pub nothing_sent :
      (a : A) (s : S) (events : List UiEvent) → Drawn [] events (some (a, (s, events)))
  nothing_sent a s events = record {
    left = a;
    store = s;
    sent = [];
    drawn = ap (λ es. some (a, (s, es))) (sym (append-nil events));
    picked = picked_none;
  }

module _ {S A B : Type 0} where
  pub Drawn-wrap :
      (f : A → B) (d : Drawing S A) {ids : List Bytes} {events : List UiEvent}
      → Drawn ids events d
      → Drawn ids events (wrap f d)
  Drawn-wrap f d p = record {
    left = f p.left;
    store = p.store;
    sent = p.sent;
    drawn = unfold wrap in rw p.drawn refl;
    picked = p.picked;
  }

  pub Drawn-in_turn :
      (d : Drawing S A) (k : S × List UiEvent → Drawing S B) (is js : List Bytes)
      (events : List UiEvent)
      → Fits (is ++ js) events
      → (Fits is events → Drawn is events d)
      → ((s : S) (es : List UiEvent) → Fits js es → Drawn js es (k (s, es)))
      → Drawn (is ++ js) events (in_turn d k)
  Drawn-in_turn d k is js events fits p q =
      let first = p (omega (arith, fits, length-append is js)) in
      let second = q first.store (events ++ first.sent) (
        omega (
          arith,
          fits,
          length-append is js,
          length-append events first.sent,
          length-Picked first.picked,
        )) in
      record {
        left = (first.left, second.left);
        store = second.store;
        sent = first.sent ++ second.sent;
        drawn =
            unfold in_turn wrap in
            rw (first.drawn, second.drawn)
              (ap (λ es. some ((first.left, second.left), (second.store, es)))
                (append_assoc events first.sent second.sent));
        picked = Picked-append first.picked second.picked;
      }
