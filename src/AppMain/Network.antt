-- ===== src/AppMain/Network.antt =====
-- `event_handler`, which keeps `app.connected`.
use sdkz.Common.{
  ℕ, ◌≡◌, refl, sym, ap, subst, ==→eq, ==-refl, ◌∙◌, Bool, true, false, not, List, [], ◌∷◌, ◌==◌,
  bit_and, bit_or, if◌then◌else◌, Bool-cases, inl, inr,
}

-- The two events of <zephyr/net/net_event.h>, bits of their layer's code.
module _ (l4_connected l4_disconnected : ℕ) where
  abbrev pub event_mask : ℕ
  event_mask = bit_or l4_connected l4_disconnected

  unfoldable pub event_handler : ℕ → Bool → Bool
  event_handler mgmt_event connected =
      if not (bit_and mgmt_event event_mask == mgmt_event)
      then connected
      else if mgmt_event == l4_connected
      then (if not connected then true else connected)
      else if mgmt_event == l4_disconnected
      then (if connected then false else connected)
      else connected

  abbrev pub handle_events : List ℕ → Bool → Bool
  handle_events [] connected = connected
  handle_events (e ∷ events) connected = handle_events events (event_handler e connected)

  -- What the last of the two events was.
  abbrev pub last_said : List ℕ → Bool → Bool
  last_said [] connected = connected
  last_said (e ∷ events) connected =
      last_said events
        (if e == l4_connected then true else if e == l4_disconnected then false else connected)

  module _ (connected_masked : bit_and l4_connected event_mask ≡ l4_connected)
      (disconnected_masked : bit_and l4_disconnected event_mask ≡ l4_disconnected) where
    masked :
        (e event : ℕ)
        → bit_and event event_mask ≡ event
        → (e == event) ≡ true
        → (bit_and e event_mask == e) ≡ true
    masked e event h same =
        subst (λ x. (bit_and x event_mask == x) ≡ true) (sym (==→eq e event same))
          (subst (λ x. (x == event) ≡ true) (sym h) (==-refl event))

    event_handler_said :
        (e : ℕ) (connected : Bool)
        → event_handler e connected
          ≡ (if e == l4_connected then true else if e == l4_disconnected then false else connected)
    unfolding event_handler
    event_handler_said e connected = elim (Bool-cases (e == l4_connected)) [
      | inl up ↦ rw (up, masked e l4_connected connected_masked up) (stays connected)
      | inr not_up ↦ rw not_up (elim (Bool-cases (e == l4_disconnected)) [
        | inl down ↦ rw (down, masked e l4_disconnected disconnected_masked down) (leaves connected)
        | inr not_down ↦ rw not_down (either_way (not (bit_and e event_mask == e)) connected)
      ])
    ]
      where
        stays : (b : Bool) → (if not b then true else b) ≡ true
        stays true = refl
        stays false = refl

        leaves : (b : Bool) → (if b then false else b) ≡ false
        leaves true = refl
        leaves false = refl

        either_way : (b c : Bool) → (if b then c else c) ≡ c
        either_way true c = refl
        either_way false c = refl

    -- Where both events are within the mask, `app.connected` is, after any events, what the last
    -- of the two events said, and what it was where neither came.
    pub event_handler-last_said :
        (events : List ℕ) (connected : Bool)
        → handle_events events connected ≡ last_said events connected
    event_handler-last_said [] connected = refl
    event_handler-last_said (e ∷ events) connected =
        event_handler-last_said events (event_handler e connected)
        ∙ ap (last_said events) (event_handler_said e connected)
