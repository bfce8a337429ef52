-- ===== src/AppMain/Led.antt =====
-- The loop of `main`, which blinks the LED.
use sdkz.Common.{
  twice, ℕ, zero, suc, ◌-◌, ◌/◌, ◌≡◌, refl, ap, Bool, false, List, [], ◌∷◌, if◌then◌else◌,
  Bool-cases, inl, inr,
}
use sdkz.Common.Int.{ℤ, pos, negsuc, ltb_ℤ, eq_ℤ}

abbrev pub sleep_time_ms : ℕ
sleep_time_ms = 1000

-- How a round ends: it goes on at once, or sleeps.
pub data Sleep : Type 0 where
  at_once : Sleep
  msec : ℕ → Sleep
  forever : Sleep

-- <zephyr/drivers/gpio.h>, on the LED's pin.
pub record Gpio (W : Type 0) : Type 0 where
  pub is_ready : Bool
  pub configure : W → ℤ × W
  pub toggle : W → ℤ × W

module _ {W : Type 0} (gpio : Gpio W) where
  abbrev pub configured : ℤ × W → ℤ × W
  configured (rc, w) = (if ltb_ℤ rc (pos 0) then negsuc 0 else pos 1, w)

  unfoldable pub init_led : W → ℤ × W
  init_led w = if gpio.is_ready then configured (gpio.configure w) else (negsuc 0, w)

  -- The round behind a toggle: `led_state`, the sleep, and the pin.
  abbrev pub toggled : ℤ → ℤ × W → ℤ × Sleep × W
  toggled led_state (rc, w) =
      if ltb_ℤ rc (pos 0)
      then (negsuc 0, at_once, w)
      else if eq_ℤ led_state (pos 0)
      then (pos 1, msec (sleep_time_ms / 10), w)
      else (pos 0, msec (sleep_time_ms - 100), w)

  abbrev pub led_round : ℤ → W → ℤ × Sleep × W
  led_round led_state w =
      if eq_ℤ led_state (negsuc 0)
      then (led_state, forever, w)
      else toggled led_state (gpio.toggle w)

  -- So many rounds, and how each ended.
  unfoldable pub led_loop : ℕ → ℤ → W → List Sleep
  led_loop zero led_state w = []
  led_loop (suc rounds) led_state w =
      let (led_state', sleep, w') = led_round led_state w in sleep ∷ led_loop rounds led_state' w'

  -- `main` from the LED on.
  unfoldable pub main_led : ℕ → W → List Sleep
  unfolding init_led led_loop
  main_led rounds w = let (led_state, w') = init_led w in led_loop rounds led_state w'

-- What is seen of a LED: nothing, or so many seconds of which each has it off for 900 ms.
abbrev seconds : ℕ → List Sleep
seconds zero = []
seconds (suc n) = msec 900 ∷ msec 100 ∷ seconds n

abbrev dark : ℕ → List Sleep
dark zero = []
dark (suc n) = forever ∷ dark n

module _ {W : Type 0} (gpio : Gpio W) where
  led_loop-dark : (n : ℕ) (w : W) → led_loop gpio n (negsuc 0) w ≡ dark n
  unfolding led_loop
  led_loop-dark zero w = refl
  led_loop-dark (suc n) w = ap (◌∷◌ forever) (led_loop-dark n w)

  led_loop-seconds :
      (n : ℕ) (w : W)
      → ((w : W) → ltb_ℤ (gpio.toggle w).0 (pos 0) ≡ false)
      → led_loop gpio (twice n) (pos 1) w ≡ seconds n
  unfolding led_loop
  led_loop-seconds zero w works = refl
  led_loop-seconds (suc n) w works =
      rw (works w, works (gpio.toggle w).1)
        (ap (λ l. msec 900 ∷ msec 100 ∷ l) (led_loop-seconds n _ works))

  configured-seconds :
      (n : ℕ) (r : ℤ × W)
      → ((w : W) → ltb_ℤ (gpio.toggle w).0 (pos 0) ≡ false)
      → led_loop gpio (twice n) (configured gpio r).0 (configured gpio r).1
        ≡ (if ltb_ℤ r.0 (pos 0) then dark (twice n) else seconds n)
  configured-seconds n (rc, w) works = elim (Bool-cases (ltb_ℤ rc (pos 0))) [
    | inl failed ↦ rw failed (led_loop-dark (twice n) w)
    | inr made ↦ rw made (led_loop-seconds n w works)
  ]

  -- Where toggling works, `main` blinks for ever, 900 ms and then 100 ms in every second, if the
  -- pin is ready and can be configured, and else sleeps for ever in each round.
  main_led-seconds :
      (n : ℕ) (w : W)
      → ((w : W) → ltb_ℤ (gpio.toggle w).0 (pos 0) ≡ false)
      → main_led gpio (twice n) w ≡ (
          if gpio.is_ready
          then (if ltb_ℤ (gpio.configure w).0 (pos 0) then dark (twice n) else seconds n)
          else dark (twice n))
  unfolding main_led init_led
  main_led-seconds n w works = elim (Bool-cases gpio.is_ready) [
    | inl ready ↦ rw ready (configured-seconds n (gpio.configure w) works)
    | inr not_ready ↦ rw not_ready (led_loop-dark (twice n) w)
  ]
