-- ===== src/Pwmleds/Periods.antt =====
-- The periods of the calibration and of the blinking.
use sdkz.Common.{
  ℕ, zero, suc, ◌*◌, ◌/◌, ◌^◌, ◌≤◌, ◌<◌, ◌≡◌, ◌⊎◌, refl, Bool, false, some, List, [], ltb, All,
  arith, Bool-cases, inl, inr, ltb_false→le, le→ltb_false,
}
use sdkz.Common.Int.{pos, eq_ℤ}
use sdkz.Pwmleds.{
  PwmSet, Calibrated, done, unsupported, running, calibrate, min_period, Blink, bounded, next_blink,
  blink, after_calibration, start_pwmleds,
}

-- A period that the hardware accepted, of at most four times the shortest, or that it is given up.
abbrev Ends : {W : Type 0} → ℕ → Calibrated W → Type 0
Ends led_period (done max_period w) =
    (4 * min_period led_period ≤ max_period) × (max_period ≤ led_period)
Ends led_period (unsupported w) = Unit {0}
Ends led_period running = ⊥

module _ {W : Type 0} (pwm_set : PwmSet W) where
  calibrate_from :
      (fuel led_period max_period : ℕ) (w : W)
      → 50 ≤ led_period
      → max_period < fuel
      → 4 * min_period led_period ≤ max_period
      → max_period ≤ led_period
      → Ends led_period (calibrate pwm_set fuel led_period max_period w)
  unfolding calibrate
  calibrate_from zero led_period max_period w least enough low high = absurd (omega arith)
  calibrate_from (suc fuel) led_period max_period w least enough low high =
      elim (Bool-cases (eq_ℤ (pwm_set max_period (max_period / 2) w).0 (pos 0))) [
        | inl accepted ↦ rw accepted (low, high)
        | inr refused ↦
            rw refused (elim (Bool-cases (ltb (max_period / 2) (4 * min_period led_period))) [
              | inl too_low ↦ rw too_low tt
              | inr more ↦ rw more (
                  calibrate_from fuel led_period (max_period / 2)
                    (pwm_set max_period (max_period / 2) w).1 least (omega arith)
                    (ltb_false→le _ _ more) (omega arith))
            ])
      ]

  -- With a period of at least 50, the calibration ends within as many rounds as the period has
  -- nanoseconds, and one more: it accepts a period of at least four times the shortest and at most
  -- the first, or finds that there is none.
  calibrate-Ends :
      (fuel led_period : ℕ) (w : W)
      → 50 ≤ led_period
      → led_period < fuel
      → Ends led_period (calibrate pwm_set fuel led_period led_period w)
  calibrate-Ends fuel led_period w least enough =
      calibrate_from fuel led_period led_period w least enough (omega arith) (omega arith)

  -- With a period below 50 the bound of the loop is 0, and hardware that accepts no period keeps
  -- the calibration going for ever.
  calibrate-running :
      (fuel led_period max_period : ℕ) (w : W)
      → ((period pulse : ℕ) (w : W) → eq_ℤ (pwm_set period pulse w).0 (pos 0) ≡ false)
      → led_period < 50
      → calibrate pwm_set fuel led_period max_period w ≡ running
  unfolding calibrate
  calibrate-running zero led_period max_period w refused low = refl
  calibrate-running (suc fuel) led_period max_period w refused low =
      rw
        (
          refused max_period (max_period / 2) w,
          le→ltb_false (max_period / 2) (4 * min_period led_period) (omega arith),
        )
        (calibrate-running fuel led_period (max_period / 2)
          (pwm_set max_period (max_period / 2) w).1 refused low)

abbrev pub Between : ℕ → ℕ → ℕ → Type 0
Between led_period max_period period = (min_period led_period ≤ period) × (period ≤ max_period)

bounded-Between :
    (led_period max_period period : ℕ) (up : Bool)
    → 4 * min_period led_period ≤ max_period
    → max_period < 2 ^ 32
    → Between led_period max_period (bounded led_period max_period period up).period
bounded-Between led_period max_period period up low high =
    elim (Bool-cases (ltb max_period period)) [
      | inl above ↦ rw above (omega arith, omega arith)
      | inr not_above ↦ rw not_above (elim (Bool-cases (ltb period (min_period led_period))) [
        | inl below ↦ rw below (omega arith, omega arith)
        | inr not_below ↦ rw not_below (ltb_false→le _ _ not_below, ltb_false→le _ _ not_above)
      ])
    ]

next_blink-Between :
    (led_period max_period : ℕ) (b : Blink)
    → 4 * min_period led_period ≤ max_period
    → max_period < 2 ^ 32
    → Between led_period max_period (next_blink led_period max_period b).period
unfolding next_blink
next_blink-Between led_period max_period b low high =
    bounded-Between led_period max_period _ b.up low high

module _ {W : Type 0} (pwm_set : PwmSet W) where
  blink-Between :
      (rounds led_period max_period : ℕ) (b : Blink) (w : W)
      → 4 * min_period led_period ≤ max_period
      → max_period < 2 ^ 32
      → Between led_period max_period b.period
      → All (Between led_period max_period) (blink pwm_set rounds led_period max_period b w).0
  unfolding blink
  blink-Between zero led_period max_period b w low high within = tt
  blink-Between (suc rounds) led_period max_period b w low high within =
      elim (Bool-cases (eq_ℤ (pwm_set b.period (b.period / 2) w).0 (pos 0))) [
        | inl set ↦ rw set (
          within,
          blink-Between rounds led_period max_period (next_blink led_period max_period b)
              (pwm_set b.period (b.period / 2) w).1 low high
              (next_blink-Between led_period max_period b low high),
        )
        | inr failed ↦ rw failed (within, tt)
      ]

  -- The thread sets no period, or it sets only periods between the LED's shortest and the one that
  -- the calibration found, which the hardware accepted.
  abbrev pub Blinks : ℕ → Calibrated W → List ℕ → Type 0
  Blinks led_period c periods =
      (periods ≡ [])
      ⊎ ((max_period : ℕ) × (w : W) × (c ≡ done max_period w)
          × (max_period ≤ led_period)
          × All (Between led_period max_period) periods)

  after_calibration-Blinks :
      (rounds led_period : ℕ) (c : Calibrated W)
      → led_period < 2 ^ 32
      → Ends led_period c
      → (periods : List ℕ) × (w' : W) × (after_calibration pwm_set rounds led_period c
          ≡ some (periods, w'))
        × Blinks led_period c periods
  after_calibration-Blinks rounds led_period (done max_period w) high (low, le) =
      let b : Blink = record { period = max_period; up = false } in
      (
        (blink pwm_set rounds led_period max_period b w).0,
        (blink pwm_set rounds led_period max_period b w).1,
        refl,
        inr (
          max_period,
          w,
          refl,
          le,
          blink-Between rounds led_period max_period b w low (omega arith)
              (omega arith, omega arith),
        ),
      )
  after_calibration-Blinks rounds led_period (unsupported w) high ends = ([], w, refl, inl refl)
  after_calibration-Blinks rounds led_period running high ends = absurd ends

  -- Whatever the hardware accepts, with a period of at least 50 the thread comes to its blinking or
  -- to its end: it sets no period behind the calibration, or every period that it then sets is
  -- between a fiftieth of the LED's period and the period that the calibration found.
  pub start_pwmleds-Blinks :
      (fuel rounds led_period : ℕ) (ready : Bool) (w : W)
      → 50 ≤ led_period
      → led_period < 2 ^ 32
      → led_period < fuel
      → (periods : List ℕ) × (w' : W) × (start_pwmleds pwm_set fuel rounds ready led_period w
          ≡ some (periods, w'))
        × Blinks led_period (calibrate pwm_set fuel led_period led_period w) periods
  unfolding start_pwmleds
  start_pwmleds-Blinks fuel rounds led_period ready w least high enough = elim (Bool-cases ready) [
    | inl yes_ready ↦ rw yes_ready (
        after_calibration-Blinks rounds led_period (calibrate pwm_set fuel led_period led_period w)
          high (calibrate-Ends pwm_set fuel led_period w least enough))
    | inr not_ready ↦ rw not_ready ([], w, refl, inl refl)
  ]
