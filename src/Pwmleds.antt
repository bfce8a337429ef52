-- ===== src/Pwmleds.antt =====
-- app/src/pwmleds.c: the thread that finds a period that the PWM hardware accepts, and then
-- blinks, slower and faster. Setting a period is a parameter over the hardware's state `W`.
pub mod Periods
mod Runs
use sdkz.Common.{
  ℕ, zero, suc, ◌-◌, ◌*◌, ◌/◌, ◌%◌, ◌^◌, Bool, true, false, Option, none, some, List, [], ◌∷◌, ltb,
  if◌then◌else◌,
}
use sdkz.Common.Int.{ℤ, pos, eq_ℤ}

abbrev pub min_scale : ℕ
min_scale = 50

-- `pwm_set_dt(&pwm_led, period, pulse)`.
abbrev pub PwmSet : Type 0 → Type 0
PwmSet W = ℕ → ℕ → W → ℤ × W

-- The shortest period of the loop.
abbrev pub min_period : ℕ → ℕ
min_period led_period = led_period / min_scale

-- What the calibration comes to: a period, or none that the hardware accepts.
pub data Calibrated (W : Type 0) : Type 0 where
  done : ℕ → W → Calibrated W
  unsupported : W → Calibrated W
  running : Calibrated W

module _ {W : Type 0} (pwm_set : PwmSet W) where
  -- The first loop; `running` is that the fuel has run out.
  unfoldable pub calibrate : ℕ → ℕ → ℕ → W → Calibrated W
  calibrate zero led_period max_period w = running
  calibrate (suc fuel) led_period max_period w =
      let (rc, w') = pwm_set max_period (max_period / 2) w in
      let half = max_period / 2 in
      let rest = calibrate fuel led_period half w' in
      if eq_ℤ rc (pos 0)
      then done max_period w'
      else if ltb half (4 * min_period led_period)
      then unsupported w'
      else rest

-- The loop's `period` and `dir`.
pub record Blink : Type 0 where
  pub period : ℕ
  pub up : Bool

-- The next period, a uint32_t, and its two bounds.
abbrev pub bounded : ℕ → ℕ → ℕ → Bool → Blink
bounded led_period max_period period up =
    if ltb max_period period
    then record { period = max_period / 2; up = false }
    else if ltb period (min_period led_period)
    then record { period = min_period led_period * 2 % 2 ^ 32; up = true }
    else record { period = period; up = up }

unfoldable pub next_blink : ℕ → ℕ → Blink → Blink
next_blink led_period max_period b =
    bounded led_period max_period (if b.up then b.period * 2 % 2 ^ 32 else b.period / 2) b.up

module _ {W : Type 0} (pwm_set : PwmSet W) where
  -- The second loop, so many rounds of it: the periods that it sets, one after another.
  unfoldable pub blink : ℕ → ℕ → ℕ → Blink → W → List ℕ × W
  unfolding next_blink
  blink zero led_period max_period b w = ([], w)
  blink (suc rounds) led_period max_period b w =
      let (rc, w') = pwm_set b.period (b.period / 2) w in
      let (periods, w'') =
        blink rounds led_period max_period (next_blink led_period max_period b) w' in
      if eq_ℤ rc (pos 0) then (b.period ∷ periods, w'') else (b.period ∷ [], w')

  abbrev pub after_calibration : ℕ → ℕ → Calibrated W → Option (List ℕ × W)
  after_calibration rounds led_period (done max_period w) =
      some (blink rounds led_period max_period (record { period = max_period; up = false }) w)
  after_calibration rounds led_period (unsupported w) = some ([], w)
  after_calibration rounds led_period running = none

  -- `start_pwmleds`, with `ready` for the device; `none` is that the calibration goes on.
  unfoldable pub start_pwmleds : ℕ → ℕ → Bool → ℕ → W → Option (List ℕ × W)
  unfolding calibrate blink
  start_pwmleds fuel rounds ready led_period w =
      if ready
      then after_calibration rounds led_period (calibrate pwm_set fuel led_period led_period w)
      else some ([], w)
