-- ===== src/ExampleSensor.antt =====
-- drivers/sensor/example_sensor/example_sensor.c: a sensor that reads one pin, and
-- lib/custom/custom.c. The pin is a parameter over a state `W`.
mod Runs
use sdkz.Common.{
  ℕ, ◌≡◌, refl, Bool, true, false, if◌then◌else◌, ◌==◌, List, [], ◌∷◌, Bool-cases, inl, inr,
}
use sdkz.Common.Int.{ℤ, pos, neg, ltb_ℤ, eq_ℤ}

-- ENODEV and ENOTSUP of <errno.h>.
abbrev pub sensor_enodev : ℕ
sensor_enodev = 19

abbrev pub sensor_enotsup : ℕ
sensor_enotsup = 134

-- <zephyr/drivers/gpio.h>, on the sensor's pin.
pub record InputPin (W : Type 0) : Type 0 where
  pub port_ready : Bool
  pub configure_input : W → ℤ × W
  pub pin_get : W → ℤ × W

-- `struct example_sensor_data`, with the state behind the pin.
pub record Sensor (W : Type 0) : Type 0 where
  pub state : ℤ
  pub pin : W

module _ {W : Type 0} (input : InputPin W) where
  -- The channel does not matter, and the result is 0 also where the pin cannot be read.
  unfoldable pub sample_fetch : ℕ → Sensor W → ℤ × Sensor W
  sample_fetch chan s =
      let (value, w) = input.pin_get s.pin in (pos 0, record { state = value; pin = w })

  unfoldable pub sensor_init : W → ℤ × W
  sensor_init w =
      let (ret, w') = input.configure_input w in
      if input.port_ready
      then (if ltb_ℤ ret (pos 0) then ret else pos 0, w')
      else (neg (pos sensor_enodev), w)

-- `prox` is SENSOR_CHAN_PROX; `val1` is the field that is written.
unfoldable pub channel_get : {W : Type 0} → (prox chan : ℕ) (val1 : ℤ) → Sensor W → ℤ × ℤ
channel_get prox chan val1 s =
    if chan == prox then (pos 0, s.state) else (neg (pos sensor_enotsup), val1)

-- CONFIG_CUSTOM_GET_VALUE_DEFAULT is a parameter.
unfoldable pub custom_get_value : ℤ → ℤ → ℤ
custom_get_value default val = if eq_ℤ val (pos 0) then default else val

-- Fetches of any channels, one after another.
abbrev pub fetch_all : {W : Type 0} → InputPin W → List ℕ → Sensor W → Sensor W
fetch_all input [] s = s
fetch_all input (chan ∷ chans) s = fetch_all input chans (sample_fetch input chan s).1

abbrev pub last_read : {W : Type 0} → InputPin W → List ℕ → ℤ → W → ℤ
last_read input [] value w = value
last_read input (chan ∷ chans) value w =
    last_read input chans (input.pin_get w).0 (input.pin_get w).1

-- After any fetches, the proximity channel has what the last of them read of the pin, an error's
-- number too, and every other channel is refused and writes nothing.
pub channel_get-fetch_all :
    {W : Type 0} (input : InputPin W) (prox chan : ℕ) (chans : List ℕ) (val1 : ℤ) (s : Sensor W)
    → channel_get prox chan val1 (fetch_all input chans s) ≡ (
        if chan == prox
        then (pos 0, last_read input chans s.state s.pin)
        else (neg (pos sensor_enotsup), val1))
unfolding channel_get sample_fetch
channel_get-fetch_all input prox chan [] val1 s = refl
channel_get-fetch_all input prox chan (c ∷ chans) val1 s =
    channel_get-fetch_all input prox chan chans val1 (sample_fetch input c s).1
