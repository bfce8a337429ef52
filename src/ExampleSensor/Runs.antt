-- ===== src/ExampleSensor/Runs.antt =====
-- A pin that counts its reads, and the inputs of the library's test.
use sdkz.Common.{ℕ, suc, ◌≡◌, refl, true, [], ◌∷◌}
use sdkz.Common.Int.{pos, negsuc}
use sdkz.ExampleSensor.{
  InputPin, Sensor, sensor_init, channel_get, fetch_all, custom_get_value, sample_fetch,
}

abbrev input : InputPin ℕ
input = record {
  port_ready = true;
  configure_input = λ w. (negsuc 4, w);
  pin_get = λ w. (pos w, suc w);
}

abbrev sensor : Sensor ℕ
sensor = record { state = pos 0; pin = 5 }

-- 17 is the proximity channel here.
third_read : channel_get 17 17 (pos 9) (fetch_all input (17 ∷ 3 ∷ 17 ∷ []) sensor) ≡ (pos 0, pos 7)
unfolding channel_get sample_fetch
third_read = refl

init_refused : (sensor_init input 5).0 ≡ negsuc 4
unfolding sensor_init
init_refused = refl

custom_zero : custom_get_value (pos 40) (pos 0) ≡ pos 40
unfolding custom_get_value
custom_zero = refl

custom_negative : custom_get_value (pos 40) (negsuc 0) ≡ negsuc 0
unfolding custom_get_value
custom_negative = refl
