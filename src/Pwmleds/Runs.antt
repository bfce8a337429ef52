-- ===== src/Pwmleds/Runs.antt =====
-- A PWM that accepts periods of at most 300.
use sdkz.Common.{ℕ, ◌+◌, ◌≡◌, true, some, List, arith, leb, if◌then◌else◌}
use sdkz.Common.Int.{pos, negsuc}
use sdkz.Pwmleds.{PwmSet, calibrate, start_pwmleds}
use sdkz.Pwmleds.Periods.{Blinks, start_pwmleds-Blinks}

-- The state counts the calls.
abbrev pwm : PwmSet ℕ
pwm period pulse w = (if leb period 300 then pos 0 else negsuc 0, w + 1)

start_pwmleds-Blinks_example :
    (periods : List ℕ) × (w' : ℕ) × (start_pwmleds pwm 1001 9 true 1000 0 ≡ some (periods, w'))
    × Blinks pwm 1000 (calibrate pwm 1001 1000 1000 0) periods
start_pwmleds-Blinks_example =
    start_pwmleds-Blinks pwm 1001 9 1000 true 0 (omega arith) (omega arith) (omega arith)
