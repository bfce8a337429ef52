-- ===== src/Blink.antt =====
-- drivers/blink/gpio_led.c: a LED that a timer toggles. The pin and the timer are parameters over
-- a state `W`.
mod Runs
use sdkz.Common.{
  ℕ, zero, suc, ◌≡◌, ◌⊎◌, refl, sym, ap, ◌∙◌, Bool, true, false, not, Option, none, some, List, [],
  ◌∷◌, ◌==◌, ltb, if◌then◌else◌, Bool-cases, inl, inr, ne→==_false, arith,
}
use mathlib.Core.Option.{none-ne-some}
use sdkz.Common.Int.{ℤ, pos, negsuc, neg, ltb_ℤ}

-- <zephyr/drivers/gpio.h> and the timer of <zephyr/kernel.h>, which expires once a period.
pub record Ops (W : Type 0) : Type 0 where
  pub is_ready : Bool
  pub configure : W → ℤ × W
  pub set_pin : ℕ → W → ℤ × W
  pub toggle : W → ℤ × W
  pub timer_init : W → W
  pub timer_start : ℕ → W → W
  pub timer_stop : W → W

-- ENODEV of <errno.h>.
abbrev enodev : ℕ
enodev = 19

module _ {W : Type 0} (ops : Ops W) where
  -- What the expiry changes; a failure is only logged.
  unfoldable pub on_timer_expire : W → W
  on_timer_expire w = (ops.toggle w).1

  unfoldable pub set_period_ms : ℕ → W → ℤ × W
  set_period_ms period_ms w =
      if period_ms == 0
      then ops.set_pin 0 (ops.timer_stop w)
      else (pos 0, ops.timer_start period_ms w)

  abbrev on_configured : ℕ → ℤ × W → ℤ × W
  on_configured period_ms (ret, w) = if ltb_ℤ ret (pos 0) then (ret, w) else (
    pos 0,
    if ltb 0 period_ms then ops.timer_start period_ms (ops.timer_init w) else ops.timer_init w,
  )

  -- `blink_gpio_led_init`, with the period of the device's configuration.
  unfoldable pub blink_gpio_led_init : ℕ → W → ℤ × W
  blink_gpio_led_init period_ms w =
      if ops.is_ready then on_configured period_ms (ops.configure w) else (neg (pos enodev), w)

-- `timer` is the period of the timer that runs, and `lit` is whether the LED is on; the pin is one
-- that can be set.
pub record IsOps {W : Type 0} (ops : Ops W) (timer : W → Option ℕ) (lit : W → Bool) : Type 0 where
  pub set_timer : (b : ℕ) (w : W) → timer (ops.set_pin b w).1 ≡ timer w
  pub set_lit : (w : W) → lit (ops.set_pin 0 w).1 ≡ false
  pub toggle_timer : (w : W) → timer (ops.toggle w).1 ≡ timer w
  pub start_timer : (n : ℕ) (w : W) → timer (ops.timer_start n w) ≡ some n
  pub stop_timer : (w : W) → timer (ops.timer_stop w) ≡ none

-- What happens to the device, with the period that was last asked for: a call of set_period_ms, or
-- the timer expires, which it does only where it runs.
pub data Step {W : Type 0} (ops : Ops W) (timer : W → Option ℕ) : ℕ × W → ℕ × W → Type 0 where
  period : (last n : ℕ) (w : W) → Step ops timer (last, w) (n, (set_period_ms ops n w).1)
  expire :
      (last n : ℕ) (w : W)
      → timer w ≡ some n
      → Step ops timer (last, w) (last, on_timer_expire ops w)

pub data Steps {W : Type 0} (ops : Ops W) (timer : W → Option ℕ) : ℕ × W → ℕ × W → Type 0 where
  here : (s : ℕ × W) → Steps ops timer s s
  after : (s s' s'' : ℕ × W) → Step ops timer s s' → Steps ops timer s' s'' → Steps ops timer s s''

-- A period of 0 is that the timer does not run.
abbrev pub as_timer : ℕ → Option ℕ
as_timer zero = none
as_timer (suc n) = some (suc n)

-- The timer is the one that was last asked for, and without one the LED is off.
pub record Follows {W : Type 0} (timer : W → Option ℕ) (lit : W → Bool) (s : ℕ × W) : Type 0 where
  pub asked : timer s.1 ≡ as_timer s.0
  pub dark : timer s.1 ≡ none → lit s.1 ≡ false

module _ {W : Type 0} (ops : Ops W) (timer : W → Option ℕ) (lit : W → Bool)
    (is_ops : IsOps ops timer lit) where
  set_period_ms-Follows : (n : ℕ) (w : W) → Follows timer lit (n, (set_period_ms ops n w).1)
  unfolding set_period_ms
  set_period_ms-Follows zero w = record {
    asked = is_ops.set_timer 0 (ops.timer_stop w) ∙ is_ops.stop_timer w;
    dark = λ stopped. is_ops.set_lit (ops.timer_stop w);
  }
  set_period_ms-Follows (suc n) w =
      let started = is_ops.start_timer (suc n) w in
      rw (ne→==_false (suc n) 0 (omega arith)) record {
        asked = started;
        dark = λ stopped. absurd (none-ne-some _ (sym stopped ∙ started));
      }

  Step-Follows : (s s' : ℕ × W) → Step ops timer s s' → Follows timer lit s → Follows timer lit s'
  unfolding on_timer_expire
  Step-Follows _ _ (period last n w) follows = set_period_ms-Follows n w
  Step-Follows _ _ (expire last n w runs) follows =
      let same = is_ops.toggle_timer w in
      record {
        asked = same ∙ follows.asked;
        dark = λ stopped. absurd (none-ne-some _ (sym stopped ∙ (same ∙ runs)));
      }

  -- Whatever calls of set_period_ms and expiries come, and in whatever order: the timer runs with
  -- the period of the last call, where that was not 0, and else does not run and the LED is off,
  -- if it was so before; for a pin that can be set.
  pub Steps-Follows :
      (s s' : ℕ × W) → Steps ops timer s s' → Follows timer lit s → Follows timer lit s'
  Steps-Follows _ _ (here s) follows = follows
  Steps-Follows _ _ (after s s' s'' step steps) follows =
      Steps-Follows s' s'' steps (Step-Follows s s' step follows)
