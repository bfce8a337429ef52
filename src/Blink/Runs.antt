-- ===== src/Blink/Runs.antt =====
-- A pin and a timer, as the state.
use sdkz.Common.{ℕ, refl, Bool, true, false, not, Option, none, some}
use sdkz.Common.Int.{pos}
use sdkz.Blink.{
  Ops, IsOps, Follows, here, after, period, expire, set_period_ms, on_timer_expire, Steps-Follows,
}

record Led : Type 0 where
  timer : Option ℕ
  lit : Bool

abbrev led : Ops Led
led = record {
  is_ready = true;
  configure = λ w. (pos 0, record w { lit = false });
  set_pin = λ b w. (pos 0, record w { lit = false });
  toggle = λ w. (pos 0, record w { lit = not w.lit });
  timer_init = λ w. w;
  timer_start = λ n w. record w { timer = some n };
  timer_stop = λ w. record w { timer = none };
}

abbrev timer_of : Led → Option ℕ
timer_of w = w.timer

abbrev lit_of : Led → Bool
lit_of w = w.lit

led-IsOps : IsOps led timer_of lit_of
led-IsOps = record {
  set_timer = λ b w. refl;
  set_lit = λ w. refl;
  toggle_timer = λ w. refl;
  start_timer = λ n w. refl;
  stop_timer = λ w. refl;
}

abbrev off : Led
off = record { timer = none; lit = false }

abbrev running : Led
running = (set_period_ms led 500 off).1

abbrev lighted : Led
lighted = on_timer_expire led running

abbrev stopped : Led
stopped = (set_period_ms led 0 lighted).1

Steps-Follows_example : Follows timer_of lit_of (0, stopped)
unfolding set_period_ms
Steps-Follows_example =
    Steps-Follows led timer_of lit_of led-IsOps (0, off) (0, stopped)
      (after (0, off) (500, running) (0, stopped) (period 0 500 off)
        (after (500, running) (500, lighted) (0, stopped) (expire 500 500 running refl)
          (after (500, lighted) (0, stopped) (0, stopped) (period 500 0 lighted)
            (here (0, stopped)))))
      record { asked = refl; dark = λ e. refl }
