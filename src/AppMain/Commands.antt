-- ===== src/AppMain/Commands.antt =====
-- The commands "ver" and "reboot". The kernel is a parameter over the state `W`.
use sdkz.Common.{ℕ, Bool, Option, some, List, [], ◌∷◌, ◌>>=◌, if◌then◌else◌}
use sdkz.Hupacket.{Hup, Env}
use sdkz.Hupacket.Respond.{reply, ack_response, send_buffer}

-- `palloc` of a timer, its start with the function that reboots, and the reboot.
pub record Kernel (W : Type 0) : Type 0 where
  pub log_flush : W → W
  pub find_timer : W → Bool × W
  pub start_timer : ℕ → W → W
  pub reboot : W → W

module _ {W : Type 0} (env : Env W) where
  -- `_ver`, with the three strings of the build.
  unfoldable pub ver : (app_version kernel_version build_time : List ℕ) → Hup → W → Option (Hup × W)
  unfolding reply
  ver app_version kernel_version build_time h w =
      reply env (app_version ∷ kernel_version ∷ build_time ∷ []) h w

  abbrev reboot_later : Kernel W → Bool × W → W
  reboot_later kernel (found, w) = if found then kernel.start_timer 1500 w else kernel.reboot w

  unfoldable pub reboot : Kernel W → Hup → W → Option (Hup × W)
  unfolding ack_response send_buffer
  reboot kernel h w = do
    h ← ack_response env h
    (_, h, w) ← send_buffer env h w
    some (h, reboot_later kernel (kernel.find_timer (kernel.log_flush w)))
