-- ===== src/HupServer.antt =====
-- app/src/hup_server.c: the thread that hands what a transport receives to hupacket.c. The
-- transport is a parameter: `T` is its receiving side, and `W` all that handlers and sends change.
pub mod Lifetime
pub mod Memory
pub mod Serve
pub mod OverUart
mod Runs
use sdkz.Common.{ℕ, zero, suc, Option, none, some, List, take}
use sdkz.Common.Int.{ℤ, pos, negsuc}
use sdkz.Hupacket.{Hup, Env}
use sdkz.Hupacket.Receive.{Handler, process_hupacket}

-- `stopped` is that the loop was left, `running` that the fuel has run out, and `fault` that
-- hupacket.c reads or stores outside of an array.
pub data Served (T W : Type 0) : Type 0 where
  stopped : Hup → T → W → Served T W
  running : Hup → T → W → Served T W
  fault : Served T W

abbrev pub on_packet {ℓ} : {A : Type ℓ} {W : Type 0} → A → (Hup → W → A) → Option (Hup × W) → A
on_packet failed f none = failed
on_packet failed f (some (h, w)) = f h w

-- An error, nothing, or so many bytes.
abbrev pub on_received {ℓ} : {A : Type ℓ} → ℤ → A → A → (ℕ → A) → A
on_received (negsuc e) failed nothing f = failed
on_received (pos zero) failed nothing f = nothing
on_received (pos (suc n)) failed nothing f = f (suc n)

module _ {T W : Type 0} (recv : T → ℤ × List ℕ × T) (env : Env W)
    (cmds resps : List (List ℕ × Handler W)) where
  -- `_hup_server`, a round of its loop for each unit of fuel. `recv` gives its result and what is
  -- in the buffer then.
  unfoldable pub hup_server : ℕ → Hup → T → W → Served T W
  unfolding process_hupacket
  hup_server zero h t w = running h t w
  hup_server (suc fuel) h t w =
      let (received, buffer, t') = recv t in
      on_received received (stopped h t' w) (hup_server fuel h t' w) (λ n.
        on_packet fault (λ h' w'. hup_server fuel h' t' w')
          (process_hupacket env cmds resps (take n buffer) h w))
