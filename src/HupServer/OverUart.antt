-- ===== src/HupServer/OverUart.antt =====
-- The server over the UART, as app/src/main.c starts it: from the bytes that come in to the
-- handlers.
use sdkz.Common.{ℕ, ◌≡◌, Option, none, some, List, [], length}
use sdkz.Common.Int.{ℤ, pos}
use sdkz.Uart.{Handle, RingOps, Driver, Kernel}
use sdkz.Uart.Interrupt.{recv_async_int}
use sdkz.Uart.Receive.{IsRxBuffer, IsWait, received}
use sdkz.Hupacket.{Hup, Env}
use sdkz.Hupacket.Receive.{Handler, process_hupacket}
use sdkz.HupServer.{running, fault, on_packet, hup_server}

module _ {R U : Type 0} (ring : RingOps R) (driver : Driver U) (kernel : Kernel R U)
    (contents : R → List ℕ) (incoming : U → List ℕ) (is_ring : IsRxBuffer ring contents)
    (is_wait : IsWait kernel contents incoming) where
  -- What `h->api->recv` gives; where three looks are not enough, nothing yet.
  abbrev pub looked : Handle R × U → Option (List ℕ × Handle R × U) → ℤ × List ℕ × (Handle R × U)
  looked t none = (pos 0, [], t)
  looked t (some (bytes, h, u)) = (pos (length bytes), bytes, (h, u))

  abbrev pub uart_recv : ℕ → Handle R × U → ℤ × List ℕ × (Handle R × U)
  uart_recv len t = looked t (recv_async_int ring driver kernel len 3 t.0 t.1)

  abbrev pub to_come : Handle R × U → List ℕ
  to_come t = received contents incoming t.0 t.1

  module _ {W : Type 0} (env : Env W) (cmds resps : List (List ℕ × Handler W)) where
    -- In so many rounds the server has done with all bytes that come in what one call of
    -- `process_hupacket` does, and waits for more.
    abbrev pub ServesAll : ℕ → Handle R × U → Hup → W → Type 0
    ServesAll len t h w =
        (rounds : ℕ) × (t' : Handle R × U) × (to_come t' ≡ [])
        × (hup_server (uart_recv len) env cmds resps rounds h t w
            ≡ on_packet fault (λ h w. running h t' w)
                (process_hupacket env cmds resps (to_come t) h w))
