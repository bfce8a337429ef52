-- ===== src/Uart/Runs.antt =====
-- The transport over a ring buffer of one byte and a driver whose fifo takes one byte at a time.
mod Buffer
mod Loopback
mod TwoWay
use sdkz.Common.{
  ℕ, zero, suc, ◌+◌, ◌≤◌, ◌<◌, ◌≡◌, refl, ap, ◌∙◌, Bool, true, false, Option, none, some, List, [],
  ◌∷◌, ◌++◌, append-nil, length, take, drop, arith,
}
use sdkz.Common.Int.{ℤ, pos}
use sdkz.Uart.{Handle, RingOps, Driver, Kernel}
use sdkz.Uart.Async.{UartEvent, send_async, run_events}
use sdkz.Uart.Interrupt.{irq_cb}
use sdkz.Uart.Poll.{send_poll, recv_poll}
use sdkz.Uart.Ring.{IsRing, IsDriver, IsKernel, Streams}
use sdkz.Uart.Resend.{send_async-overfull}
use sdkz.Uart.Runs.Buffer.{
  OneByte, empty, held, out, contents, claimed, room, one_byte, one_byte-IsRing,
}
use sdkz.Uart.Incoming.{Receives}
use sdkz.Uart.Returns.{irq_cb-returns}
use sdkz.Uart.Runs.TwoWay.{Duplex, duplex, duplex-IsDriver, duplex-IsRxDriver, duplex-IsLive}
use sdkz.Uart.Runs.Loopback.{Wire, wire, kernel}

abbrev handle : OneByte → Handle OneByte
handle tx = record {
  tx_done = true;
  rx_done = false;
  tx_buffer = tx;
  rx_buffer = held 9;
  fifo_next = 0;
  bytes_send = pos 0;
}

abbrev line_of : Wire → List ℕ
line_of w = w.sent

abbrev idle : Wire
idle = record { sent = 1 ∷ []; tx_on = false }

abbrev busy : Wire
busy = record { sent = 1 ∷ []; tx_on = true }

irq_cb_7 :
    irq_cb one_byte wire 3 (handle (held 7)) busy
    ≡ some (handle empty, record { sent = 1 ∷ 7 ∷ []; tx_on = false })
unfolding irq_cb
irq_cb_7 = refl

send_async-overfull_example :
    send_async one_byte wire kernel 10 (1 ∷ 2 ∷ []) (handle (held 3)) idle ≡ none
send_async-overfull_example =
    send_async-overfull one_byte wire contents claimed 1 one_byte-IsRing (λ bytes w. refl) kernel 10
      (1 ∷ 2 ∷ []) (handle (held 3)) idle (λ h w. (UartEvent.tx_done ∷ [], refl)) refl (omega arith)

abbrev sends : Handle OneByte
sends = record (handle (held 7)) { rx_buffer = empty }

-- One byte comes in, and one is to go out.
abbrev both : Duplex
both = record { come = 5 ∷ []; sent = 1 ∷ []; tx_on = true }

irq_cb-returns_example :
    (s' : Handle OneByte × Duplex) × (irq_cb one_byte duplex 4 sends both ≡ some s')
    × Streams contents claimed (λ w. w.sent) (1 ∷ 7 ∷ []) s'
    × Receives contents (λ w. w.come) (sends, both) s'
irq_cb-returns_example =
    irq_cb-returns one_byte duplex contents claimed 1 room (λ w. w.sent) (λ w. w.come)
      (λ w. w.tx_on) one_byte-IsRing duplex-IsDriver duplex-IsRxDriver duplex-IsLive 4 (1 ∷ 7 ∷ [])
      sends both record { whole = refl; settled = refl } (omega arith) (omega arith)
