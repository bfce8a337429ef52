-- ===== src/Uart/Runs/Loopback.antt =====
-- A driver whose fifo takes one byte at a time, over a line that comes back, and a kernel.
use sdkz.Common.{
  ℕ, suc, ◌≤◌, ◌<◌, ◌≡◌, refl, Bool, true, false, Option, none, some, List, [], ◌∷◌, ◌++◌, length,
  take, arith,
}
use sdkz.Common.Int.{ℤ, pos}
use mathlib.Core.Bool.{false≢true}
use sdkz.Uart.{Handle, Driver, Kernel}
use sdkz.Uart.Interrupt.{irq_cb}
use sdkz.Uart.Async.{UartEvent, run_events}
use sdkz.Uart.Ring.{IsDriver, IsKernel, Interrupts, quiet, interrupt}
use sdkz.Uart.Runs.Buffer.{OneByte, empty, held, out, contents, claimed, one_byte}

-- The bytes on the line, and whether the interrupt of the transmitter is on.
pub record Wire : Type 0 where
  pub sent : List ℕ
  pub tx_on : Bool

abbrev pub fill_one : List ℕ → Wire → ℤ × Wire
fill_one [] w = (pos 0, w)
fill_one (b ∷ bytes) w = (pos 1, record w { sent = w.sent ++ (b ∷ []) })

abbrev pub take_one : List ℕ → Wire → Option ℕ × Wire
take_one [] w = (none, w)
take_one (b ∷ bytes) w = (some b, record w { sent = bytes })

abbrev pub wire : Driver Wire
wire = record {
  tx = λ bytes w. (pos 0, w);
  callback_set = λ w. w;
  irq_callback_set = λ w. w;
  rx_enable = λ buf n w. w;
  rx_buf_rsp = λ buf n w. w;
  irq_update = λ w. w;
  irq_is_pending = λ w. w.tx_on;
  irq_rx_ready = λ w. false;
  irq_rx_enable = λ w. w;
  fifo_read = λ n w. (pos 0, [], w);
  irq_tx_ready = λ w. true;
  irq_tx_enable = λ w. record w { tx_on = true };
  irq_tx_disable = λ w. record w { tx_on = false };
  fifo_fill = fill_one;
  poll_out = λ b w. record w { sent = w.sent ++ (b ∷ []) };
  poll_in = λ w. take_one w.sent w;
}

pub wire-IsDriver : IsDriver wire (λ w. w.sent)
wire-IsDriver = record {
  fill_line = go;
  read_line = λ n w. refl;
  update_line = λ w. refl;
  enable_line = λ w. refl;
  disable_line = λ w. refl;
}
  where
    go :
        (bytes : List ℕ) (w : Wire)
        → true ≡ true
        → 0 < length bytes
        → (k : ℕ) × ((fill_one bytes w).0 ≡ pos (suc k))
          × (suc k ≤ length bytes)
          × ((fill_one bytes w).1.sent ≡ w.sent ++ take (suc k) bytes)
    go [] w ready some_left = absurd (omega arith)
    go (b ∷ bytes) w ready some_left = (0, refl, omega arith, refl)

-- A sender waits for one interrupt, where the transmitter's is on and no byte is handed out.
abbrev await : OneByte → List ℕ → Bool → Handle OneByte → Handle OneByte × Wire
await r line false h = (record h { tx_buffer = r }, record { sent = line; tx_on = false })
await empty line true h = (record h { tx_buffer = empty }, record { sent = line; tx_on = false })
await (held b) line true h = (
  record h { tx_buffer = empty; tx_done = true },
  record { sent = line ++ (b ∷ []); tx_on = false },
)
await (out b) line true h = (record h { tx_buffer = out b }, record { sent = line; tx_on = true })

abbrev pub kernel : Kernel OneByte Wire
kernel = record {
  msleep = λ h w. run_events one_byte wire (UartEvent.tx_done ∷ []) h w;
  await_tx = λ h w. await h.tx_buffer w.sent w.tx_on h;
  await_rx = λ h w. (h, w);
}

await-Interrupts :
    (r : OneByte) (line : List ℕ) (on : Bool) (h : Handle OneByte)
    → Interrupts one_byte wire
        (record h { tx_buffer = r }, record { sent = line; tx_on = on })
        (await r line on h)
unfolding irq_cb
await-Interrupts empty line false h = quiet _
await-Interrupts (held b) line false h = quiet _
await-Interrupts (out b) line false h = quiet _
await-Interrupts empty line true h = interrupt 2 _ _ _ refl (quiet _)
await-Interrupts (held b) line true h = interrupt 3 _ _ _ refl (quiet _)
await-Interrupts (out b) line true h = quiet _

pub kernel-IsKernel : IsKernel one_byte wire kernel contents claimed (λ w. w.tx_on)
kernel-IsKernel = record {
  enable_on = λ w. refl;
  await_interrupts = λ h w. await-Interrupts h.tx_buffer w.sent w.tx_on h;
  await_given = λ h w on settled some_held. go h.tx_buffer w.sent w.tx_on h on settled some_held;
}
  where
    go :
        (r : OneByte) (line : List ℕ) (on : Bool) (h : Handle OneByte)
        → on ≡ true
        → claimed r ≡ 0
        → 0 < length (contents r)
        → (await r line on h).0.tx_done ≡ true
    go r line false h on settled some_held = absurd (false≢true on)
    go empty line true h on settled some_held = absurd (omega arith)
    go (held b) line true h on settled some_held = refl
    go (out b) line true h on settled some_held = absurd (omega arith)
