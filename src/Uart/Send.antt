-- ===== src/Uart/Send.antt =====
-- The rounds of `_send_int`, with the interrupts that come while it waits.
use sdkz.Common.{ℕ, ◌≡◌, Bool, false, Option, some, List, drop}
use sdkz.Uart.{Handle, RingOps, Driver, Kernel}
use sdkz.Uart.Ring.{IsRing, IsDriver, IsKernel, Streams}

module _ {R W : Type 0} (ring : RingOps R) (driver : Driver W) (kernel : Kernel R W)
    (contents : R → List ℕ) (claimed : R → ℕ) (capacity : ℕ) (line : W → List ℕ) (tx_on : W → Bool)
    (is_ring : IsRing ring contents claimed capacity) (is_driver : IsDriver driver line)
    (is_kernel : IsKernel ring driver kernel contents claimed tx_on) where
  -- It returns 0, and the stream is `bytes`.
  abbrev pub Sent : List ℕ → Option (ℕ × Handle R × W) → Type 0
  Sent bytes r =
      (h : Handle R) × (w : W) × (r ≡ some (0, h, w)) × Streams contents claimed line bytes (h, w)

  abbrev put_all : List ℕ → Handle R → Handle R
  put_all bytes h = record h { tx_buffer = (ring.put h.tx_buffer bytes).1 }

  abbrev awaited : List ℕ → Handle R → W → Handle R × W
  awaited bytes h w = kernel.await_tx (put_all bytes h) (driver.irq_tx_enable w)

  -- The handle of the next round.
  abbrev taken : List ℕ → Handle R → W → Handle R
  taken bytes h w = record (awaited bytes h w).0 { tx_done = false }

  abbrev left : List ℕ → Handle R → List ℕ
  left bytes h = drop (ring.put h.tx_buffer bytes).0 bytes
