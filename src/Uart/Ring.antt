-- ===== src/Uart/Ring.antt =====
-- What <zephyr/sys/ring_buffer.h> and <zephyr/drivers/uart.h> promise, and the line on which the
-- bytes go out.
use sdkz.Common.{ℕ, suc, ◌+◌, ◌≤◌, ◌<◌, ◌≡◌, Bool, true, some, List, ◌++◌, length, take, drop}
use sdkz.Common.Int.{pos}
use sdkz.Uart.{Handle, RingOps, Driver, Kernel}
use sdkz.Uart.Interrupt.{irq_cb}

-- A ring buffer holds bytes in order. `get_claim` hands out bytes behind those handed out before,
-- and `get_finish` removes some of them from the front and takes the others back.
pub record IsRing {R : Type 0} (ring : RingOps R) (contents : R → List ℕ) (claimed : R → ℕ)
    (capacity : ℕ) : Type 0 where
  pub some_room : 0 < capacity
  pub put_count : (r : R) (bytes : List ℕ) → (ring.put r bytes).0 ≤ length bytes
  pub put_contents :
      (r : R) (bytes : List ℕ)
      → contents (ring.put r bytes).1 ≡ contents r ++ take (ring.put r bytes).0 bytes
  pub put_claimed : (r : R) (bytes : List ℕ) → claimed (ring.put r bytes).1 ≡ claimed r
  pub put_bound : (r : R) (bytes : List ℕ) → length (contents (ring.put r bytes).1) ≤ capacity
  pub put_progress :
      (r : R) (bytes : List ℕ)
      → length (contents r) < capacity
      → 0 < length bytes
      → 0 < (ring.put r bytes).0
  pub claim_contents : (r : R) (n : ℕ) → contents (ring.get_claim r n).1 ≡ contents r
  pub claim_claimed :
      (r : R) (n : ℕ) → claimed (ring.get_claim r n).1 ≡ claimed r + length (ring.get_claim r n).0
  pub claim_bytes :
      (r : R) (n : ℕ)
      → (rest : List ℕ) × (drop (claimed r) (contents r) ≡ (ring.get_claim r n).0 ++ rest)
  pub finish_contents :
      (r : R) (k : ℕ) → k ≤ claimed r → contents (ring.get_finish r k) ≡ drop k (contents r)
  pub finish_claimed : (r : R) (k : ℕ) → k ≤ claimed r → claimed (ring.get_finish r k) ≡ 0

-- The driver puts bytes on the line where the code fills its fifo, and only there; where it is
-- ready to transmit it takes at least one byte.
pub record IsDriver {W : Type 0} (driver : Driver W) (line : W → List ℕ) : Type 0 where
  pub fill_line :
      (bytes : List ℕ) (w : W)
      → driver.irq_tx_ready w ≡ true
      → 0 < length bytes
      → (k : ℕ) × ((driver.fifo_fill bytes w).0 ≡ pos (suc k))
        × (suc k ≤ length bytes)
        × (line (driver.fifo_fill bytes w).1 ≡ line w ++ take (suc k) bytes)
  pub read_line : (n : ℕ) (w : W) → line (driver.fifo_read n w).2 ≡ line w
  pub update_line : (w : W) → line (driver.irq_update w) ≡ line w
  pub enable_line : (w : W) → line (driver.irq_tx_enable w) ≡ line w
  pub disable_line : (w : W) → line (driver.irq_tx_disable w) ≡ line w

-- The bytes on the line and those that are still to go out.
abbrev pub stream : {R W : Type 0} → (R → List ℕ) → (W → List ℕ) → Handle R → W → List ℕ
stream contents line h w = line w ++ contents h.tx_buffer

-- Nothing of the ring buffer is handed out, and the stream is `bytes`.
pub record Streams {R W : Type 0} (contents : R → List ℕ) (claimed : R → ℕ) (line : W → List ℕ)
    (bytes : List ℕ) (s : Handle R × W) : Type 0 where
  pub whole : stream contents line s.0 s.1 ≡ bytes
  pub settled : claimed s.0.tx_buffer ≡ 0

-- The callback runs some times.
pub data Interrupts {R W : Type 0} (ring : RingOps R) (driver : Driver W)
    : Handle R × W → Handle R × W → Type 0 where
  quiet : (s : Handle R × W) → Interrupts ring driver s s
  interrupt :
      (fuel : ℕ) (s s1 s2 : Handle R × W)
      → irq_cb ring driver fuel s.0 s.1 ≡ some s1
      → Interrupts ring driver s1 s2
      → Interrupts ring driver s s2

-- While a sender waits, the callback runs some times, and the sender goes on when the semaphore is
-- given. Where the interrupt of the transmitter is on and there are bytes to go out, none of them
-- handed out, it is given in the end; `tx_on` is whether it is on.
pub record IsKernel {R W : Type 0} (ring : RingOps R) (driver : Driver W) (kernel : Kernel R W)
    (contents : R → List ℕ) (claimed : R → ℕ) (tx_on : W → Bool) : Type 0 where
  pub enable_on : (w : W) → tx_on (driver.irq_tx_enable w) ≡ true
  pub await_interrupts :
      (h : Handle R) (w : W) → Interrupts ring driver (h, w) (kernel.await_tx h w)
  pub await_given :
      (h : Handle R) (w : W)
      → tx_on w ≡ true
      → claimed h.tx_buffer ≡ 0
      → 0 < length (contents h.tx_buffer)
      → (kernel.await_tx h w).0.tx_done ≡ true
