-- ===== src/Uart/Incoming.antt =====
-- What the ring buffer and the driver promise of the bytes that come in, and what a wait is.
use sdkz.Common.{ℕ, ◌≤◌, ◌<◌, ◌≡◌, ◌⊎◌, true, List, ◌++◌, length}
use sdkz.Common.Int.{pos, negsuc}
use sdkz.Uart.{Handle, RingOps, Driver, Kernel}
use sdkz.Uart.Ring.{Interrupts}
use sdkz.Uart.Receive.{received}

-- <zephyr/sys/ring_buffer.h> and <zephyr/drivers/uart.h>: claiming leaves the bytes as they are,
-- what is finished comes behind them and fits where no more was claimed; the driver takes the
-- front of what comes in, at most so many bytes, and nothing where it fails.
pub record IsRxDriver {R W : Type 0} (ring : RingOps R) (driver : Driver W) (contents : R → List ℕ)
    (incoming : W → List ℕ) : Type 0 where
  pub claim_same : (r : R) (n : ℕ) → contents (ring.put_claim r n).1 ≡ contents r
  pub finish_fits :
      (r : R) (n : ℕ) (bytes : List ℕ)
      → length bytes ≤ (ring.put_claim r n).0
      → (ring.put_finish (ring.put_claim r n).1 bytes).0 ≡ pos 0
  pub finish_back :
      (r : R) (n : ℕ) (bytes : List ℕ)
      → length bytes ≤ (ring.put_claim r n).0
      → contents (ring.put_finish (ring.put_claim r n).1 bytes).1 ≡ contents r ++ bytes
  pub read_count :
      (n k : ℕ) (w : W)
      → (driver.fifo_read n w).0 ≡ pos k
      → (length (driver.fifo_read n w).1 ≡ k) × (k ≤ n)
  pub read_front :
      (n k : ℕ) (w : W)
      → (driver.fifo_read n w).0 ≡ pos k
      → (driver.fifo_read n w).1 ++ incoming (driver.fifo_read n w).2 ≡ incoming w
  pub read_error :
      (n e : ℕ) (w : W)
      → (driver.fifo_read n w).0 ≡ negsuc e
      → incoming (driver.fifo_read n w).2 ≡ incoming w
  pub update_same : (w : W) → incoming (driver.irq_update w) ≡ incoming w
  pub fill_same : (bytes : List ℕ) (w : W) → incoming (driver.fifo_fill bytes w).1 ≡ incoming w
  pub disable_same : (w : W) → incoming (driver.irq_tx_disable w) ≡ incoming w

-- While the thread waits, the callback runs some times; the thread goes on when the semaphore was
-- given, and it is given in the end if bytes come.
pub record IsWoken {R W : Type 0} (ring : RingOps R) (driver : Driver W) (kernel : Kernel R W)
    (contents : R → List ℕ) (incoming : W → List ℕ) : Type 0 where
  pub interrupts : (h : Handle R) (w : W) → Interrupts ring driver (h, w) (kernel.await_rx h w)
  pub woken :
      (h : Handle R) (w : W) → 0 < length (incoming w) → (kernel.await_rx h w).0.rx_done ≡ true

-- From the first state to the second, no byte is lost, doubled or out of order, and the semaphore
-- is given where the ring buffer gets bytes, and only there.
pub record Receives {R W : Type 0} (contents : R → List ℕ) (incoming : W → List ℕ)
    (s s' : Handle R × W) : Type 0 where
  pub whole : received contents incoming s'.0 s'.1 ≡ received contents incoming s.0 s.1
  pub given :
      ((s'.0.rx_done ≡ true) × (length (contents s.0.rx_buffer) < length (contents s'.0.rx_buffer)))
      ⊎ ((s'.0.rx_done ≡ s.0.rx_done) × (contents s'.0.rx_buffer ≡ contents s.0.rx_buffer))
