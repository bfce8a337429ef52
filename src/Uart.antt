-- ===== src/Uart.antt =====
-- lib/app/uart.c: the transport over a UART, with its three ways to send and to receive. The ring
-- buffers, the UART driver and what other threads do while one waits are of Zephyr, and
-- parameters: `R` is a ring buffer and `W` the state of the driver and of the line.
pub mod Async
pub mod Interrupt
pub mod Poll
pub mod Ring
pub mod Stream
pub mod Resend
pub mod Receive
pub mod Incoming
pub mod Woken
pub mod Returns
pub mod Line
pub mod Drain
pub mod Send
mod Runs
use sdkz.Common.{
  ℕ, zero, suc, ◌+◌, ◌-◌, ◌^◌, Bool, true, false, not, Option, none, some, List, [], ◌∷◌,
  if◌then◌else◌, ◌||◌,
}
use sdkz.Common.Int.{ℤ, pos, negsuc}

abbrev pub rx_buf_size : ℕ
rx_buf_size = 512

abbrev pub tx_buf_size : ℕ
tx_buf_size = 512

abbrev pub uart_fifo_size : ℕ
uart_fifo_size = 64

-- `struct handle`. Both semaphores count to 1; `fifo_next` is one of the two fifo buffers.
pub record Handle (R : Type 0) : Type 0 where
  pub tx_done : Bool
  pub rx_done : Bool
  pub tx_buffer : R
  pub rx_buffer : R
  pub fifo_next : ℕ
  pub bytes_send : ℤ

-- <zephyr/sys/ring_buffer.h>. `put_claim` gives how many bytes may be written, and `put_finish`
-- takes those that were, or gives an error.
pub record RingOps (R : Type 0) : Type 0 where
  pub init : ℕ → R
  pub put : R → List ℕ → ℕ × R
  pub get : R → ℕ → List ℕ × R
  pub get_claim : R → ℕ → List ℕ × R
  pub get_finish : R → ℕ → R
  pub put_claim : R → ℕ → ℕ × R
  pub put_finish : R → List ℕ → ℤ × R
  pub is_empty : R → Bool

-- <zephyr/drivers/uart.h>; `poll_in` gives no byte where the result is below 0.
pub record Driver (W : Type 0) : Type 0 where
  pub tx : List ℕ → W → ℤ × W
  pub callback_set : W → W
  pub irq_callback_set : W → W
  pub rx_enable : ℕ → ℕ → W → W
  pub rx_buf_rsp : ℕ → ℕ → W → W
  pub irq_update : W → W
  pub irq_is_pending : W → Bool
  pub irq_rx_ready : W → Bool
  pub irq_rx_enable : W → W
  pub fifo_read : ℕ → W → ℤ × List ℕ × W
  pub irq_tx_ready : W → Bool
  pub irq_tx_enable : W → W
  pub irq_tx_disable : W → W
  pub fifo_fill : List ℕ → W → ℤ × W
  pub poll_out : ℕ → W → W
  pub poll_in : W → Option ℕ × W

-- What happens in the meantime: while a thread sleeps, and until a semaphore is given.
pub record Kernel (R W : Type 0) : Type 0 where
  pub msleep : Handle R → W → Handle R × W
  pub await_tx : Handle R → W → Handle R × W
  pub await_rx : Handle R → W → Handle R × W

-- An `int` that is passed as a `uint32_t`.
abbrev pub as_uint32 : ℤ → ℕ
as_uint32 (pos n) = n
as_uint32 (negsuc n) = 2 ^ 32 - 1 - n

-- What the initialisers come to; `fault` is a read through a NULL device, for the log message.
pub data Started (R W : Type 0) : Type 0 where
  fault : Started R W
  null : W → Started R W
  started : Handle R → W → Started R W

module _ {R W : Type 0} (ring : RingOps R) (driver : Driver W) where
  -- `_init_handle`: the device is NULL (`none`), or ready or not; `malloc` finds room or not. The
  -- fields that it leaves undefined are 0 here: nothing reads them before they are written.
  abbrev pub init_handle : Option Bool → Bool → W → Started R W
  init_handle none found w = fault
  init_handle (some ready) found w =
      if not ready || not found
      then null w
      else started
          (record {
            tx_done = true;
            rx_done = false;
            tx_buffer = ring.init tx_buf_size;
            rx_buffer = ring.init rx_buf_size;
            fifo_next = 0;
            bytes_send = pos 0;
          })
          w

  abbrev on_started : Started R W → (Handle R → W → Started R W) → Started R W
  on_started fault f = fault
  on_started (null w) f = null w
  on_started (started h w) f = f h w

  -- The three initialisers: with callbacks, with interrupts, and polling.
  unfoldable pub init_async : Option Bool → Bool → W → Started R W
  init_async dev found w = on_started (init_handle dev found w) λ h w.
      started (record h { fifo_next = 1 })
        (driver.rx_enable 0 uart_fifo_size (driver.callback_set w))

  unfoldable pub init_int : Option Bool → Bool → W → Started R W
  init_int dev found w = on_started (init_handle dev found w) λ h w.
      started (record h { tx_done = false }) (driver.irq_rx_enable (driver.irq_callback_set w))

  unfoldable pub init_poll : Option Bool → Bool → W → Started R W
  init_poll dev found w =
      on_started (init_handle dev found w) λ h w. started (record h { rx_done = true }) w

-- `_deinit_uart`, over `free`.
unfoldable pub deinit_uart : {R W : Type 0} → (Handle R → W → W) → Option (Handle R) → W → W
deinit_uart free none w = w
deinit_uart free (some h) w = free h w
