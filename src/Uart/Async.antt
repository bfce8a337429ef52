-- ===== src/Uart/Async.antt =====
-- The asynchronous API: the callback `_async_cb`, and `_send_async`.
use sdkz.Common.{
  ℕ, zero, suc, ◌==◌, true, false, Option, none, some, List, [], ◌∷◌, if◌then◌else◌, length, drop,
}
use sdkz.Common.Int.{pos, eq_ℤ}
use sdkz.Uart.{Handle, RingOps, Driver, Kernel, tx_buf_size, uart_fifo_size, as_uint32}

-- The events of <zephyr/drivers/uart.h> that the callback tells apart.
pub data UartEvent : Type 0 where
  tx_done : UartEvent
  rx_rdy : List ℕ → UartEvent
  rx_buf_request : UartEvent
  rx_buf_released : ℕ → UartEvent
  rx_disabled : UartEvent
  other : UartEvent

module _ {R W : Type 0} (ring : RingOps R) (driver : Driver W) where
  -- `_tx_from_queue`: `bytes_send` is what `uart_tx` returns.
  abbrev pub start_tx : List ℕ × R → Handle R → W → Handle R × W
  start_tx ([], tx) h w = (record h { tx_buffer = tx; bytes_send = pos 0 }, w)
  start_tx (b ∷ bytes, tx) h w =
      let (rc, w') = driver.tx (b ∷ bytes) w in (record h { tx_buffer = tx; bytes_send = rc }, w')

  unfoldable pub tx_from_queue : Handle R → W → Handle R × W
  tx_from_queue h w = start_tx (ring.get_claim h.tx_buffer tx_buf_size) h w

  abbrev pub on_tx_done : Handle R → W → Handle R × W
  on_tx_done h w =
      let finished = record h {
        tx_buffer = ring.get_finish h.tx_buffer (as_uint32 h.bytes_send);
      } in
      let (h', w') = tx_from_queue finished w in
      (if eq_ℤ h'.bytes_send (pos 0) then record h' { tx_done = true } else h', w')

  unfoldable pub async_cb : UartEvent → Handle R → W → Handle R × W
  unfolding tx_from_queue
  async_cb tx_done h w = on_tx_done h w
  async_cb (rx_rdy bytes) h w = (
    record h {
      rx_buffer = (ring.put h.rx_buffer bytes).1;
      rx_done = if length bytes == 0 then h.rx_done else true;
    },
    w,
  )
  async_cb rx_buf_request h w = (h, driver.rx_buf_rsp h.fifo_next uart_fifo_size w)
  async_cb (rx_buf_released buf) h w = (record h { fifo_next = buf }, w)
  async_cb rx_disabled h w = (h, w)
  async_cb other h w = (h, w)

  -- A semaphore that is taken without waiting.
  abbrev pub take_tx : Handle R → W → Handle R × W
  take_tx h w = if h.tx_done then tx_from_queue (record h { tx_done = false }) w else (h, w)

  -- `_send_async`, a round of its loop for each unit of fuel; `none` is that it has run out.
  unfoldable pub send_async : Kernel R W → ℕ → List ℕ → Handle R → W → Option (ℕ × Handle R × W)
  unfolding tx_from_queue
  send_async kernel zero bytes h w = none
  send_async kernel (suc fuel) bytes h w =
      let (written, tx) = ring.put h.tx_buffer bytes in
      let left = drop written bytes in
      let (h1, w1) = take_tx (record h { tx_buffer = tx }) w in
      let (h2, w2) = kernel.msleep h1 w1 in
      let rest = send_async kernel fuel left h2 w2 in
      if length left == 0 then some (length left, h1, w1) else rest

  -- The events that come one after another.
  abbrev pub run_events : List UartEvent → Handle R → W → Handle R × W
  run_events [] h w = (h, w)
  run_events (event ∷ events) h w = let (h', w') = async_cb event h w in run_events events h' w'
