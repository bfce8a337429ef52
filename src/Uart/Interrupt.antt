-- ===== src/Uart/Interrupt.antt =====
-- The interrupt-driven API: the callback `_irq_cb`, `_send_int`, and `_recv_async_int`, which the
-- asynchronous API shares.
use sdkz.Common.{
  ℕ, zero, suc, ◌==◌, true, false, Option, none, some, List, [], ◌∷◌, if◌then◌else◌, length, drop,
}
use sdkz.Common.Int.{ℤ, pos, negsuc, eq_ℤ}
use sdkz.Uart.{Handle, RingOps, Driver, Kernel, tx_buf_size, rx_buf_size}

module _ {R W : Type 0} (ring : RingOps R) (driver : Driver W) where
  -- What was read goes into the ring buffer, unless it is nothing or an error.
  abbrev pub keep_read : ℤ → List ℕ → Handle R → W → Handle R × W
  keep_read (negsuc e) bytes h w = (h, w)
  keep_read (pos zero) bytes h w = (h, w)
  keep_read (pos (suc n)) bytes h w =
      let (err, rx) = ring.put_finish h.rx_buffer bytes in
      (record h { rx_buffer = rx; rx_done = if eq_ℤ err (pos 0) then true else h.rx_done }, w)

  abbrev pub receive_ready : Handle R → W → Handle R × W
  receive_ready h w =
      let (claimed, rx) = ring.put_claim h.rx_buffer rx_buf_size in
      let (rx_size, bytes, w') = driver.fifo_read claimed w in
      keep_read rx_size bytes (record h { rx_buffer = rx }) w'

  abbrev pub finish_fill : ℤ → Handle R → W → Handle R × W
  finish_fill (negsuc e) h w = (h, w)
  finish_fill (pos zero) h w = (h, w)
  finish_fill (pos (suc n)) h w =
      (record h { tx_buffer = ring.get_finish h.tx_buffer (suc n); tx_done = true }, w)

  abbrev pub fill : List ℕ × R → Handle R → W → Handle R × W
  fill ([], tx) h w =
      (record h { tx_buffer = tx }, if ring.is_empty tx then driver.irq_tx_disable w else w)
  fill (b ∷ bytes, tx) h w =
      let (sent, w') = driver.fifo_fill (b ∷ bytes) w in
      finish_fill sent (record h { tx_buffer = tx }) w'

  abbrev pub transmit_ready : Handle R → W → Handle R × W
  transmit_ready h w = fill (ring.get_claim h.tx_buffer tx_buf_size) h w

  -- A round of the callback's loop behind its test.
  unfoldable pub irq_round : Handle R → W → Handle R × W
  irq_round h w =
      let (h1, w1) = if driver.irq_rx_ready w then receive_ready h w else (h, w) in
      if driver.irq_tx_ready w1 then transmit_ready h1 w1 else (h1, w1)

  -- `_irq_cb`; `none` is that the fuel has run out.
  unfoldable pub irq_cb : ℕ → Handle R → W → Option (Handle R × W)
  unfolding irq_round
  irq_cb zero h w = none
  irq_cb (suc fuel) h w =
      let w1 = driver.irq_update w in
      let (h2, w2) = irq_round h w1 in
      let rest = irq_cb fuel h2 w2 in if driver.irq_is_pending w1 then rest else some (h, w1)

  unfoldable pub send_int : Kernel R W → ℕ → List ℕ → Handle R → W → Option (ℕ × Handle R × W)
  send_int kernel zero bytes h w = none
  send_int kernel (suc fuel) bytes h w =
      let (written, tx) = ring.put h.tx_buffer bytes in
      let left = drop written bytes in
      let h1 = record h { tx_buffer = tx } in
      let w1 = driver.irq_tx_enable w in
      let (h2, w2) = kernel.await_tx h1 w1 in
      let rest = send_int kernel fuel left (record h2 { tx_done = false }) w2 in
      if length left == 0 then some (length left, h1, w1) else rest

  -- `_recv_async_int`: it waits until there is something to get.
  unfoldable pub recv_async_int : Kernel R W → ℕ → ℕ → Handle R → W → Option (List ℕ × Handle R × W)
  recv_async_int kernel len zero h w = none
  recv_async_int kernel len (suc fuel) h w =
      let (bytes, rx) = ring.get h.rx_buffer len in
      let (h2, w2) = kernel.await_rx (record h { rx_buffer = rx }) w in
      let rest = recv_async_int kernel len fuel (record h2 { rx_done = false }) w2 in
      if length bytes == 0 then rest else some (bytes, record h { rx_buffer = rx }, w)
