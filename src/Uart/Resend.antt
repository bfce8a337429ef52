-- ===== src/Uart/Resend.antt =====
-- The asynchronous transmission over an `uart_tx` that gives 0 on success, and the interrupt
-- callback on a full receive buffer.
use sdkz.Common.{
  ℕ, zero, suc, ◌+◌, ◌<◌, ◌≡◌, refl, ap, ◌∙◌, Bool, true, false, none, List, [], ◌∷◌, if◌then◌else◌,
  length, take, drop, arith, length-append, length-take, ne→==_false, length-drop,
}
use sdkz.Common.Int.{pos, eq_ℤ}
use sdkz.Uart.{Handle, RingOps, Driver, Kernel, as_uint32}
use sdkz.Uart.Async.{
  UartEvent, start_tx, tx_from_queue, on_tx_done, async_cb, take_tx, send_async, run_events,
}
use sdkz.Uart.Interrupt.{irq_cb, irq_round, receive_ready}
use sdkz.Uart.Ring.{IsRing}

module _ {R W : Type 0} (ring : RingOps R) (driver : Driver W) (contents : R → List ℕ)
    (claimed : R → ℕ) (capacity : ℕ) (is_ring : IsRing ring contents claimed capacity)
    (tx_ok : (bytes : List ℕ) (w : W) → (driver.tx bytes w).0 ≡ pos 0) where
  -- Nothing counts as sent, and the transmit buffer holds `bytes`.
  record Holds (bytes : List ℕ) (h : Handle R) : Type 0 where
    pub unsent : h.bytes_send ≡ pos 0
    pub held : contents h.tx_buffer ≡ bytes

  start_tx-Holds :
      (claim tx_bytes : List ℕ) (tx : R) (h : Handle R) (w : W)
      → contents tx ≡ tx_bytes
      → Holds tx_bytes (start_tx ring driver (claim, tx) h w).0
  start_tx-Holds [] tx_bytes tx h w e = record { unsent = refl; held = e }
  start_tx-Holds (b ∷ claim) tx_bytes tx h w e = record { unsent = tx_ok (b ∷ claim) w; held = e }

  tx_from_queue-Holds :
      (bytes : List ℕ) (h : Handle R) (w : W)
      → contents h.tx_buffer ≡ bytes
      → Holds bytes (tx_from_queue ring driver h w).0
  unfolding tx_from_queue
  tx_from_queue-Holds bytes h w e =
      start_tx-Holds (ring.get_claim h.tx_buffer 512).0 bytes (ring.get_claim h.tx_buffer 512).1 h w
        (is_ring.claim_contents h.tx_buffer 512 ∙ e)

  given-Holds :
      (b : Bool) (bytes : List ℕ) (h : Handle R)
      → Holds bytes h
      → Holds bytes (if b then record h { tx_done = true } else h)
  given-Holds true bytes h s = record { unsent = s.unsent; held = s.held }
  given-Holds false bytes h s = s

  on_tx_done-Holds :
      (bytes : List ℕ) (h : Handle R) (w : W)
      → Holds bytes h
      → Holds bytes (on_tx_done ring driver h w).0
  on_tx_done-Holds bytes h w s =
      let finished = record h {
        tx_buffer = ring.get_finish h.tx_buffer (as_uint32 h.bytes_send);
      } in
      given-Holds (eq_ℤ (tx_from_queue ring driver finished w).0.bytes_send (pos 0)) bytes
        (tx_from_queue ring driver finished w).0
        (tx_from_queue-Holds bytes finished w (
          ap (λ n. contents (ring.get_finish h.tx_buffer (as_uint32 n))) s.unsent
          ∙ (is_ring.finish_contents h.tx_buffer 0 (omega arith) ∙ s.held)))

  async_cb-Holds :
      (event : UartEvent) (bytes : List ℕ) (h : Handle R) (w : W)
      → Holds bytes h
      → Holds bytes (async_cb ring driver event h w).0
  unfolding async_cb
  async_cb-Holds UartEvent.tx_done bytes h w s = on_tx_done-Holds bytes h w s
  async_cb-Holds (UartEvent.rx_rdy got) bytes h w s = record { unsent = s.unsent; held = s.held }
  async_cb-Holds UartEvent.rx_buf_request bytes h w s = s
  async_cb-Holds (UartEvent.rx_buf_released buf) bytes h w s = record {
    unsent = s.unsent;
    held = s.held;
  }
  async_cb-Holds UartEvent.rx_disabled bytes h w s = s
  async_cb-Holds UartEvent.other bytes h w s = s

  run_events-Holds :
      (events : List UartEvent) (bytes : List ℕ) (h : Handle R) (w : W)
      → Holds bytes h
      → Holds bytes (run_events ring driver events h w).0
  run_events-Holds [] bytes h w s = s
  run_events-Holds (event ∷ events) bytes h w s =
      run_events-Holds events bytes _ _ (async_cb-Holds event bytes h w s)

  -- `b` is whether the semaphore was given.
  taken-Holds :
      (b : Bool) (bytes : List ℕ) (h : Handle R) (w : W)
      → Holds bytes h
      → Holds bytes
          (if b then tx_from_queue ring driver (record h { tx_done = false }) w else (h, w)).0
  taken-Holds true bytes h w s = tx_from_queue-Holds bytes (record h { tx_done = false }) w s.held
  taken-Holds false bytes h w s = s

  take_tx-Holds :
      (bytes : List ℕ) (h : Handle R) (w : W)
      → Holds bytes h
      → Holds bytes (take_tx ring driver h w).0
  take_tx-Holds bytes h w s = taken-Holds h.tx_done bytes h w s

  -- `uart_tx` gives 0 where it succeeds, and the code takes that for the count of bytes that it
  -- sent, so no byte leaves the buffer. Where the message does not fit into the room that the
  -- buffer has, `_send_async` therefore never returns, whatever events come while it sleeps.
  pub send_async-overfull :
      (kernel : Kernel R W) (fuel : ℕ) (message : List ℕ) (h : Handle R) (w : W)
      → ((h : Handle R) (w : W)
          → (events : List UartEvent) × (kernel.msleep h w ≡ run_events ring driver events h w))
      → h.bytes_send ≡ pos 0
      → capacity < length (contents h.tx_buffer) + length message
      → send_async ring driver kernel fuel message h w ≡ none
  unfolding send_async
  send_async-overfull kernel zero message h w sleeps unsent over = refl
  send_async-overfull kernel (suc fuel) message h w sleeps unsent over =
      let n = (ring.put h.tx_buffer message).0 in
      let h0 = record h { tx_buffer = (ring.put h.tx_buffer message).1 } in
      let s1 = take_tx-Holds _ h0 w record { unsent = unsent; held = refl } in
      let (events, slept) = sleeps (take_tx ring driver h0 w).0 (take_tx ring driver h0 w).1 in
      let s2 = run_events-Holds events _ _ (take_tx ring driver h0 w).1 s1 in
      let full =
        ap length (is_ring.put_contents h.tx_buffer message)
        ∙ length-append (contents h.tx_buffer) (take n message) in
      let bound = is_ring.put_bound h.tx_buffer message in
      let more : 0 < length (drop n message) =
        omega (arith, length-drop n message, length-take n message, bound, full) in
      rw (ne→==_false (length (drop n message)) 0 (omega arith), slept)
        (send_async-overfull kernel fuel (drop n message) _ _ sleeps s2.unsent (
          omega (
            arith,
            ap length s2.held,
            length-drop n message,
            length-take n message,
            full,
            is_ring.put_count h.tx_buffer message,
          )))

module _ {R W : Type 0} (ring : RingOps R) (driver : Driver W) (h : Handle R) (w : W)
    (full : ring.put_claim h.rx_buffer 512 ≡ (0, h.rx_buffer))
    (read : driver.fifo_read 0 w ≡ (pos 0, [], w)) (rx : driver.irq_rx_ready w ≡ true)
    (tx : driver.irq_tx_ready w ≡ false) where
  received-full : receive_ready ring driver h w ≡ (h, w)
  received-full = rw (full, read)

  irq_round-full : irq_round ring driver h w ≡ (h, w)
  unfolding irq_round
  irq_round-full = rw (rx, received-full, tx)

  -- On a full receive buffer the callback reads nothing, the interrupt stays pending, and the
  -- callback never returns.
  irq_cb-full :
      (fuel : ℕ)
      → driver.irq_update w ≡ w
      → driver.irq_is_pending w ≡ true
      → irq_cb ring driver fuel h w ≡ none
  unfolding irq_cb
  irq_cb-full zero update pending = refl
  irq_cb-full (suc fuel) update pending =
      rw (update, pending, irq_round-full) (irq_cb-full fuel update pending)
