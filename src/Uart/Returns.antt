-- ===== src/Uart/Returns.antt =====
-- The interrupt callback returns, where the ring buffer has room for what comes in.
use sdkz.Common.{
  ℕ, zero, suc, ◌+◌, ◌≤◌, ◌<◌, ◌≡◌, ◌⊎◌, inl, inr, refl, sym, ap, ◌∙◌, Bool, true, false, some,
  List, [], ◌∷◌, ◌++◌, length, drop, arith, Bool-cases, length-append, length-drop, ◌==◌, ==→eq,
}
use mathlib.Core.Bool.{false≢true}
use sdkz.Common.Int.{pos}
use sdkz.Uart.{Handle, RingOps, Driver, rx_buf_size, tx_buf_size}
use sdkz.Uart.Interrupt.{receive_ready, fill, transmit_ready, irq_round, irq_cb}
use sdkz.Uart.Ring.{IsRing, IsDriver, Streams}
use sdkz.Uart.Incoming.{IsRxDriver, Receives}
use sdkz.Uart.Stream.{receive_ready-Streams, irq_round-Streams, irq_cb-Streams}
use sdkz.Uart.Woken.{irq_cb-Receives}

-- <zephyr/drivers/uart.h> and <zephyr/sys/ring_buffer.h>: an interrupt is pending where there is
-- something to read, or where the transmitter is ready and its interrupt is on; a claim gives
-- something where there is something to give. `incoming` are the bytes that come in until the
-- callback returns, `room` the free bytes of a ring buffer.
pub record IsLive {R W : Type 0} (ring : RingOps R) (driver : Driver W) (contents : R → List ℕ)
    (claimed : R → ℕ) (room : R → ℕ) (incoming : W → List ℕ) (tx_on : W → Bool) : Type 0 where
  pub pending_ready :
      (w : W)
      → driver.irq_is_pending w ≡ true
      → (driver.irq_rx_ready w ≡ true) ⊎ ((driver.irq_tx_ready w ≡ true) × (tx_on w ≡ true))
  pub ready_some : (w : W) → driver.irq_rx_ready w ≡ true → 0 < length (incoming w)
  pub read_some :
      (n : ℕ) (w : W)
      → driver.irq_rx_ready w ≡ true
      → 0 < n
      → (k : ℕ) × ((driver.fifo_read n w).0 ≡ pos (suc k))
  pub put_some : (r : R) (n : ℕ) → 0 < n → 0 < room r → 0 < (ring.put_claim r n).0
  pub put_room :
      (r : R) (n : ℕ) (bytes : List ℕ)
      → length bytes ≤ (ring.put_claim r n).0
      → room r ≤ room (ring.put_finish (ring.put_claim r n).1 bytes).1 + length bytes
  pub get_some :
      (r : R) (n : ℕ)
      → 0 < n
      → claimed r ≡ 0
      → 0 < length (contents r)
      → 0 < length (ring.get_claim r n).0
  pub empty_lem : (r : R) → length (contents r) ≡ 0 → ring.is_empty r ≡ true
  pub disable_off : (w : W) → tx_on (driver.irq_tx_disable w) ≡ false
  pub update_on : (w : W) → tx_on (driver.irq_update w) ≡ tx_on w
  pub read_on : (n : ℕ) (w : W) → tx_on (driver.fifo_read n w).2 ≡ tx_on w
  pub fill_on : (bytes : List ℕ) (w : W) → tx_on (driver.fifo_fill bytes w).1 ≡ tx_on w

abbrev pub bit : Bool → ℕ
bit true = 1
bit false = 0

module _ {R W : Type 0} (ring : RingOps R) (driver : Driver W) (contents : R → List ℕ)
    (claimed : R → ℕ) (capacity : ℕ) (room : R → ℕ) (line incoming : W → List ℕ) (tx_on : W → Bool)
    (is_ring : IsRing ring contents claimed capacity) (is_driver : IsDriver driver line)
    (is_rx_driver : IsRxDriver ring driver contents incoming)
    (is_live : IsLive ring driver contents claimed room incoming tx_on) where
  -- What is still to go out, and whether the interrupt for it is on.
  abbrev to_send : Handle R × W → ℕ
  to_send s = length (contents s.0.tx_buffer) + bit (tx_on s.1)

  -- A bound for the rounds that are left.
  abbrev pub work : Handle R × W → ℕ
  work s = length (incoming s.1) + to_send s

  receive_less :
      (h : Handle R) (w : W)
      → driver.irq_rx_ready w ≡ true
      → length (incoming w) ≤ room h.rx_buffer
      → (length (incoming (receive_ready ring driver h w).1) < length (incoming w))
        × (length (incoming (receive_ready ring driver h w).1)
            ≤ room (receive_ready ring driver h w).0.rx_buffer)
        × (to_send (receive_ready ring driver h w) ≡ to_send (h, w))
  receive_less h w ready fits =
      let n = (ring.put_claim h.rx_buffer rx_buf_size).0 in
      let some_come = is_live.ready_some w ready in
      let some_room = is_live.put_some h.rx_buffer rx_buf_size (omega arith) (omega arith) in
      let (k, e) = is_live.read_some n w ready some_room in
      let (_, bytes, w') = driver.fifo_read n w in
      let (count, most) = is_rx_driver.read_count n (suc k) w e in
      let front = ap length (is_rx_driver.read_front n (suc k) w e) in
      let split = length-append bytes (incoming w') in
      let left = is_live.put_room h.rx_buffer rx_buf_size bytes (omega arith) in
      rw e (
        omega arith,
        omega arith,
        ap (λ on. length (contents h.tx_buffer) + bit on) (is_live.read_on n w),
      )

  -- Sending makes less to send, where there is something.
  record Sends (s s' : Handle R × W) : Type 0 where
    most : to_send s' ≤ to_send s
    less : tx_on s.1 ≡ true → to_send s' < to_send s
    same_incoming : length (incoming s'.1) ≡ length (incoming s.1)
    same_room : room s'.0.rx_buffer ≡ room s.0.rx_buffer

  fill-Sends :
      (got rest : List ℕ) (tx : R) (h : Handle R) (w : W)
      → driver.irq_tx_ready w ≡ true
      → claimed tx ≡ length got
      → contents tx ≡ got ++ rest
      → contents tx ≡ contents h.tx_buffer
      → (0 < length (contents h.tx_buffer) → 0 < length got)
      → Sends (h, w) (fill ring driver (got, tx) h w)
  fill-Sends [] rest tx h w ready out held same some_got =
      elim (Bool-cases (length (contents h.tx_buffer) == 0)) [
        | inr some_held ↦ absurd (omega (arith, some_got (ground arith)))
        | inl none_held ↦
            let none = ==→eq (length (contents h.tx_buffer)) 0 none_held in
            rw (is_live.empty_lem tx (ap length same ∙ none)) record {
              most = rw (is_live.disable_off w) (omega (arith, ap length same));
              less = λ on. rw (is_live.disable_off w, on) (omega (arith, ap length same));
              same_incoming = ap length (is_rx_driver.disable_same w);
              same_room = refl;
            }
      ]
  fill-Sends (b ∷ got) rest tx h w ready out held same some_got =
      let (k, e, fits, went) = is_driver.fill_line (b ∷ got) w ready (omega arith) in
      let finish = ap length (is_ring.finish_contents tx (suc k) (omega arith)) in
      let dropped = length-drop (suc k) (contents tx) in
      let lengths = length-append (b ∷ got) rest in
      let held' = ap length held in
      let same' = ap length same in
      rw e record {
        most = rw (is_live.fill_on (b ∷ got) w) (omega arith);
        less = λ on. rw (is_live.fill_on (b ∷ got) w) (omega arith);
        same_incoming = ap length (is_rx_driver.fill_same (b ∷ got) w);
        same_room = refl;
      }

  transmit_ready-Sends :
      (h : Handle R) (w : W)
      → driver.irq_tx_ready w ≡ true
      → claimed h.tx_buffer ≡ 0
      → Sends (h, w) (transmit_ready ring driver h w)
  transmit_ready-Sends h w ready settled =
      let tx = h.tx_buffer in
      let (rest, held) = is_ring.claim_bytes tx tx_buf_size in
      let same = is_ring.claim_contents tx tx_buf_size in
      fill-Sends (ring.get_claim tx tx_buf_size).0 rest (ring.get_claim tx tx_buf_size).1 h w ready
        (omega (arith, is_ring.claim_claimed tx tx_buf_size, settled))
        (same ∙ (ap (λ c. drop c (contents tx)) (sym settled) ∙ held)) same
        (is_live.get_some tx tx_buf_size (omega arith) settled)

  -- A round where an interrupt is pending makes less work, and the room stays enough.
  record Advances (s s' : Handle R × W) : Type 0 where
    less_work : work s' < work s
    fits : length (incoming s'.1) ≤ room s'.0.rx_buffer

  irq_round-Advances :
      (bytes : List ℕ) (h : Handle R) (w : W)
      → Streams contents claimed line bytes (h, w)
      → length (incoming w) ≤ room h.rx_buffer
      → driver.irq_is_pending w ≡ true
      → Advances (h, w) (irq_round ring driver h w)
  unfolding irq_round
  irq_round-Advances bytes h w streams fits pending = elim (Bool-cases (driver.irq_rx_ready w)) [
    | inl ready ↦
        let (h1, w1) = receive_ready ring driver h w in
        let (less, fits1, same) = receive_less h w ready fits in
        let settled =
          (receive_ready-Streams ring driver contents claimed capacity line is_ring is_driver bytes
            h w streams).settled in
        rw ready (elim (Bool-cases (driver.irq_tx_ready w1)) [
          | inl ready1 ↦
              let sends = transmit_ready-Sends h1 w1 ready1 settled in
              rw ready1 record {
                less_work = omega (arith, less, same, sends.most, sends.same_incoming);
                fits = omega (arith, fits1, sends.same_incoming, sends.same_room);
              }
          | inr busy ↦ rw busy record { less_work = omega (arith, less, same); fits = fits1 }
        ])
    | inr idle ↦ rw idle (elim (is_live.pending_ready w pending) [
      | inl ready ↦ absurd (false≢true (sym idle ∙ ready))
      | inr (ready, on) ↦
          let sends = transmit_ready-Sends h w ready streams.settled in
          rw ready record {
            less_work = omega (arith, sends.less on, sends.same_incoming);
            fits = omega (arith, fits, sends.same_incoming, sends.same_room);
          }
    ])
  ]

  irq_cb-ends :
      (fuel : ℕ) (bytes : List ℕ) (h : Handle R) (w : W)
      → Streams contents claimed line bytes (h, w)
      → length (incoming w) ≤ room h.rx_buffer
      → work (h, w) < fuel
      → (s' : Handle R × W) × (irq_cb ring driver fuel h w ≡ some s')
  unfolding irq_cb
  irq_cb-ends zero bytes h w streams fits enough = absurd (omega arith)
  irq_cb-ends (suc fuel) bytes h w streams fits enough =
      let w1 = driver.irq_update w in
      let same = ap length (is_rx_driver.update_same w) in
      let same_on = ap bit (is_live.update_on w) in
      let streams1 : Streams contents claimed line bytes (h, w1) = record {
        whole = ap (λ l. l ++ contents h.tx_buffer) (is_driver.update_line w) ∙ streams.whole;
        settled = streams.settled;
      } in
      elim (Bool-cases (driver.irq_is_pending w1)) [
        | inl pending ↦
            let (h2, w2) = irq_round ring driver h w1 in
            let advances = irq_round-Advances bytes h w1 streams1 (omega arith) pending in
            let (s', ran) =
              irq_cb-ends fuel bytes h2 w2
                (irq_round-Streams ring driver contents claimed capacity line is_ring is_driver
                  bytes h w1 streams1)
                advances.fits (omega (arith, advances.less_work, enough, same, same_on)) in
            (s', rw pending ran)
        | inr over ↦ ((h, w1), rw over refl)
      ]

  -- Where no byte is handed out and the receive buffer has room for the bytes that come in, the
  -- interrupt callback returns, within one round more than there are bytes to read and to send and
  -- the transmitter's interrupt to switch off. The bytes on the line and those still to go out are
  -- then together what they were before, and so are the bytes in the receive buffer and those
  -- still to be read, in order; either the receive buffer has more bytes than before and the
  -- semaphore is given, or it has the same and the semaphore is as it was.
  pub irq_cb-returns :
      (fuel : ℕ) (bytes : List ℕ) (h : Handle R) (w : W)
      → Streams contents claimed line bytes (h, w)
      → length (incoming w) ≤ room h.rx_buffer
      → work (h, w) < fuel
      → (s' : Handle R × W) × (irq_cb ring driver fuel h w ≡ some s')
        × Streams contents claimed line bytes s'
        × Receives contents incoming (h, w) s'
  irq_cb-returns fuel bytes h w streams fits enough =
      let (s', ran) = irq_cb-ends fuel bytes h w streams fits enough in
      (
        s',
        ran,
        irq_cb-Streams ring driver contents claimed capacity line is_ring is_driver fuel bytes h
            s'.0 w s'.1 ran streams,
        irq_cb-Receives ring driver contents incoming is_rx_driver fuel (h, w) s' ran,
      )
