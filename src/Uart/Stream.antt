-- ===== src/Uart/Stream.antt =====
-- What the interrupt callback does to the bytes that are to go out.
use sdkz.Common.{
  ℕ, zero, suc, ◌≡◌, sym, ap, ◌∙◌, true, some, List, [], ◌∷◌, ◌++◌, append_assoc, if◌then◌else◌,
  length, take, drop, arith, Bool-cases, inl, inr, take-append-drop, drop-append_le, ap₂, subst,
}
use mathlib.Core.Option.{some-injective, none-ne-some}
use sdkz.Common.Int.{ℤ, pos, negsuc}
use sdkz.Uart.{Handle, RingOps, Driver}
use sdkz.Uart.Interrupt.{receive_ready, keep_read, fill, transmit_ready, irq_round, irq_cb}
use sdkz.Uart.Ring.{IsRing, IsDriver, Streams}

module _ {R W : Type 0} (ring : RingOps R) (driver : Driver W) (contents : R → List ℕ)
    (claimed : R → ℕ) (capacity : ℕ) (line : W → List ℕ)
    (is_ring : IsRing ring contents claimed capacity) (is_driver : IsDriver driver line) where
  keep_read-Streams :
      (n : ℤ) (got bytes : List ℕ) (h : Handle R) (w : W)
      → Streams contents claimed line bytes (h, w)
      → Streams contents claimed line bytes (keep_read ring driver n got h w)
  keep_read-Streams (negsuc e) got bytes h w s = s
  keep_read-Streams (pos zero) got bytes h w s = s
  keep_read-Streams (pos (suc n)) got bytes h w s = record { whole = s.whole; settled = s.settled }

  pub receive_ready-Streams :
      (bytes : List ℕ) (h : Handle R) (w : W)
      → Streams contents claimed line bytes (h, w)
      → Streams contents claimed line bytes (receive_ready ring driver h w)
  receive_ready-Streams bytes h w s =
      let n = (ring.put_claim h.rx_buffer 512).0 in
      keep_read-Streams (driver.fifo_read n w).0 (driver.fifo_read n w).1 bytes _
        (driver.fifo_read n w).2
        record {
          whole = ap (λ l. l ++ contents h.tx_buffer) (is_driver.read_line n w) ∙ s.whole;
          settled = s.settled;
        }

  fill-Streams :
      (got rest bytes : List ℕ) (tx : R) (h : Handle R) (w : W)
      → driver.irq_tx_ready w ≡ true
      → claimed tx ≡ length got
      → contents tx ≡ got ++ rest
      → line w ++ contents tx ≡ bytes
      → Streams contents claimed line bytes (fill ring driver (got, tx) h w)
  fill-Streams [] rest bytes tx h w ready out held whole = elim (Bool-cases (ring.is_empty tx)) [
    | inl none_left ↦ rw none_left record {
      whole = ap (λ l. l ++ contents tx) (is_driver.disable_line w) ∙ whole;
      settled = out;
    }
    | inr some_left ↦ rw some_left record { whole = whole; settled = out }
  ]
  fill-Streams (b ∷ got) rest bytes tx h w ready out held whole =
      let (k, e, fits, went) = is_driver.fill_line (b ∷ got) w ready (omega arith) in
      rw e record {
        whole =
            ap₂ (◌++◌) went (
              is_ring.finish_contents tx (suc k) (omega arith)
              ∙ ap (drop (suc k)) held
              ∙ drop-append_le (suc k) (b ∷ got) rest fits)
            ∙ (append_assoc (line w) (take (suc k) (b ∷ got)) (drop (suc k) (b ∷ got) ++ rest)
                ∙ (ap (◌++◌ (line w)) (take-append-drop (suc k) (b ∷ got) rest ∙ sym held)
                    ∙ whole));
        settled = is_ring.finish_claimed tx (suc k) (omega arith);
      }

  transmit_ready-Streams :
      (bytes : List ℕ) (h : Handle R) (w : W)
      → driver.irq_tx_ready w ≡ true
      → Streams contents claimed line bytes (h, w)
      → Streams contents claimed line bytes (transmit_ready ring driver h w)
  transmit_ready-Streams bytes h w ready s =
      let tx = h.tx_buffer in
      let (rest, held) = is_ring.claim_bytes tx 512 in
      let same = is_ring.claim_contents tx 512 in
      fill-Streams (ring.get_claim tx 512).0 rest bytes (ring.get_claim tx 512).1 h w ready
        (omega (arith, is_ring.claim_claimed tx 512, s.settled))
        (same ∙ (ap (λ c. drop c (contents tx)) (sym s.settled) ∙ held))
        (ap (◌++◌ (line w)) same ∙ s.whole)

  transmit_if_ready-Streams :
      (bytes : List ℕ) (s : Handle R × W)
      → Streams contents claimed line bytes s
      → Streams contents claimed line bytes
          (if driver.irq_tx_ready s.1 then transmit_ready ring driver s.0 s.1 else s)
  transmit_if_ready-Streams bytes (h, w) s = elim (Bool-cases (driver.irq_tx_ready w)) [
    | inl ready ↦ rw ready (transmit_ready-Streams bytes h w ready s)
    | inr busy ↦ rw busy s
  ]

  pub irq_round-Streams :
      (bytes : List ℕ) (h : Handle R) (w : W)
      → Streams contents claimed line bytes (h, w)
      → Streams contents claimed line bytes (irq_round ring driver h w)
  unfolding irq_round
  irq_round-Streams bytes h w s =
      transmit_if_ready-Streams bytes
        (if driver.irq_rx_ready w then receive_ready ring driver h w else (h, w))
        (elim (Bool-cases (driver.irq_rx_ready w)) [
          | inl ready ↦ rw ready (receive_ready-Streams bytes h w s)
          | inr idle ↦ rw idle s
        ])

  -- When the callback returns, the bytes on the line and those still to go out are together what
  -- they were before, none lost, doubled or out of order, and no byte is still handed out.
  pub irq_cb-Streams :
      (fuel : ℕ) (bytes : List ℕ) (h h' : Handle R) (w w' : W)
      → irq_cb ring driver fuel h w ≡ some (h', w')
      → Streams contents claimed line bytes (h, w)
      → Streams contents claimed line bytes (h', w')
  unfolding irq_cb
  irq_cb-Streams zero bytes h h' w w' ran s = absurd (none-ne-some _ ran)
  irq_cb-Streams (suc fuel) bytes h h' w w' ran s =
      let w1 = driver.irq_update w in
      let s1 : Streams contents claimed line bytes (h, w1) = record {
        whole = ap (λ l. l ++ contents h.tx_buffer) (is_driver.update_line w) ∙ s.whole;
        settled = s.settled;
      } in
      elim (Bool-cases (driver.irq_is_pending w1)) [
        | inl pending ↦
            irq_cb-Streams fuel bytes _ h' _ w' (rw pending at ran)
              (irq_round-Streams bytes h w1 s1)
        | inr quiet ↦
            subst (Streams contents claimed line bytes) (some-injective _ _ (rw quiet at ran)) s1
      ]
