-- ===== src/Uart/Drain.antt =====
-- What the interrupt callback does to the room in the ring buffer that is to go out, and what that
-- makes of a sender's wait.
use sdkz.Common.{
  ℕ, zero, suc, ◌<◌, ◌≡◌, sym, ap, ◌∙◌, Bool, true, false, some, List, [], ◌∷◌, ◌++◌, if◌then◌else◌,
  length, drop, arith, Bool-cases, inl, inr, refl, length-append, length-drop, subst,
}
use mathlib.Core.Bool.{false≢true}
use mathlib.Core.Option.{some-injective, none-ne-some}
use sdkz.Common.Int.{ℤ, pos, negsuc}
use sdkz.Uart.{Handle, RingOps, Driver, Kernel, tx_buf_size}
use sdkz.Uart.Interrupt.{keep_read, receive_ready, fill, transmit_ready, irq_round, irq_cb}
use sdkz.Uart.Ring.{IsRing, IsDriver, IsKernel, Streams, Interrupts, quiet, interrupt}
use sdkz.Uart.Stream.{receive_ready-Streams, irq_round-Streams, irq_cb-Streams}

-- The semaphore is given where bytes leave the buffer, and only there; none come in.
pub data Drains {R W : Type 0} (contents : R → List ℕ) (s s' : Handle R × W) : Type 0 where
  sent : length (contents s'.0.tx_buffer) < length (contents s.0.tx_buffer) → Drains contents s s'
  kept :
      length (contents s'.0.tx_buffer) ≡ length (contents s.0.tx_buffer)
      → s'.0.tx_done ≡ s.0.tx_done
      → Drains contents s s'

trans-Drains :
    {R W : Type 0} (contents : R → List ℕ) (s s1 s2 : Handle R × W)
    → Drains contents s s1
    → Drains contents s1 s2
    → Drains contents s s2
trans-Drains contents s s1 s2 (sent less) (sent less') = sent (omega arith)
trans-Drains contents s s1 s2 (sent less) (kept same done) = sent (omega arith)
trans-Drains contents s s1 s2 (kept same done) (sent less) = sent (omega arith)
trans-Drains contents s s1 s2 (kept same done) (kept same' done') =
    kept (omega arith) (done' ∙ done)

module _ {R W : Type 0} (ring : RingOps R) (driver : Driver W) (contents : R → List ℕ)
    (claimed : R → ℕ) (capacity : ℕ) (line : W → List ℕ)
    (is_ring : IsRing ring contents claimed capacity) (is_driver : IsDriver driver line) where
  keep_read-Drains :
      (n : ℤ) (got : List ℕ) (h : Handle R) (w w' : W) (rx : R)
      → Drains contents (h, w) (keep_read ring driver n got (record h { rx_buffer = rx }) w')
  keep_read-Drains (negsuc e) got h w w' rx = kept refl refl
  keep_read-Drains (pos zero) got h w w' rx = kept refl refl
  keep_read-Drains (pos (suc n)) got h w w' rx = kept refl refl

  fill-Drains :
      (got rest : List ℕ) (tx : R) (h : Handle R) (w : W)
      → driver.irq_tx_ready w ≡ true
      → claimed tx ≡ length got
      → contents tx ≡ got ++ rest
      → contents tx ≡ contents h.tx_buffer
      → Drains contents (h, w) (fill ring driver (got, tx) h w)
  fill-Drains [] rest tx h w ready out held same = kept (ap length same) refl
  fill-Drains (b ∷ got) rest tx h w ready out held same =
      let (k, e, fits, went) = is_driver.fill_line (b ∷ got) w ready (omega arith) in
      rw e (
        sent (
          omega (
            arith,
            ap length (is_ring.finish_contents tx (suc k) (omega arith)),
            length-drop (suc k) (contents tx),
            ap length held,
            ap length same,
            length-append (b ∷ got) rest,
          )))

  transmit_ready-Drains :
      (h : Handle R) (w : W)
      → driver.irq_tx_ready w ≡ true
      → claimed h.tx_buffer ≡ 0
      → Drains contents (h, w) (transmit_ready ring driver h w)
  transmit_ready-Drains h w ready settled =
      let tx = h.tx_buffer in
      let (rest, held) = is_ring.claim_bytes tx tx_buf_size in
      let same = is_ring.claim_contents tx tx_buf_size in
      fill-Drains (ring.get_claim tx tx_buf_size).0 rest (ring.get_claim tx tx_buf_size).1 h w ready
        (omega (arith, is_ring.claim_claimed tx tx_buf_size, settled))
        (same ∙ (ap (λ c. drop c (contents tx)) (sym settled) ∙ held)) same

  transmit_if_ready-Drains :
      (s : Handle R × W)
      → claimed s.0.tx_buffer ≡ 0
      → Drains contents s
          (if driver.irq_tx_ready s.1 then transmit_ready ring driver s.0 s.1 else s)
  transmit_if_ready-Drains (h, w) settled = elim (Bool-cases (driver.irq_tx_ready w)) [
    | inl ready ↦ rw ready (transmit_ready-Drains h w ready settled)
    | inr busy ↦ rw busy (kept refl refl)
  ]

  irq_round-Drains :
      (bytes : List ℕ) (h : Handle R) (w : W)
      → Streams contents claimed line bytes (h, w)
      → Drains contents (h, w) (irq_round ring driver h w)
  unfolding irq_round
  irq_round-Drains bytes h w s = elim (Bool-cases (driver.irq_rx_ready w)) [
    | inl ready ↦
        let r = receive_ready ring driver h w in
        rw ready (
          trans-Drains contents (h, w) r _ (keep_read-Drains _ _ h w _ _)
            (transmit_if_ready-Drains r
              (receive_ready-Streams ring driver contents claimed capacity line is_ring is_driver
                bytes h w s).settled))
    | inr idle ↦ rw idle (transmit_if_ready-Drains (h, w) s.settled)
  ]

  irq_cb-Drains :
      (fuel : ℕ) (bytes : List ℕ) (h : Handle R) (w : W) (s' : Handle R × W)
      → irq_cb ring driver fuel h w ≡ some s'
      → Streams contents claimed line bytes (h, w)
      → Drains contents (h, w) s'
  unfolding irq_cb
  irq_cb-Drains zero bytes h w s' ran s = absurd (none-ne-some _ ran)
  irq_cb-Drains (suc fuel) bytes h w s' ran s =
      let w1 = driver.irq_update w in
      let s1 : Streams contents claimed line bytes (h, w1) = record {
        whole = ap (λ l. l ++ contents h.tx_buffer) (is_driver.update_line w) ∙ s.whole;
        settled = s.settled;
      } in
      elim (Bool-cases (driver.irq_is_pending w1)) [
        | inl pending ↦
            let (h2, w2) = irq_round ring driver h w1 in
            trans-Drains contents (h, w) (h, w1) s' (kept refl refl)
              (trans-Drains contents (h, w1) (h2, w2) s' (irq_round-Drains bytes h w1 s1)
                (irq_cb-Drains fuel bytes h2 w2 s' (rw pending at ran) (
                  irq_round-Streams ring driver contents claimed capacity line is_ring is_driver
                    bytes h w1 s1)))
        | inr over ↦
            subst (Drains contents (h, w)) (some-injective _ _ (rw over at ran)) (kept refl refl)
      ]

  -- Any interrupts keep the stream, and give the semaphore only where they make room.
  pub Interrupts-Drains :
      (bytes : List ℕ) (s s' : Handle R × W)
      → Interrupts ring driver s s'
      → Streams contents claimed line bytes s
      → Streams contents claimed line bytes s' × Drains contents s s'
  Interrupts-Drains bytes _ _ (quiet s) streams = (streams, kept refl refl)
  Interrupts-Drains bytes _ _ (interrupt fuel s s1 s2 ran more) streams =
      let streams1 =
        irq_cb-Streams ring driver contents claimed capacity line is_ring is_driver fuel bytes s.0
          s1.0 s.1 s1.1 ran streams in
      let (streams2, drains) = Interrupts-Drains bytes s1 s2 more streams1 in
      (
        streams2,
        trans-Drains contents s s1 s2 (irq_cb-Drains fuel bytes s.0 s.1 s1 ran streams) drains,
      )

  module _ (kernel : Kernel R W) (tx_on : W → Bool)
      (is_kernel : IsKernel ring driver kernel contents claimed tx_on) where
    pub await_tx-Streams :
        (bytes : List ℕ) (h : Handle R) (w : W)
        → Streams contents claimed line bytes (h, w)
        → Streams contents claimed line bytes (kernel.await_tx h w)
    await_tx-Streams bytes h w streams =
        (Interrupts-Drains bytes (h, w) (kernel.await_tx h w) (is_kernel.await_interrupts h w)
          streams).0

    -- With the interrupt of the transmitter on, bytes to go out and the semaphore not given, the
    -- wait makes room.
    pub await_tx-room :
        (bytes : List ℕ) (h : Handle R) (w : W)
        → Streams contents claimed line bytes (h, w)
        → tx_on w ≡ true
        → h.tx_done ≡ false
        → 0 < length (contents h.tx_buffer)
        → length (contents (kernel.await_tx h w).0.tx_buffer) < length (contents h.tx_buffer)
    await_tx-room bytes h w streams on unset held =
        elim (Interrupts-Drains bytes (h, w) (kernel.await_tx h w) (is_kernel.await_interrupts h w)
          streams).1 [
            | sent less ↦ less
            | kept same done ↦ absurd (
                false≢true
                  (sym unset ∙ (sym done ∙ is_kernel.await_given h w on streams.settled held)))
          ]
