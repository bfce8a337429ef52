-- ===== src/Uart/Woken.antt =====
-- What the interrupt callback does to the bytes that come in, and what that makes of a wait.
use sdkz.Common.{
  ℕ, zero, suc, ◌<◌, ◌≡◌, ◌⊎◌, Bool, inl, inr, refl, sym, ap, ◌∙◌, true, false, some, List, [], ◌∷◌,
  ◌++◌, append_assoc, length, arith, length-append, ap₂, length-eq-zero, ◌==◌, ==→eq, if◌then◌else◌,
  Bool-cases, subst,
}
use mathlib.Core.Bool.{false≢true}
use mathlib.Core.Option.{some-injective, none-ne-some}
use sdkz.Common.Int.{ℤ, pos, negsuc}
use sdkz.Uart.{Handle, RingOps, Driver, Kernel, rx_buf_size, tx_buf_size}
use sdkz.Uart.Interrupt.{keep_read, receive_ready, finish_fill, fill, irq_round, irq_cb}
use sdkz.Uart.Receive.{IsWait, received}
use sdkz.Uart.Ring.{Interrupts, quiet, interrupt}
use sdkz.Uart.Incoming.{IsRxDriver, IsWoken, Receives}

module _ {R W : Type 0} (ring : RingOps R) (driver : Driver W) (contents : R → List ℕ)
    (incoming : W → List ℕ) (is_driver : IsRxDriver ring driver contents incoming) where
  -- Only the side that sends changes.
  same-Receives :
      (s s' : Handle R × W)
      → s'.0.rx_done ≡ s.0.rx_done
      → contents s'.0.rx_buffer ≡ contents s.0.rx_buffer
      → incoming s'.1 ≡ incoming s.1
      → Receives contents incoming s s'
  same-Receives s s' done same line = record {
    whole = ap₂ (◌++◌) same line;
    given = inr (done, same);
  }

  trans-Receives :
      (s s1 s2 : Handle R × W)
      → Receives contents incoming s s1
      → Receives contents incoming s1 s2
      → Receives contents incoming s s2
  trans-Receives s s1 s2 front back = record {
    whole = back.whole ∙ front.whole;
    given = go front.given back.given;
  }
    where
      go :
          ((s1.0.rx_done ≡ true)
              × (length (contents s.0.rx_buffer) < length (contents s1.0.rx_buffer)))
            ⊎ ((s1.0.rx_done ≡ s.0.rx_done) × (contents s1.0.rx_buffer ≡ contents s.0.rx_buffer))
          → ((s2.0.rx_done ≡ true)
              × (length (contents s1.0.rx_buffer) < length (contents s2.0.rx_buffer)))
            ⊎ ((s2.0.rx_done ≡ s1.0.rx_done) × (contents s2.0.rx_buffer ≡ contents s1.0.rx_buffer))
          → ((s2.0.rx_done ≡ true)
              × (length (contents s.0.rx_buffer) < length (contents s2.0.rx_buffer)))
            ⊎ ((s2.0.rx_done ≡ s.0.rx_done) × (contents s2.0.rx_buffer ≡ contents s.0.rx_buffer))
      go (inl (done, more)) (inl (done', more')) = inl (done', omega arith)
      go (inr (same, held)) (inl (done, more)) =
          inl (done, subst (λ c. length c < length (contents s2.0.rx_buffer)) held more)
      go (inl (done, more)) (inr (same, held)) =
          inl (same ∙ done, subst (λ c. length (contents s.0.rx_buffer) < length c) (sym held) more)
      go (inr (same1, held1)) (inr (same2, held2)) = inr (same2 ∙ same1, held2 ∙ held1)

  keep_read-Receives :
      (n : ℤ) (h : Handle R) (w : W)
      → let claim = ring.put_claim h.rx_buffer rx_buf_size in
        let read = driver.fifo_read claim.0 w in
        read.0 ≡ n
        → Receives contents incoming
            (h, w)
            (keep_read ring driver n read.1 (record h { rx_buffer = claim.1 }) read.2)
  keep_read-Receives (negsuc e) h w failed =
      same-Receives (h, w) _ refl (is_driver.claim_same h.rx_buffer rx_buf_size)
        (is_driver.read_error _ e w failed)
  keep_read-Receives (pos zero) h w got =
      let n = (ring.put_claim h.rx_buffer rx_buf_size).0 in
      same-Receives (h, w) _ refl (is_driver.claim_same h.rx_buffer rx_buf_size)
        (subst (λ bytes. bytes ++ incoming (driver.fifo_read n w).2 ≡ incoming w)
          (length-eq-zero _ (is_driver.read_count n 0 w got).0) (is_driver.read_front n 0 w got))
  keep_read-Receives (pos (suc k)) h w got =
      let n = (ring.put_claim h.rx_buffer rx_buf_size).0 in
      let (_, bytes, w') = driver.fifo_read n w in
      let (count, fits) = is_driver.read_count n (suc k) w got in
      let back = is_driver.finish_back h.rx_buffer rx_buf_size bytes (omega arith) in
      record {
        whole =
            ap (λ l. l ++ incoming w') back
            ∙ (append_assoc (contents h.rx_buffer) bytes (incoming w')
                ∙ ap (◌++◌ (contents h.rx_buffer)) (is_driver.read_front n (suc k) w got));
        given = inl (
          rw (is_driver.finish_fits h.rx_buffer rx_buf_size bytes (omega arith)) refl,
          omega (arith, ap length back, length-append (contents h.rx_buffer) bytes, count),
        );
      }

  receive_ready-Receives :
      (h : Handle R) (w : W) → Receives contents incoming (h, w) (receive_ready ring driver h w)
  receive_ready-Receives h w = keep_read-Receives _ h w refl

  finish_fill-Receives :
      (n : ℤ) (h : Handle R) (w : W)
      → Receives contents incoming (h, w) (finish_fill ring driver n h w)
  finish_fill-Receives (negsuc e) h w = same-Receives (h, w) _ refl refl refl
  finish_fill-Receives (pos zero) h w = same-Receives (h, w) _ refl refl refl
  finish_fill-Receives (pos (suc n)) h w = same-Receives (h, w) _ refl refl refl

  fill-Receives :
      (bytes : List ℕ) (tx : R) (h : Handle R) (w : W)
      → Receives contents incoming (h, w) (fill ring driver (bytes, tx) h w)
  fill-Receives [] tx h w =
      same-Receives (h, w) _ refl refl
        (elim (Bool-cases (ring.is_empty tx)) [
          | inl none_left ↦ rw none_left (is_driver.disable_same w)
          | inr some_left ↦ rw some_left refl
        ])
  fill-Receives (b ∷ bytes) tx h w =
      let (sent, w1) = driver.fifo_fill (b ∷ bytes) w in
      let h1 = record h { tx_buffer = tx } in
      trans-Receives (h, w) (h1, w1) _
        (same-Receives (h, w) (h1, w1) refl refl (is_driver.fill_same (b ∷ bytes) w))
        (finish_fill-Receives sent h1 w1)

  -- A step that the callback takes under a condition.
  if-Receives :
      (b : Bool) (s s' : Handle R × W)
      → Receives contents incoming s s'
      → Receives contents incoming s (if b then s' else s)
  if-Receives true s s' r = r
  if-Receives false s s' r = same-Receives s s refl refl refl

  irq_round-Receives :
      (h : Handle R) (w : W) → Receives contents incoming (h, w) (irq_round ring driver h w)
  unfolding irq_round
  irq_round-Receives h w =
      let s1 = if driver.irq_rx_ready w then receive_ready ring driver h w else (h, w) in
      let (claimed, tx) = ring.get_claim s1.0.tx_buffer tx_buf_size in
      trans-Receives (h, w) s1 _
        (if-Receives (driver.irq_rx_ready w) (h, w) _ (receive_ready-Receives h w))
        (if-Receives (driver.irq_tx_ready s1.1) s1 _ (fill-Receives claimed tx s1.0 s1.1))

  -- When the callback returns, no byte that comes in is lost, doubled or out of order: those in
  -- the ring buffer and those still to be read are together what they were before. Either the ring buffer
  -- has more bytes than before and the semaphore is given, or it has the same and the semaphore is
  -- as it was.
  pub irq_cb-Receives :
      (fuel : ℕ) (s s' : Handle R × W)
      → irq_cb ring driver fuel s.0 s.1 ≡ some s'
      → Receives contents incoming s s'
  unfolding irq_cb
  irq_cb-Receives zero s s' ran = absurd (none-ne-some _ ran)
  irq_cb-Receives (suc fuel) (h, w) s' ran =
      let w1 = driver.irq_update w in
      let updated = same-Receives (h, w) (h, w1) refl refl (is_driver.update_same w) in
      elim (Bool-cases (driver.irq_is_pending w1)) [
        | inl pending ↦
            trans-Receives (h, w) (h, w1) s' updated
              (trans-Receives (h, w1) (irq_round ring driver h w1) s' (irq_round-Receives h w1)
                (irq_cb-Receives fuel (irq_round ring driver h w1) s' (rw pending at ran)))
        | inr over ↦
            subst (Receives contents incoming (h, w)) (some-injective _ _ (rw over at ran)) updated
      ]

  Interrupts-Receives :
      (s s' : Handle R × W) → Interrupts ring driver s s' → Receives contents incoming s s'
  Interrupts-Receives _ _ (quiet s) = same-Receives s s refl refl refl
  Interrupts-Receives _ _ (interrupt fuel s s1 s2 ran more) =
      trans-Receives s s1 s2 (irq_cb-Receives fuel s s1 ran) (Interrupts-Receives s1 s2 more)

  module _ (kernel : Kernel R W) (is_woken : IsWoken ring driver kernel contents incoming) where
    woken_some :
        (h : Handle R) (w : W)
        → h.rx_done ≡ false
        → 0 < length (received contents incoming h w)
        → 0 < length (contents (kernel.await_rx h w).0.rx_buffer)
    woken_some h w unset come =
        elim (Interrupts-Receives (h, w) (kernel.await_rx h w) (is_woken.interrupts h w)).given [
          | inl (done, more) ↦ omega arith
          | inr (same, held) ↦ elim (Bool-cases (length (contents h.rx_buffer) == 0)) [
            | inr some_held ↦ subst (λ l. 0 < length l) (sym held) (ground arith)
            | inl empty ↦
                let waits = is_woken.woken h w (
                  omega (
                    arith,
                    come,
                    ==→eq (length (contents h.rx_buffer)) 0 empty,
                    length-append (contents h.rx_buffer) (incoming w),
                  )) in
                absurd (false≢true (sym unset ∙ (sym same ∙ waits)))
          ]
        ]

    -- A wait during which the callback runs some times moves bytes in order, and a thread that
    -- finds nothing has something afterwards.
    pub await_rx-IsWait : IsWait kernel contents incoming
    await_rx-IsWait = record {
      wait_moves =
          λ h w. (Interrupts-Receives (h, w) (kernel.await_rx h w) (is_woken.interrupts h w)).whole;
      wait_some = woken_some;
    }
