-- ===== src/Uart/Receive.antt =====
-- What `_recv_async_int` returns of the bytes that come in.
use sdkz.Common.{
  ℕ, suc, ◌<◌, ◌≡◌, inl, inr, refl, sym, ap, ◌∙◌, false, some, List, ◌++◌, append_assoc, length,
  arith, length-append, ◌==◌, Bool-cases, ==→eq, length-eq-zero, ne→==_false,
}
use sdkz.Uart.{Handle, RingOps, Driver, Kernel}
use sdkz.Uart.Interrupt.{recv_async_int}

-- <zephyr/sys/ring_buffer.h>: what is got is the front, in order; of a buffer that is not empty
-- something is got.
pub record IsRxBuffer {R : Type 0} (ring : RingOps R) (contents : R → List ℕ) : Type 0 where
  pub get_front : (r : R) (n : ℕ) → (ring.get r n).0 ++ contents (ring.get r n).1 ≡ contents r
  pub get_some : (r : R) (n : ℕ) → 0 < n → 0 < length (contents r) → 0 < length (ring.get r n).0

-- While the thread waits, the callback moves bytes from the line into the ring buffer, in order
-- and within its room; where the semaphore was not given before, at least one, if any come.
pub record IsWait {R W : Type 0} (kernel : Kernel R W) (contents : R → List ℕ)
    (incoming : W → List ℕ) : Type 0 where
  pub wait_moves :
      (h : Handle R) (w : W)
      → contents (kernel.await_rx h w).0.rx_buffer ++ incoming (kernel.await_rx h w).1
        ≡ contents h.rx_buffer ++ incoming w
  pub wait_some :
      (h : Handle R) (w : W)
      → h.rx_done ≡ false
      → 0 < length (contents h.rx_buffer ++ incoming w)
      → 0 < length (contents (kernel.await_rx h w).0.rx_buffer)

-- The bytes that are in the ring buffer or on the line.
abbrev pub received : {R W : Type 0} → (R → List ℕ) → (W → List ℕ) → Handle R → W → List ℕ
received contents incoming h w = contents h.rx_buffer ++ incoming w

module _ {R W : Type 0} (ring : RingOps R) (driver : Driver W) (kernel : Kernel R W)
    (contents : R → List ℕ) (incoming : W → List ℕ) (is_ring : IsRxBuffer ring contents)
    (is_wait : IsWait kernel contents incoming) where
  -- So much fuel gives some of the bytes, and leaves the others.
  abbrev pub Gives : ℕ → ℕ → Handle R → W → Type 0
  Gives len fuel h w =
      (bytes : List ℕ) × (h' : Handle R) × (w' : W) × (recv_async_int ring driver kernel len fuel h
          w
        ≡ some (bytes, h', w'))
      × (0 < length bytes)
      × (bytes ++ received contents incoming h' w' ≡ received contents incoming h w)

  nonempty-Gives :
      (len fuel : ℕ) (h : Handle R) (w : W)
      → 0 < len
      → 0 < length (contents h.rx_buffer)
      → Gives len (suc fuel) h w
  unfolding recv_async_int
  nonempty-Gives len fuel h w room held =
      let some_got = is_ring.get_some h.rx_buffer len room held in
      let (bytes, rx) = ring.get h.rx_buffer len in
      (
        bytes,
        record h { rx_buffer = rx },
        w,
        rw (recv_async_int, ne→==_false (length bytes) 0 (omega arith)) refl,
        some_got,
        sym (append_assoc bytes (contents rx) (incoming w))
            ∙ ap (λ x. x ++ incoming w) (is_ring.get_front h.rx_buffer len),
      )

  -- The state behind a wait.
  abbrev waiting : ℕ → Handle R → Handle R
  waiting len h = record h { rx_buffer = (ring.get h.rx_buffer len).1 }

  abbrev woken : ℕ → Handle R → W → Handle R
  woken len h w = record (kernel.await_rx (waiting len h) w).0 { rx_done = false }

  abbrev after_wait : ℕ → Handle R → W → W
  after_wait len h w = (kernel.await_rx (waiting len h) w).1

  got_nothing :
      (len : ℕ) (r : R)
      → length (contents r) ≡ 0
      → (length (ring.get r len).0 ≡ 0) × (length (contents (ring.get r len).1) ≡ 0)
  got_nothing len r empty =
      let (bytes, rx) = ring.get r len in
      let split = ap length (is_ring.get_front r len) in
      (
        omega (arith, length-append bytes (contents rx), split, empty),
        omega (arith, length-append bytes (contents rx), split, empty),
      )

  woken-received :
      (len : ℕ) (h : Handle R) (w : W)
      → length (contents h.rx_buffer) ≡ 0
      → received contents incoming (woken len h w) (after_wait len h w)
        ≡ received contents incoming h w
  woken-received len h w empty =
      let (none_got, none_left) = got_nothing len h.rx_buffer empty in
      is_wait.wait_moves (waiting len h) w
      ∙ ap (λ x. x ++ incoming w) (length-eq-zero _ none_left ∙ sym (length-eq-zero _ empty))

  waited-Gives :
      (len fuel : ℕ) (h : Handle R) (w : W)
      → length (contents h.rx_buffer) ≡ 0
      → Gives len fuel (woken len h w) (after_wait len h w)
      → Gives len (suc fuel) h w
  unfolding recv_async_int
  waited-Gives len fuel h w empty (bytes, h', w', run, some_got, whole) =
      let (none_got, none_left) = got_nothing len h.rx_buffer empty in
      (
        bytes,
        h',
        w',
        rw (recv_async_int, none_got) run,
        some_got,
        whole ∙ woken-received len h w empty,
      )

  -- With the semaphore not given, one wait is enough.
  unset-Gives :
      (len fuel : ℕ) (h : Handle R) (w : W)
      → 0 < len
      → h.rx_done ≡ false
      → 0 < length (received contents incoming h w)
      → Gives len (suc (suc fuel)) h w
  unset-Gives len fuel h w room unset come =
      elim (Bool-cases (length (contents h.rx_buffer) == 0)) [
        | inr held ↦ nonempty-Gives len (suc fuel) h w room (ground arith)
        | inl empty ↦
            let none = ==→eq (length (contents h.rx_buffer)) 0 empty in
            let (none_got, none_left) = got_nothing len h.rx_buffer none in
            waited-Gives len (suc fuel) h w none (
              nonempty-Gives len fuel (woken len h w) (after_wait len h w) room (
                is_wait.wait_some (waiting len h) w unset (
                  omega (
                    arith,
                    come,
                    none_left,
                    none,
                    length-append (contents h.rx_buffer) (incoming w),
                    length-append (contents (ring.get h.rx_buffer len).1) (incoming w),
                  ))))
      ]

  -- While bytes are in the ring buffer or come in, `_recv_async_int` returns within three looks at
  -- the buffer, with at least one byte, and what it returns is the front of those bytes: the
  -- others are still in the ring buffer or on the line, in order.
  pub recv_async_int-Gives :
      (len fuel : ℕ) (h : Handle R) (w : W)
      → 0 < len
      → 0 < length (received contents incoming h w)
      → Gives len (suc (suc (suc fuel))) h w
  recv_async_int-Gives len fuel h w room come =
      elim (Bool-cases (length (contents h.rx_buffer) == 0)) [
        | inr held ↦ nonempty-Gives len (suc (suc fuel)) h w room (ground arith)
        | inl empty ↦
            let none = ==→eq (length (contents h.rx_buffer)) 0 empty in
            waited-Gives len (suc (suc fuel)) h w none (
              unset-Gives len fuel (woken len h w) (after_wait len h w) room refl
                (omega (arith, come, ap length (woken-received len h w none))))
      ]
