-- ===== src/Uart/Poll.antt =====
-- The polling API: `_send_poll` and `_recv_poll`, with their semaphores given when they begin.
use sdkz.Common.{ℕ, zero, suc, none, some, List, [], ◌∷◌, length}
use sdkz.Uart.{Driver}

module _ {W : Type 0} (driver : Driver W) where
  abbrev pub poll_out_all : List ℕ → W → W
  poll_out_all [] w = w
  poll_out_all (b ∷ bytes) w = poll_out_all bytes (driver.poll_out b w)

  unfoldable pub send_poll : List ℕ → W → ℕ × W
  send_poll bytes w = (length bytes, poll_out_all bytes w)

  -- Up to `len` bytes, until the driver has none.
  unfoldable pub recv_poll : ℕ → W → List ℕ × W
  recv_poll zero w = ([], w)
  recv_poll (suc len) w =
      let (got, w1) = driver.poll_in w in
      let (bytes, w2) = recv_poll len w1 in elim got [ none ↦ ([], w1) | some b ↦ (b ∷ bytes, w2) ]
