-- ===== src/Uart/Line.antt =====
-- The polling API over a line that ends where it begins.
use sdkz.Common.{
  ℕ, zero, suc, ◌≡◌, refl, sym, ap, ◌∙◌, none, some, List, [], ◌∷◌, ◌++◌, append_assoc, append-nil,
  length, take, drop,
}
use sdkz.Uart.{Driver}
use sdkz.Uart.Poll.{poll_out_all, send_poll, recv_poll}

-- <zephyr/drivers/uart.h>, of a line that ends where it begins: a byte goes out behind those on
-- the line, and the first of these comes in.
record IsLine {W : Type 0} (driver : Driver W) (line : W → List ℕ) : Type 0 where
  pub out_line : (b : ℕ) (w : W) → line (driver.poll_out b w) ≡ line w ++ (b ∷ [])
  pub in_none :
      (w : W) → line w ≡ [] → ((driver.poll_in w).0 ≡ none) × (line (driver.poll_in w).1 ≡ [])
  pub in_some :
      (w : W) (b : ℕ) (bytes : List ℕ)
      → line w ≡ b ∷ bytes
      → ((driver.poll_in w).0 ≡ some b) × (line (driver.poll_in w).1 ≡ bytes)

module _ {W : Type 0} (driver : Driver W) (line : W → List ℕ) (is_line : IsLine driver line) where
  poll_out_all-line :
      (bytes : List ℕ) (w : W) → line (poll_out_all driver bytes w) ≡ line w ++ bytes
  poll_out_all-line [] w = sym (append-nil (line w))
  poll_out_all-line (b ∷ bytes) w =
      poll_out_all-line bytes (driver.poll_out b w)
      ∙ (ap (λ l. l ++ bytes) (is_line.out_line b w) ∙ append_assoc (line w) (b ∷ []) bytes)

  recv_poll_line :
      (len : ℕ) (bytes : List ℕ) (w : W)
      → line w ≡ bytes
      → ((recv_poll driver len w).0 ≡ take len bytes)
        × (line (recv_poll driver len w).1 ≡ drop len bytes)
  unfolding recv_poll
  recv_poll_line zero bytes w e = (refl, e)
  recv_poll_line (suc len) [] w e =
      let (got, rest) = is_line.in_none w e in rw (got, recv_poll) (refl, rest)
  recv_poll_line (suc len) (b ∷ bytes) w e =
      let (got, rest) = is_line.in_some w b bytes e in
      let (taken, kept) = recv_poll_line len bytes (driver.poll_in w).1 rest in
      rw (got, recv_poll) (ap (◌∷◌ b) taken, kept)

  -- `_send_poll` sends all bytes, and `_recv_poll` then reads as many of the bytes on the line as
  -- it is asked for, or all there are: those that were there first, then those sent, in order; the
  -- others stay on the line.
  recv_poll-send_poll :
      (len : ℕ) (bytes : List ℕ) (w : W)
      → let (sent, w1) = send_poll driver bytes w in
        let (got, w2) = recv_poll driver len w1 in
        (sent ≡ length bytes)
        × (got ≡ take len (line w ++ bytes))
        × (line w2 ≡ drop len (line w ++ bytes))
  unfolding send_poll
  recv_poll-send_poll len bytes w =
      let (got, kept) =
        recv_poll_line len (line w ++ bytes) (poll_out_all driver bytes w)
          (poll_out_all-line bytes w) in
      (refl, got, kept)
