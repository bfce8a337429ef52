-- ===== src/HupServer/Runs/Incoming.antt =====
-- A UART whose callback moves one byte at a time into a ring buffer, and a kernel that runs it once
-- while the thread waits.
use sdkz.Common.{
  ℕ, zero, suc, ◌<◌, ◌≡◌, refl, ap, Bool, some, false, true, none, List, [], ◌∷◌, ◌++◌, length,
  take, drop, take-drop, length-take, arith,
}
use sdkz.Common.Int.{pos, pos_part, neg_part}
use sdkz.Uart.{Handle, RingOps, Driver, Kernel}
use sdkz.Uart.Interrupt.{irq_cb}
use sdkz.Uart.Ring.{interrupt, quiet}
use sdkz.Uart.Incoming.{IsRxDriver, IsWoken}
use sdkz.Uart.Woken.{await_rx-IsWait}
use sdkz.Uart.Receive.{IsRxBuffer, IsWait}

-- The bytes of a ring buffer, or of the line.
abbrev pub Line : Type 0
Line = List ℕ

abbrev pub ring : RingOps Line
ring = record {
  init = λ n. [];
  put = λ r bytes. (length bytes, r ++ bytes);
  get = λ r n. (take n r, drop n r);
  get_claim = λ r n. (take n r, r);
  get_finish = λ r n. drop n r;
  put_claim = λ r n. (1, r);
  put_finish = λ r bytes. (pos 0, r ++ bytes);
  is_empty = λ r. true;
}

abbrev some_come : Line → Bool
some_come [] = false
some_come (b ∷ line) = true

abbrev pub driver : Driver Line
driver = record {
  tx = λ bytes w. (pos 0, w);
  callback_set = λ w. w;
  irq_callback_set = λ w. w;
  rx_enable = λ buf n w. w;
  rx_buf_rsp = λ buf n w. w;
  irq_update = λ w. w;
  irq_is_pending = some_come;
  irq_rx_ready = some_come;
  irq_rx_enable = λ w. w;
  fifo_read = λ n w. (pos (length (take n w)), take n w, drop n w);
  irq_tx_ready = λ w. false;
  irq_tx_enable = λ w. w;
  irq_tx_disable = λ w. w;
  fifo_fill = λ bytes w. (pos 0, w);
  poll_out = λ b w. w;
  poll_in = λ w. (none, w);
}

abbrev pub move_all : Line → Handle Line → Handle Line × Line
move_all [] h = (h, [])
move_all (b ∷ line) h =
    move_all line (record h { rx_buffer = h.rx_buffer ++ (b ∷ []); rx_done = true })

abbrev pub kernel : Kernel Line Line
kernel = record { msleep = λ h w. (h, w); await_tx = λ h w. (h, w); await_rx = λ h w. move_all w h }

abbrev pub opened : Handle Line
opened = record {
  tx_done = false;
  rx_done = false;
  tx_buffer = [];
  rx_buffer = [];
  fifo_next = 0;
  bytes_send = pos 0;
}

pub ring-IsRxBuffer : IsRxBuffer ring (λ r. r)
ring-IsRxBuffer = record { get_front = λ r n. take-drop n r; get_some = go }
  where
    go : (r : Line) (n : ℕ) → 0 < n → 0 < length r → 0 < length (take n r)
    go [] n room held = absurd (omega arith)
    go (b ∷ r) zero room held = room
    go (b ∷ r) (suc n) room held = omega arith

pub driver-IsRxDriver : IsRxDriver ring driver (λ r. r) (λ line. line)
driver-IsRxDriver = record {
  claim_same = λ r n. refl;
  finish_fits = λ r n bytes fits. refl;
  finish_back = λ r n bytes fits. refl;
  read_count = λ n k w got. (ap pos_part got, omega (arith, length-take n w, ap pos_part got));
  read_front = λ n k w got. take-drop n w;
  read_error = λ n e w failed. absurd (omega (arith, ap neg_part failed));
  update_same = λ w. refl;
  fill_same = λ bytes w. refl;
  disable_same = λ w. refl;
}

pub irq_cb-move_all :
    (line : Line) (h : Handle Line)
    → irq_cb ring driver (suc (length line)) h line ≡ some (move_all line h)
unfolding irq_cb
irq_cb-move_all [] h = refl
irq_cb-move_all (b ∷ line) h =
    irq_cb-move_all line (record h { rx_buffer = h.rx_buffer ++ (b ∷ []); rx_done = true })

move_all-rx_done :
    (line : Line) (h : Handle Line) → h.rx_done ≡ true → (move_all line h).0.rx_done ≡ true
move_all-rx_done [] h given = given
move_all-rx_done (b ∷ line) h given = move_all-rx_done line _ refl

kernel-IsWoken : IsWoken ring driver kernel (λ r. r) (λ line. line)
kernel-IsWoken = record {
  interrupts = λ h w. interrupt _ (h, w) _ _ (irq_cb-move_all w h) (quiet _);
  woken = go;
}
  where
    go : (h : Handle Line) (w : Line) → 0 < length w → (move_all w h).0.rx_done ≡ true
    go h [] come = absurd (omega arith)
    go h (b ∷ line) come = move_all-rx_done line _ refl

pub kernel-IsWait : IsWait kernel (λ r. r) (λ line. line)
kernel-IsWait =
    await_rx-IsWait ring driver (λ r. r) (λ line. line) driver-IsRxDriver kernel kernel-IsWoken
