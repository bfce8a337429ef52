-- ===== src/Uart/Runs/TwoWay.antt =====
-- A line on which bytes come in and go out, one at a time.
use sdkz.Common.{
  ℕ, zero, suc, ◌+◌, ◌≤◌, ◌<◌, ◌≡◌, ◌⊎◌, refl, ap, Bool, true, false, none, List, [], ◌∷◌, ◌++◌,
  ◌||◌, length, take, arith, inl, inr,
}
use mathlib.Core.Bool.{false≢true}
use sdkz.Common.Int.{ℤ, pos, negsuc, pos_part, neg_part}
use sdkz.Uart.{Driver}
use sdkz.Uart.Ring.{IsDriver}
use sdkz.Uart.Incoming.{IsRxDriver}
use sdkz.Uart.Returns.{IsLive}
use sdkz.Uart.Runs.Buffer.{
  OneByte, empty, held, out, contents, claimed, room, put_claim, put_finish, one_byte,
}

pub record Duplex : Type 0 where
  pub come : List ℕ
  pub sent : List ℕ
  pub tx_on : Bool

abbrev some_come : List ℕ → Bool
some_come [] = false
some_come (b ∷ come) = true

abbrev read_one : ℕ → List ℕ → Duplex → ℤ × List ℕ × Duplex
read_one zero come w = (pos 0, [], record w { come = come })
read_one (suc n) [] w = (pos 0, [], record w { come = [] })
read_one (suc n) (b ∷ come) w = (pos 1, b ∷ [], record w { come = come })

abbrev fill_one : List ℕ → Duplex → ℤ × Duplex
fill_one [] w = (pos 0, w)
fill_one (b ∷ bytes) w = (pos 1, record w { sent = w.sent ++ (b ∷ []) })

abbrev pub duplex : Driver Duplex
duplex = record {
  tx = λ bytes w. (pos 0, w);
  callback_set = λ w. w;
  irq_callback_set = λ w. w;
  rx_enable = λ buf n w. w;
  rx_buf_rsp = λ buf n w. w;
  irq_update = λ w. w;
  irq_is_pending = λ w. some_come w.come || w.tx_on;
  irq_rx_ready = λ w. some_come w.come;
  irq_rx_enable = λ w. w;
  fifo_read = λ n w. read_one n w.come w;
  irq_tx_ready = λ w. true;
  irq_tx_enable = λ w. record w { tx_on = true };
  irq_tx_disable = λ w. record w { tx_on = false };
  fifo_fill = fill_one;
  poll_out = λ b w. w;
  poll_in = λ w. (none, w);
}

pub duplex-IsDriver : IsDriver duplex (λ w. w.sent)
duplex-IsDriver = record {
  fill_line = go;
  read_line = λ n w. go_read n w.come w;
  update_line = λ w. refl;
  enable_line = λ w. refl;
  disable_line = λ w. refl;
}
  where
    go :
        (bytes : List ℕ) (w : Duplex)
        → true ≡ true
        → 0 < length bytes
        → (k : ℕ) × ((fill_one bytes w).0 ≡ pos (suc k))
          × (suc k ≤ length bytes)
          × ((fill_one bytes w).1.sent ≡ w.sent ++ take (suc k) bytes)
    go [] w ready some_left = absurd (omega arith)
    go (b ∷ bytes) w ready some_left = (0, refl, omega arith, refl)

    go_read : (n : ℕ) (come : List ℕ) (w : Duplex) → (read_one n come w).2.sent ≡ w.sent
    go_read zero come w = refl
    go_read (suc n) [] w = refl
    go_read (suc n) (b ∷ come) w = refl

pub duplex-IsRxDriver : IsRxDriver one_byte duplex contents (λ w. w.come)
duplex-IsRxDriver = record {
  claim_same = go_claim;
  finish_fits = go_fits;
  finish_back = go_back;
  read_count = λ n k w e. go_count n k w.come w e;
  read_front = λ n k w e. go_front n w.come w;
  read_error = λ n e w failed. go_error n e w.come w failed;
  update_same = λ w. refl;
  fill_same = go_fill;
  disable_same = λ w. refl;
}
  where
    go_claim : (r : OneByte) (n : ℕ) → contents (put_claim r n).1 ≡ contents r
    go_claim empty zero = refl
    go_claim empty (suc n) = refl
    go_claim (held b) n = refl
    go_claim (out b) n = refl

    go_fits :
        (r : OneByte) (n : ℕ) (bytes : List ℕ)
        → length bytes ≤ (put_claim r n).0
        → (put_finish (put_claim r n).1 bytes).0 ≡ pos 0
    go_fits r n [] fits = refl
    go_fits empty zero (b ∷ bytes) fits = absurd (omega arith)
    go_fits empty (suc n) (b ∷ bytes) fits = refl
    go_fits (held a) n (b ∷ bytes) fits = absurd (omega arith)
    go_fits (out a) n (b ∷ bytes) fits = absurd (omega arith)

    go_back :
        (r : OneByte) (n : ℕ) (bytes : List ℕ)
        → length bytes ≤ (put_claim r n).0
        → contents (put_finish (put_claim r n).1 bytes).1 ≡ contents r ++ bytes
    go_back empty zero [] fits = refl
    go_back empty (suc n) [] fits = refl
    go_back (held a) n [] fits = refl
    go_back (out a) n [] fits = refl
    go_back empty zero (b ∷ bytes) fits = absurd (omega arith)
    go_back empty (suc n) (b ∷ []) fits = refl
    go_back empty (suc n) (b ∷ c ∷ bytes) fits = absurd (omega arith)
    go_back (held a) n (b ∷ bytes) fits = absurd (omega arith)
    go_back (out a) n (b ∷ bytes) fits = absurd (omega arith)

    go_count :
        (n k : ℕ) (come : List ℕ) (w : Duplex)
        → (read_one n come w).0 ≡ pos k
        → (length (read_one n come w).1 ≡ k) × (k ≤ n)
    go_count zero k come w e = (ap pos_part e, omega (arith, ap pos_part e))
    go_count (suc n) k [] w e = (ap pos_part e, omega (arith, ap pos_part e))
    go_count (suc n) k (b ∷ come) w e = (ap pos_part e, omega (arith, ap pos_part e))

    go_front :
        (n : ℕ) (come : List ℕ) (w : Duplex)
        → (read_one n come w).1 ++ (read_one n come w).2.come ≡ come
    go_front zero come w = refl
    go_front (suc n) [] w = refl
    go_front (suc n) (b ∷ come) w = refl

    go_error :
        (n e : ℕ) (come : List ℕ) (w : Duplex)
        → (read_one n come w).0 ≡ negsuc e
        → (read_one n come w).2.come ≡ come
    go_error zero e come w failed = refl
    go_error (suc n) e [] w failed = refl
    go_error (suc n) e (b ∷ come) w failed = absurd (omega (arith, ap neg_part failed))

    go_fill : (bytes : List ℕ) (w : Duplex) → (fill_one bytes w).1.come ≡ w.come
    go_fill [] w = refl
    go_fill (b ∷ bytes) w = refl

pub duplex-IsLive : IsLive one_byte duplex contents claimed room (λ w. w.come) (λ w. w.tx_on)
duplex-IsLive = record {
  pending_ready = λ w pending. go_pending w.come w.tx_on pending;
  ready_some = λ w ready. go_some w.come ready;
  read_some = λ n w ready room. go_read n w.come w ready room;
  put_some = go_put;
  put_room = go_room;
  get_some = go_get;
  empty_lem = go_empty;
  disable_off = λ w. refl;
  update_on = λ w. refl;
  read_on = λ n w. go_read_on n w.come w;
  fill_on = go_fill_on;
}
  where
    go_pending :
        (come : List ℕ) (on : Bool)
        → (some_come come || on) ≡ true
        → (some_come come ≡ true) ⊎ ((true ≡ true) × (on ≡ true))
    go_pending [] on pending = inr (refl, pending)
    go_pending (b ∷ come) on pending = inl refl

    go_some : (come : List ℕ) → some_come come ≡ true → 0 < length come
    go_some [] ready = absurd (false≢true ready)
    go_some (b ∷ come) ready = omega arith

    go_read :
        (n : ℕ) (come : List ℕ) (w : Duplex)
        → some_come come ≡ true
        → 0 < n
        → (k : ℕ) × ((read_one n come w).0 ≡ pos (suc k))
    go_read zero come w ready some_room = absurd (omega arith)
    go_read (suc n) [] w ready some_room = absurd (false≢true ready)
    go_read (suc n) (b ∷ come) w ready some_room = (0, refl)

    go_put : (r : OneByte) (n : ℕ) → 0 < n → 0 < room r → 0 < (put_claim r n).0
    go_put empty zero some_bytes some_room = absurd (omega arith)
    go_put empty (suc n) some_bytes some_room = omega arith
    go_put (held b) n some_bytes some_room = absurd (omega arith)
    go_put (out b) n some_bytes some_room = absurd (omega arith)

    go_room :
        (r : OneByte) (n : ℕ) (bytes : List ℕ)
        → length bytes ≤ (put_claim r n).0
        → room r ≤ room (put_finish (put_claim r n).1 bytes).1 + length bytes
    go_room empty zero [] fits = omega arith
    go_room empty (suc n) [] fits = omega arith
    go_room empty zero (b ∷ bytes) fits = omega arith
    go_room empty (suc n) (b ∷ bytes) fits = omega arith
    go_room (held a) n bytes fits = omega arith
    go_room (out a) n bytes fits = omega arith

    go_get :
        (r : OneByte) (n : ℕ)
        → 0 < n
        → claimed r ≡ 0
        → 0 < length (contents r)
        → 0 < length (one_byte.get_claim r n).0
    go_get empty n some_bytes settled some_held = absurd (omega arith)
    go_get (held b) zero some_bytes settled some_held = absurd (omega arith)
    go_get (held b) (suc n) some_bytes settled some_held = omega arith
    go_get (out b) n some_bytes settled some_held = absurd (omega arith)

    go_empty : (r : OneByte) → length (contents r) ≡ 0 → one_byte.is_empty r ≡ true
    go_empty empty none_held = refl
    go_empty (held b) none_held = absurd (omega arith)
    go_empty (out b) none_held = absurd (omega arith)

    go_read_on : (n : ℕ) (come : List ℕ) (w : Duplex) → (read_one n come w).2.tx_on ≡ w.tx_on
    go_read_on zero come w = refl
    go_read_on (suc n) [] w = refl
    go_read_on (suc n) (b ∷ come) w = refl

    go_fill_on : (bytes : List ℕ) (w : Duplex) → (fill_one bytes w).1.tx_on ≡ w.tx_on
    go_fill_on [] w = refl
    go_fill_on (b ∷ bytes) w = refl
