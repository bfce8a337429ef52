-- ===== src/Uart/Runs/Buffer.antt =====
-- A ring buffer of one byte.
use sdkz.Common.{
  ℕ, zero, suc, ◌+◌, ◌≤◌, ◌<◌, ◌≡◌, refl, Bool, true, false, List, [], ◌∷◌, ◌++◌, length, take,
  drop, arith,
}
use sdkz.Common.Int.{ℤ, pos, negsuc}
use sdkz.Uart.{RingOps}
use sdkz.Uart.Ring.{IsRing}

-- Room for one byte, which may be handed out.
pub data OneByte : Type 0 where
  empty : OneByte
  held : ℕ → OneByte
  out : ℕ → OneByte

abbrev pub contents : OneByte → List ℕ
contents empty = []
contents (held b) = b ∷ []
contents (out b) = b ∷ []

abbrev pub claimed : OneByte → ℕ
claimed empty = 0
claimed (held b) = 0
claimed (out b) = 1

abbrev pub put : OneByte → List ℕ → ℕ × OneByte
put empty [] = (0, empty)
put empty (b ∷ bytes) = (1, held b)
put (held a) bytes = (0, held a)
put (out a) bytes = (0, out a)

abbrev pub get_claim : OneByte → ℕ → List ℕ × OneByte
get_claim empty n = ([], empty)
get_claim (held b) zero = ([], held b)
get_claim (held b) (suc n) = (b ∷ [], out b)
get_claim (out b) n = ([], out b)

abbrev pub get_finish : OneByte → ℕ → OneByte
get_finish empty k = empty
get_finish (held b) zero = held b
get_finish (held b) (suc k) = empty
get_finish (out b) zero = held b
get_finish (out b) (suc k) = empty

abbrev pub is_empty : OneByte → Bool
is_empty empty = true
is_empty (held b) = false
is_empty (out b) = false

abbrev pub put_claim : OneByte → ℕ → ℕ × OneByte
put_claim empty zero = (0, empty)
put_claim empty (suc n) = (1, empty)
put_claim (held b) n = (0, held b)
put_claim (out b) n = (0, out b)

abbrev pub put_finish : OneByte → List ℕ → ℤ × OneByte
put_finish r [] = (pos 0, r)
put_finish empty (b ∷ bytes) = (pos 0, held b)
put_finish (held a) (b ∷ bytes) = (negsuc 21, held a)
put_finish (out a) (b ∷ bytes) = (negsuc 21, out a)

-- The free bytes.
abbrev pub room : OneByte → ℕ
room empty = 1
room (held b) = 0
room (out b) = 0

abbrev pub one_byte : RingOps OneByte
one_byte = record {
  init = λ n. empty;
  put = put;
  get = λ r n. (contents r, empty);
  get_claim = get_claim;
  get_finish = get_finish;
  put_claim = put_claim;
  put_finish = put_finish;
  is_empty = is_empty;
}

pub one_byte-IsRing : IsRing one_byte contents claimed 1
one_byte-IsRing = record {
  some_room = omega arith;
  put_count = go_count;
  put_contents = go_contents;
  put_claimed = go_claimed;
  put_bound = go_bound;
  put_progress = go_progress;
  claim_contents = go_same;
  claim_claimed = go_out;
  claim_bytes = go_bytes;
  finish_contents = go_drop;
  finish_claimed = go_back;
}
  where
    go_count : (r : OneByte) (bytes : List ℕ) → (put r bytes).0 ≤ length bytes
    go_count empty [] = omega arith
    go_count empty (b ∷ bytes) = omega arith
    go_count (held a) bytes = omega arith
    go_count (out a) bytes = omega arith

    go_contents :
        (r : OneByte) (bytes : List ℕ)
        → contents (put r bytes).1 ≡ contents r ++ take (put r bytes).0 bytes
    go_contents empty [] = refl
    go_contents empty (b ∷ bytes) = refl
    go_contents (held a) bytes = refl
    go_contents (out a) bytes = refl

    go_claimed : (r : OneByte) (bytes : List ℕ) → claimed (put r bytes).1 ≡ claimed r
    go_claimed empty [] = refl
    go_claimed empty (b ∷ bytes) = refl
    go_claimed (held a) bytes = refl
    go_claimed (out a) bytes = refl

    go_bound : (r : OneByte) (bytes : List ℕ) → length (contents (put r bytes).1) ≤ 1
    go_bound empty [] = omega arith
    go_bound empty (b ∷ bytes) = omega arith
    go_bound (held a) bytes = omega arith
    go_bound (out a) bytes = omega arith

    go_progress :
        (r : OneByte) (bytes : List ℕ)
        → length (contents r) < 1
        → 0 < length bytes
        → 0 < (put r bytes).0
    go_progress empty [] room some_left = absurd (omega arith)
    go_progress empty (b ∷ bytes) room some_left = omega arith
    go_progress (held a) bytes room some_left = absurd (omega arith)
    go_progress (out a) bytes room some_left = absurd (omega arith)

    go_same : (r : OneByte) (n : ℕ) → contents (get_claim r n).1 ≡ contents r
    go_same empty n = refl
    go_same (held b) zero = refl
    go_same (held b) (suc n) = refl
    go_same (out b) n = refl

    go_out :
        (r : OneByte) (n : ℕ) → claimed (get_claim r n).1 ≡ claimed r + length (get_claim r n).0
    go_out empty n = refl
    go_out (held b) zero = refl
    go_out (held b) (suc n) = refl
    go_out (out b) n = refl

    go_bytes :
        (r : OneByte) (n : ℕ)
        → (rest : List ℕ) × (drop (claimed r) (contents r) ≡ (get_claim r n).0 ++ rest)
    go_bytes empty n = ([], refl)
    go_bytes (held b) zero = (b ∷ [], refl)
    go_bytes (held b) (suc n) = ([], refl)
    go_bytes (out b) n = ([], refl)

    go_drop :
        (r : OneByte) (k : ℕ) → k ≤ claimed r → contents (get_finish r k) ≡ drop k (contents r)
    go_drop empty zero h = refl
    go_drop empty (suc k) h = absurd (omega arith)
    go_drop (held b) zero h = refl
    go_drop (held b) (suc k) h = absurd (omega arith)
    go_drop (out b) zero h = refl
    go_drop (out b) (suc zero) h = refl
    go_drop (out b) (suc (suc k)) h = absurd (omega arith)

    go_back : (r : OneByte) (k : ℕ) → k ≤ claimed r → claimed (get_finish r k) ≡ 0
    go_back empty k h = refl
    go_back (held b) zero h = refl
    go_back (held b) (suc k) h = refl
    go_back (out b) zero h = refl
    go_back (out b) (suc k) h = refl
