-- ===== src/Ascii85/Groups.antt =====
-- One group of the decoder on the characters that stand for one to four bytes.
use sdkz.Common.{
  ℕ, ◌+◌, ◌-◌, ◌*◌, ◌/◌, ◌%◌, ◌^◌, ◌≤◌, ◌<◌, ◌≡◌, ap, ap₂, ◌∙◌, false, none, some, List, [], ◌∷◌,
  ◌++◌, append_assoc, arith, ◌==◌, length, length-append, length-drop, length-take, take,
  take-append-drop, drop, store_four-append, Option,
}
use sdkz.Common.Int.{pos}
use sdkz.Ascii85.{
  returned, z_char, put_bytes, decode_loop, decode_rest, char_ng, char_digit, high_digits,
  last_digit, digit_or_pad,
}
use sdkz.Ascii85.Text.{word, word_chars, Writes}
use sdkz.Ascii85.Words.{
  high_digits-eq, last_digit-eq, digits_value, first_digit-lt, char_digit-add, pad_one, pad_two,
  pad_three,
}

abbrev pub word_bytes : ℕ → List ℕ
word_bytes v = (v / 256 / 256 / 256) ∷ (v / 256 / 256 % 256) ∷ (v / 256 % 256) ∷ (v % 256) ∷ []

put_bytes-append :
    (front room : List ℕ) (v : ℕ)
    → v < 2 ^ 32
    → 4 ≤ length room
    → put_bytes (front ++ room) (length front) v ≡ some (front ++ (word_bytes v ++ drop 4 room))
unfolding put_bytes
put_bytes-append front room v hv h = rw (store_four-append front room _ _ _ _ h) (
    ap
      (λ a. some (front ++ (a ∷ (v / 256 / 256 % 256) ∷ (v / 256 % 256) ∷ (v % 256) ∷ drop 4 room)))
      (omega arith))

-- A character of a digit is no 'z' and is in range.
pub digit_not_z : (d : ℕ) → d < 85 → (d + 33 == z_char) ≡ false
digit_not_z d h = ground arith

pub digit_ok : (d : ℕ) → d < 85 → char_ng (d + 33) ≡ false
digit_ok d h = ground arith

pub cong_four :
    {a b c d x y z w : ℕ} → a ≡ x → b ≡ y → c ≡ z → d ≡ w → a ∷ b ∷ c ∷ d ∷ [] ≡ x ∷ y ∷ z ∷ w ∷ []
cong_four p q r s = cc

cong_three : {a b c x y z : ℕ} → a ≡ x → b ≡ y → c ≡ z → a ∷ b ∷ c ∷ [] ≡ x ∷ y ∷ z ∷ []
cong_three p q r = cc

mod-lt : (n : ℕ) → n % 85 < 85
mod-lt n = omega arith

-- The decoder's arithmetic on the characters of the digits `p` to `t`.
chunk_of_digits :
    (p q r s t : ℕ)
    → p < 85
    → q < 85
    → r < 85
    → s < 85
    → t < 85
    → (((p * 85 + q) * 85 + r) * 85 + s) * 85 + t < 2 ^ 32
    → last_digit
        (high_digits
          (char_digit (p + 33))
          (char_digit (q + 33))
          (char_digit (r + 33))
          (char_digit (s + 33)))
        (char_digit (t + 33))
      ≡ some ((((p * 85 + q) * 85 + r) * 85 + s) * 85 + t)
chunk_of_digits p q r s t hp hq hr hs ht h =
    rw
      (
        char_digit-add p hp,
        char_digit-add q hq,
        char_digit-add r hr,
        char_digit-add s hs,
        char_digit-add t ht,
        high_digits-eq p q r s hp hq hr hs,
      )
      (last_digit-eq (((p * 85 + q) * 85 + r) * 85 + s) t ht h)

chunk_of_chars :
    (v : ℕ)
    → v < 2 ^ 32
    → last_digit
        (high_digits
          (char_digit (v / 85 / 85 / 85 / 85 + 33))
          (char_digit (v / 85 / 85 / 85 % 85 + 33))
          (char_digit (v / 85 / 85 % 85 + 33))
          (char_digit (v / 85 % 85 + 33)))
        (char_digit (v % 85 + 33))
      ≡ some v
chunk_of_chars v h =
    chunk_of_digits _ _ _ _ _ (first_digit-lt v h) (mod-lt _) (mod-lt _) (mod-lt _) (mod-lt _)
      (omega (arith, digits_value v h))
    ∙ ap some (digits_value v h)

module _ (front room : List ℕ) where
  pub decode_loop_five :
      (v : ℕ) (rest : List ℕ)
      → v < 2 ^ 32
      → 4 ≤ length room
      → decode_loop (word_chars v ++ rest) (front ++ room) (length front)
        ≡ decode_loop rest ((front ++ word_bytes v) ++ drop 4 room) (length (front ++ word_bytes v))
  unfolding decode_loop
  decode_loop_five v rest hv h =
      let d0 = first_digit-lt v hv in
      rw (
        digit_not_z _ d0,
        digit_ok _ d0,
        digit_ok _ (mod-lt (v / 85 / 85 / 85)),
        digit_ok _ (mod-lt (v / 85 / 85)),
        digit_ok _ (mod-lt (v / 85)),
        digit_ok _ (mod-lt v),
        chunk_of_chars v hv,
        put_bytes-append front room v hv h,
        append_assoc,
        length-append,
      )

  pub decode_loop_z :
      (rest : List ℕ)
      → 4 ≤ length room
      → decode_loop (z_char ∷ rest) (front ++ room) (length front)
        ≡ decode_loop rest ((front ++ word_bytes 0) ++ drop 4 room) (length (front ++ word_bytes 0))
  unfolding decode_loop
  decode_loop_z [] h =
      rw (put_bytes-append front room 0 (omega arith) h, append_assoc, length-append)
  decode_loop_z (b ∷ []) h =
      rw (put_bytes-append front room 0 (omega arith) h, append_assoc, length-append)
  decode_loop_z (b ∷ c ∷ []) h =
      rw (put_bytes-append front room 0 (omega arith) h, append_assoc, length-append)
  decode_loop_z (b ∷ c ∷ d ∷ []) h =
      rw (put_bytes-append front room 0 (omega arith) h, append_assoc, length-append)
  decode_loop_z (b ∷ c ∷ d ∷ e ∷ rest) h =
      rw (put_bytes-append front room 0 (omega arith) h, append_assoc, length-append)

  decode_rest-Writes :
      (k w a : ℕ) (b c d : Option ℕ)
      → k ≤ 4
      → w < 2 ^ 32
      → 4 ≤ length room
      → last_digit
          (high_digits (char_digit a) (digit_or_pad b) (digit_or_pad c) (digit_or_pad d))
          (digit_or_pad none)
        ≡ some w
      → {text : List ℕ} → take (k - 1) (word_bytes w) ≡ text
      → Writes front text room (decode_rest k a b c d (front ++ room) (length front))
  unfolding decode_rest
  decode_rest-Writes k w a b c d hk hw h e same =
      let bytes = word_bytes w in
      rw (← same, e, put_bytes-append front room w hw h)
        (
          drop (k - 1) bytes ++ drop 4 room,
          rw (take-append-drop (k - 1) bytes (drop 4 room), length-take (k - 1) bytes)
              (ap (λ n. returned (pos n) (front ++ (bytes ++ drop 4 room))) (omega arith)),
          rw length-append (
              omega
                (arith, length-take (k - 1) bytes, length-drop (k - 1) bytes, length-drop 4 room)),
        )

  -- The last groups, of one, two and three bytes.
  pub decode_one :
      (a : ℕ)
      → a < 256
      → 4 ≤ length room
      → Writes front
          (a ∷ [])
          room
          (decode_loop (take 2 (word_chars (word a 0 0 0))) (front ++ room) (length front))
  unfolding decode_loop
  decode_one a ha h =
      let v : ℕ = word a 0 0 0 in
      let small : v < 2 ^ 32 = omega arith in
      let d0 = first_digit-lt v small in
      let d1 = mod-lt (v / 85 / 85 / 85) in
      let (fits, same) = pad_three v (omega arith) small in
      let read =
        chunk_of_digits _ _ 84 84 84 d0 d1 (omega arith) (omega arith) (omega arith) fits in
      rw (digit_not_z _ d0, digit_ok _ d0, digit_ok _ d1)
        (decode_rest-Writes 2 _ _ (some (v / 85 / 85 / 85 % 85 + 33)) none none (omega arith) fits h
          read (ap (λ n. n ∷ []) (same ∙ omega arith)))

  pub decode_two :
      (a b : ℕ)
      → a < 256
      → b < 256
      → 4 ≤ length room
      → Writes front
          (a ∷ b ∷ [])
          room
          (decode_loop (take 3 (word_chars (word a b 0 0))) (front ++ room) (length front))
  unfolding decode_loop
  decode_two a b ha hb h =
      let v : ℕ = word a b 0 0 in
      let small : v < 2 ^ 32 = omega arith in
      let d0 = first_digit-lt v small in
      let d1 = mod-lt (v / 85 / 85 / 85) in
      let d2 = mod-lt (v / 85 / 85) in
      let (fits, same) = pad_two v (omega arith) small in
      let read = chunk_of_digits _ _ _ 84 84 d0 d1 d2 (omega arith) (omega arith) fits in
      rw (digit_not_z _ d0, digit_ok _ d0, digit_ok _ d1, digit_ok _ d2)
        (decode_rest-Writes 3 _ _ (some (v / 85 / 85 / 85 % 85 + 33)) (some (v / 85 / 85 % 85 + 33))
          none (omega arith) fits h read
          (ap₂ (λ m n. m ∷ n ∷ []) (ap (λ n. n / 256) same ∙ omega arith)
            (ap (λ n. n % 256) same ∙ omega arith)))

  pub decode_three :
      (a b c : ℕ)
      → a < 256
      → b < 256
      → c < 256
      → 4 ≤ length room
      → Writes front
          (a ∷ b ∷ c ∷ [])
          room
          (decode_loop (take 4 (word_chars (word a b c 0))) (front ++ room) (length front))
  unfolding decode_loop
  decode_three a b c ha hb hc h =
      let v : ℕ = word a b c 0 in
      let small : v < 2 ^ 32 = omega arith in
      let d0 = first_digit-lt v small in
      let d1 = mod-lt (v / 85 / 85 / 85) in
      let d2 = mod-lt (v / 85 / 85) in
      let d3 = mod-lt (v / 85) in
      let (fits, same) = pad_one v (omega arith) small in
      let read = chunk_of_digits _ _ _ _ 84 d0 d1 d2 d3 (omega arith) fits in
      rw (digit_not_z _ d0, digit_ok _ d0, digit_ok _ d1, digit_ok _ d2, digit_ok _ d3)
        (decode_rest-Writes 4 _ _ (some (v / 85 / 85 / 85 % 85 + 33)) (some (v / 85 / 85 % 85 + 33))
          (some (v / 85 % 85 + 33)) (omega arith) fits h read
          (cong_three (ap (λ n. n / 256 / 256) same ∙ omega arith)
            (ap (λ n. n / 256 % 256) same ∙ omega arith) (ap (λ n. n % 256) same ∙ omega arith)))
