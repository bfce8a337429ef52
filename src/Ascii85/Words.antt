-- ===== src/Ascii85/Words.antt =====
-- The chunk of a group in plain arithmetic: what `pack_chunk` joins, and what the decoder's
-- Horner steps give on the characters that the encoder writes.
use sdkz.Common.{ℕ, ◌+◌, ◌*◌, ◌/◌, ◌%◌, ◌^◌, bit_or, ◌<◌, ◌≡◌, some, arith}
use sdkz.Common.Bits.{bit_or-eq-add}
use sdkz.Ascii85.{pack_chunk, char_digit, high_digits, last_digit}

module _ (a b c d : ℕ) (ha : a < 256) (hb : b < 256) (hc : c < 256) (hd : d < 256) where
  pub pack_chunk-eq-add : pack_chunk a b c d ≡ a * 2 ^ 24 + b * 2 ^ 16 + c * 2 ^ 8 + d
  unfolding pack_chunk
  pack_chunk-eq-add =
      rw (a_fits, b_fits, c_fits, first, regroup_two, second, regroup_three, third) (omega arith)
    where
      a_fits : a * 2 ^ 24 % 2 ^ 32 ≡ a * 2 ^ 24
      a_fits = omega arith

      b_fits : b * 2 ^ 16 % 2 ^ 32 ≡ b * 2 ^ 16
      b_fits = omega arith

      c_fits : c * 2 ^ 8 % 2 ^ 32 ≡ c * 2 ^ 8
      c_fits = omega arith

      first : bit_or (a * 2 ^ 24) (b * 2 ^ 16) ≡ a * 2 ^ 24 + b * 2 ^ 16
      first = bit_or-eq-add 24 a (b * 2 ^ 16) (omega arith)

      regroup_two : a * 2 ^ 24 + b * 2 ^ 16 ≡ (a * 256 + b) * 2 ^ 16
      regroup_two = omega arith

      second : bit_or ((a * 256 + b) * 2 ^ 16) (c * 2 ^ 8) ≡ (a * 256 + b) * 2 ^ 16 + c * 2 ^ 8
      second = bit_or-eq-add 16 (a * 256 + b) (c * 2 ^ 8) (omega arith)

      regroup_three : (a * 256 + b) * 2 ^ 16 + c * 2 ^ 8 ≡ ((a * 256 + b) * 256 + c) * 2 ^ 8
      regroup_three = omega arith

      third : bit_or (((a * 256 + b) * 256 + c) * 2 ^ 8) d ≡ ((a * 256 + b) * 256 + c) * 2 ^ 8 + d
      third = bit_or-eq-add 8 ((a * 256 + b) * 256 + c) d (omega arith)

-- Horner's steps do not wrap on digits below 85.
pub high_digits-eq :
    (p q r s : ℕ)
    → p < 85
    → q < 85
    → r < 85
    → s < 85
    → high_digits p q r s ≡ ((p * 85 + q) * 85 + r) * 85 + s
unfolding high_digits
high_digits-eq p q r s hp hq hr hs = omega arith

pub last_digit-eq :
    (chunk digit : ℕ)
    → digit < 85
    → chunk * 85 + digit < 2 ^ 32
    → last_digit chunk digit ≡ some (chunk * 85 + digit)
unfolding last_digit
last_digit-eq chunk digit hd h = ground arith

-- The five base-85 digits of a 32-bit value, and the value that they spell.
pub digits_value :
    (v : ℕ)
    → v < 2 ^ 32
    → (((v / 85 / 85 / 85 / 85 * 85 + v / 85 / 85 / 85 % 85) * 85 + v / 85 / 85 % 85) * 85
            + v / 85 % 85)
          * 85
        + v % 85
      ≡ v
digits_value v h = omega arith

pub first_digit-lt : (v : ℕ) → v < 2 ^ 32 → v / 85 / 85 / 85 / 85 < 85
first_digit-lt v h = omega arith

pub char_digit-add : (d : ℕ) → d < 85 → char_digit (d + 33) ≡ d
char_digit-add d h = omega arith

-- The last group: the digits that are cut off are read as 84, and the bytes that were there
-- come back. `v` is the padded chunk, `w` what the decoder reads.
pub pad_three :
    (v : ℕ)
    → v % 2 ^ 24 ≡ 0
    → v < 2 ^ 32
    → let w =
        (((v / 85 / 85 / 85 / 85 * 85 + v / 85 / 85 / 85 % 85) * 85 + 84) * 85 + 84) * 85 + 84 in
      (w < 2 ^ 32) × (w / 256 / 256 / 256 ≡ v / 256 / 256 / 256)
pad_three v e h = omega arith

pub pad_two :
    (v : ℕ)
    → v % 2 ^ 16 ≡ 0
    → v < 2 ^ 32
    → let w =
        (((v / 85 / 85 / 85 / 85 * 85 + v / 85 / 85 / 85 % 85) * 85 + v / 85 / 85 % 85) * 85 + 84)
          * 85
        + 84 in
      (w < 2 ^ 32) × (w / 256 / 256 ≡ v / 256 / 256)
pad_two v e h = omega arith

pub pad_one :
    (v : ℕ)
    → v % 2 ^ 8 ≡ 0
    → v < 2 ^ 32
    → let w =
        (((v / 85 / 85 / 85 / 85 * 85 + v / 85 / 85 / 85 % 85) * 85 + v / 85 / 85 % 85) * 85
            + v / 85 % 85)
          * 85
        + 84 in
      (w < 2 ^ 32) × (w / 256 ≡ v / 256)
pad_one v e h = omega arith
