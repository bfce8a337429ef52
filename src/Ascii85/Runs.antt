-- ===== src/Ascii85/Runs.antt =====
-- Runs of the Ascii85 coders, and the theorems at concrete inputs.
use sdkz.Common.{ℕ, ◌≡◌, refl, List, [], ◌∷◌, ◌++◌, arith, length, replicate}
use sdkz.Common.Int.{pos}
use sdkz.Ascii85.{
  returned, encode_ascii85, decode_ascii85, encode_loop, decode_loop, pack_chunk, put_chars,
  put_bytes, decode_rest, err_bad_decode_char, err_decode_overflow,
}
use sdkz.Ascii85.Text.{encoding, Writes}
use sdkz.Ascii85.Encode.{encode_ascii85-Writes}
use sdkz.Ascii85.RoundTrip.{decode_ascii85-encoding, decode_ascii85-encode_ascii85}
use sdkz.Ascii85.Bounds.{Returns, decode_ascii85-Returns}
use sdkz.Ascii85.Errors.{two, decode_ascii85_overflow}

-- "Man sure" of the usual example, and five bytes with a zero group.
abbrev man_ : List ℕ
man_ = 77 ∷ 97 ∷ 110 ∷ 32 ∷ 115 ∷ 117 ∷ []

abbrev blank : List ℕ
blank = replicate 48 0

encode_man :
    encode_ascii85 man_ (pos 6) (replicate 10 0) (pos 10)
    ≡ returned (pos 8) (57 ∷ 106 ∷ 113 ∷ 111 ∷ 94 ∷ 70 ∷ 42 ∷ 46 ∷ 72 ∷ 95 ∷ [])
unfolding encode_ascii85 encode_loop pack_chunk put_chars
encode_man = refl

-- A zero group is one character, and reads back as four bytes.
decode_zero :
    decode_ascii85 (122 ∷ 114 ∷ 114 ∷ []) (pos 3) (replicate 12 7) (pos 12)
    ≡ returned (pos 5) (0 ∷ 0 ∷ 0 ∷ 0 ∷ 255 ∷ 6 ∷ 99 ∷ 234 ∷ 7 ∷ 7 ∷ 7 ∷ 7 ∷ [])
unfolding decode_ascii85 decode_loop put_bytes decode_rest
decode_zero = refl

decode_bad_char :
    decode_ascii85 (33 ∷ 32 ∷ []) (pos 2) (replicate 8 7) (pos 8)
    ≡ returned err_bad_decode_char (replicate 8 7)
unfolding decode_ascii85 decode_loop put_bytes decode_rest
decode_bad_char = refl

encode_ascii85-Writes_example :
    Writes [] (encoding man_) blank (encode_ascii85 man_ (pos 6) blank (pos 48))
encode_ascii85-Writes_example =
    encode_ascii85-Writes man_ blank 48 (omega arith) (omega arith) (omega arith) (omega arith)

decode_ascii85-encoding_example :
    Writes [] man_ blank
      (decode_ascii85 (encoding man_ ++ (33 ∷ [])) (pos (length (encoding man_))) blank (pos 48))
decode_ascii85-encoding_example =
    decode_ascii85-encoding man_ (33 ∷ []) blank 48 (omega arith) (unfold encoding in omega arith)
      (unfold encoding in omega arith) (omega arith)

decode_ascii85-encode_ascii85_example :
    (n : ℕ) × (filled left : List ℕ) × (encode_ascii85 man_ (pos 6) blank (pos 48)
      ≡ returned (pos n) filled)
    × (decode_ascii85 filled (pos n) blank (pos 48) ≡ returned (pos 6) (man_ ++ left))
decode_ascii85-encode_ascii85_example =
    decode_ascii85-encode_ascii85 man_ blank blank (omega arith) (omega arith) (omega arith)
      (omega arith)

decode_ascii85-Returns_example :
    Returns 48 44 (decode_ascii85 (122 ∷ 114 ∷ 33 ∷ 114 ∷ 33 ∷ 34 ∷ 40 ∷ []) (pos 7) blank (pos 48))
decode_ascii85-Returns_example =
    decode_ascii85-Returns (122 ∷ 114 ∷ 33 ∷ 114 ∷ 33 ∷ 34 ∷ 40 ∷ []) blank 7 (pos 48) (omega arith)
      (omega arith)

-- "uuuuu", five digits 84, is beyond 32 bits.
decode_ascii85_overflow_example :
    decode_ascii85 (122 ∷ 57 ∷ 106 ∷ 113 ∷ 111 ∷ 94 ∷ 117 ∷ 117 ∷ []) (pos 8) blank (pos 48)
    ≡ returned err_decode_overflow (0 ∷ 0 ∷ 0 ∷ 0 ∷ 77 ∷ 97 ∷ 110 ∷ 32 ∷ replicate 40 0)
decode_ascii85_overflow_example =
    decode_ascii85_overflow (0 ∷ 1298230816 ∷ []) (117 ∷ 117 ∷ []) blank
      (omega arith, (omega arith, tt)) (two 84 84 (omega arith) (omega arith) (omega arith))
      (omega arith) (omega arith) (omega arith)
