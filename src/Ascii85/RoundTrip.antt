-- ===== src/Ascii85/RoundTrip.antt =====
-- `decode_ascii85` reads back what `encode_ascii85` writes.
use sdkz.Common.{
  ℕ, suc, ◌+◌, ◌*◌, ◌/◌, ◌^◌, ◌≤◌, ◌<◌, ◌≡◌, sym, ap, subst, inl, inr, ◌∙◌, List, [], ◌∷◌, ◌++◌,
  arith, ◌==◌, Bool-cases, length, length-append, length-drop, drop, All, take-append, ==→eq,
}
use sdkz.Common.Int.{pos}
use sdkz.Ascii85.{
  Outcome, returned, decode_loop, decode_ascii85, encode_ascii85, ascii85_in_length_max,
}
use sdkz.Ascii85.Encode.{encode_ascii85-Writes}
use sdkz.Ascii85.Groups.{
  word_bytes, decode_loop_five, decode_loop_z, decode_one, decode_two, decode_three, cong_four,
}
use sdkz.Ascii85.Text.{IsByte, word, encoding, Writes, Writes-append}

word_bytes-word :
    (a b c d : ℕ)
    → a < 256
    → b < 256
    → c < 256
    → d < 256
    → word_bytes (word a b c d) ≡ a ∷ b ∷ c ∷ d ∷ []
word_bytes-word a b c d ha hb hc hd =
    cong_four (omega arith) (omega arith) (omega arith) (omega arith)

-- A group of four bytes in front of what the rest of the text gives.
Writes-group :
    (front room rest : List ℕ) (w a b c d : ℕ) (result : Outcome)
    → word_bytes w ≡ a ∷ b ∷ c ∷ d ∷ []
    → 4 ≤ length room
    → Writes (front ++ word_bytes w) rest (drop 4 room) result
    → Writes front (a ∷ b ∷ c ∷ d ∷ rest) room result
Writes-group front room rest w a b c d result e h = λ is.
    subst (λ bs. Writes front (bs ++ rest) room result) e
      (Writes-append front (word_bytes w) rest room (drop 4 room) result
        (omega (arith, length-drop 4 room)) is)

decode_loop-Writes :
    (src front room : List ℕ)
    → All IsByte src
    → 4 * length (encoding src) ≤ length room
    → Writes front src room (decode_loop (encoding src) (front ++ room) (length front))
unfolding encoding
decode_loop-Writes [] front room bytes fits = (
  room,
  unfold decode_loop in ap (λ n. returned (pos n) (front ++ room)) (omega arith),
  omega arith,
)
decode_loop-Writes (a ∷ []) front room (ha, _) fits = decode_one front room a ha (omega arith)
decode_loop-Writes (a ∷ b ∷ []) front room (ha, (hb, _)) fits =
    decode_two front room a b ha hb (omega arith)
decode_loop-Writes (a ∷ b ∷ c ∷ []) front room (ha, (hb, (hc, _))) fits =
    decode_three front room a b c ha hb hc (omega arith)
decode_loop-Writes (a ∷ b ∷ c ∷ d ∷ rest) front room (ha, (hb, (hc, (hd, bytes)))) fits =
    let v : ℕ = word a b c d in
    let small : v < 2 ^ 32 = omega arith in
    let same = word_bytes-word a b c d ha hb hc hd in
    elim (Bool-cases (v == 0)) [
      | inl eq ↦
          let room_left : 4 * suc (length (encoding rest)) ≤ length room = rw eq at fits in
          rw (eq, decode_loop_z front room (encoding rest) (omega arith))
            (Writes-group front room rest 0 a b c d _ (ap word_bytes (sym (==→eq v 0 eq)) ∙ same)
              (omega arith)
              (decode_loop-Writes rest (front ++ word_bytes 0) (drop 4 room) bytes
                (omega (arith, length-drop 4 room))))
      | inr ne ↦
          let room_left : 4 * suc (suc (suc (suc (suc (length (encoding rest)))))) ≤ length room =
            rw ne at fits in
          rw (ne, decode_loop_five front room v (encoding rest) small (omega arith))
            (Writes-group front room rest v a b c d _ same (omega arith) (
              decode_loop-Writes rest (front ++ word_bytes v) (drop 4 room) bytes
                (omega (arith, length-drop 4 room))))
    ]

-- Decoding the Ascii85 text of `src`, of at most 65536 characters and followed by anything in
-- `inp`, with room for the maximum length, returns the length of `src` and has put `src` at the
-- start of `outp`, whose length is unchanged.
pub decode_ascii85-encoding :
    (src after outp : List ℕ) (out_max : ℕ)
    → All IsByte src
    → length (encoding src) ≤ ascii85_in_length_max
    → 4 * length (encoding src) ≤ out_max
    → out_max ≤ length outp
    → Writes [] src outp
        (decode_ascii85 (encoding src ++ after) (pos (length (encoding src))) outp (pos out_max))
decode_ascii85-encoding src after outp out_max bytes small enough fits =
    rw enters (decode_loop-Writes src [] outp bytes (omega arith))
  where
    enters :
        decode_ascii85 (encoding src ++ after) (pos (length (encoding src))) outp (pos out_max)
        ≡ decode_loop (encoding src) outp 0
    enters =
        unfold decode_ascii85 in
        ground (arith, take-append (encoding src) after, length-append (encoding src) after)

length-encoding-le : (src : List ℕ) → length (encoding src) ≤ (length src + 3) / 4 * 5
unfolding encoding
length-encoding-le [] = omega arith
length-encoding-le (a ∷ []) = omega arith
length-encoding-le (a ∷ b ∷ []) = omega arith
length-encoding-le (a ∷ b ∷ c ∷ []) = omega arith
length-encoding-le (a ∷ b ∷ c ∷ d ∷ rest) = elim (Bool-cases (word a b c d == 0)) [
  | inl eq ↦ rw eq (omega (arith, length-encoding-le rest))
  | inr ne ↦ rw ne (omega (arith, length-encoding-le rest))
]

-- Whatever bytes are encoded, up to 52428 of them, `decode_ascii85` gives back from the array that
-- `encode_ascii85` filled, at the length that it returned, into an array of four times as many.
pub decode_ascii85-encode_ascii85 :
    (src text_buf out_buf : List ℕ)
    → All IsByte src
    → length src ≤ 52428
    → (length src + 3) / 4 * 5 ≤ length text_buf
    → (length src + 3) / 4 * 20 ≤ length out_buf
    → (n : ℕ) × (filled left : List ℕ) × (encode_ascii85 src
          (pos (length src))
          text_buf
          (pos (length text_buf))
        ≡ returned (pos n) filled)
      × (decode_ascii85 filled (pos n) out_buf (pos (length out_buf))
          ≡ returned (pos (length src)) (src ++ left))
decode_ascii85-encode_ascii85 src text_buf out_buf bytes small text_fits out_fits =
    let (after, encoded, _) =
      encode_ascii85-Writes src text_buf (length text_buf) bytes (omega arith) text_fits
        (omega arith) in
    let (left, decoded, _) =
      decode_ascii85-encoding src after out_buf (length out_buf) bytes
        (omega (arith, length-encoding-le src)) (omega (arith, length-encoding-le src))
        (omega arith) in
    (
      length (encoding src),
      encoding src ++ after,
      left,
      encoded ∙ ap (λ n. returned (pos n) (encoding src ++ after)) (omega arith),
      decoded ∙ ap (λ n. returned (pos n) (src ++ left)) (omega arith),
    )
