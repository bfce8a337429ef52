-- ===== src/Ascii85/Encode.antt =====
-- `encode_ascii85` writes the Ascii85 text of its input, within its bound.
use sdkz.Common.{
  ℕ, ◌+◌, ◌*◌, ◌/◌, ◌^◌, ◌≤◌, ◌<◌, ◌≡◌, inl, inr, true, false, some, List, [], ◌∷◌, ◌++◌,
  append_assoc, arith, ◌==◌, Bool-cases, length, length-append, length-drop, length-take, take,
  drop, take-append-drop, ap, store, All, store_five-append, store-append_head, take_all,
}
use sdkz.Common.Int.{pos}
use sdkz.Ascii85.{
  returned, z_char, put_chars, encode_loop, encode_ascii85, ascii85_in_length_max, encode_rest,
}
use sdkz.Ascii85.Text.{IsByte, word, word_chars, encoding, Writes, Writes-append}
use sdkz.Ascii85.Words.{pack_chunk-eq-add}

put_chars-append :
    (front room : List ℕ) (v : ℕ)
    → v < 2 ^ 32
    → 5 ≤ length room
    → put_chars (front ++ room) (length front) v ≡ some (front ++ (word_chars v ++ drop 5 room))
unfolding put_chars
put_chars-append front room v hv h =
    rw (store_five-append front room _ _ _ _ _ h)
      (ap₅ (omega arith) (omega arith) (omega arith) (omega arith) (omega arith))
  where
    ap₅ :
        {a b c d e a' b' c' d' e' : ℕ}
        → a ≡ a'
        → b ≡ b'
        → c ≡ c'
        → d ≡ d'
        → e ≡ e'
        → some (front ++ (a ∷ b ∷ c ∷ d ∷ e ∷ drop 5 room))
          ≡ some (front ++ (a' ∷ b' ∷ c' ∷ d' ∷ e' ∷ drop 5 room))
    ap₅ p q r s t = cc

store_z :
    (front room : List ℕ)
    → 1 ≤ length room
    → store (front ++ room) (length front) z_char ≡ some (front ++ (z_char ∷ drop 1 room))
store_z front [] h = absurd (omega arith)
store_z front (x ∷ room) h = store-append_head front room x z_char

module _ (front room : List ℕ) where
  encode_loop_five :
      (a b c d : ℕ) (rest : List ℕ)
      → a < 256
      → b < 256
      → c < 256
      → d < 256
      → (word a b c d == 0) ≡ false
      → 5 ≤ length room
      → encode_loop (a ∷ b ∷ c ∷ d ∷ rest) (front ++ room) (length front)
        ≡ encode_loop rest
            ((front ++ word_chars (word a b c d)) ++ drop 5 room)
            (length (front ++ word_chars (word a b c d)))
  unfolding encode_loop
  encode_loop_five a b c d rest ha hb hc hd ne h = rw (
    pack_chunk-eq-add a b c d ha hb hc hd,
    ne,
    put_chars-append front room (word a b c d) (omega arith) h,
    append_assoc,
    length-append,
  )

  encode_loop_zero :
      (a b c d : ℕ) (rest : List ℕ)
      → a < 256
      → b < 256
      → c < 256
      → d < 256
      → (word a b c d == 0) ≡ true
      → 1 ≤ length room
      → encode_loop (a ∷ b ∷ c ∷ d ∷ rest) (front ++ room) (length front)
        ≡ encode_loop rest
            ((front ++ (z_char ∷ [])) ++ drop 1 room)
            (length (front ++ (z_char ∷ [])))
  unfolding encode_loop
  encode_loop_zero a b c d rest ha hb hc hd eq h =
      rw (
        pack_chunk-eq-add a b c d ha hb hc hd,
        eq,
        store_z front room h,
        append_assoc,
        length-append,
      )

  -- The last group stores five characters and counts one more than it has bytes.
  encode_rest-Writes :
      (k a b c : ℕ)
      → a < 256
      → b < 256
      → c < 256
      → k < 4
      → 5 ≤ length room
      → Writes front
          (take (k + 1) (word_chars (word a b c 0)))
          room
          (encode_rest k a b c (front ++ room) (length front))
  encode_rest-Writes k a b c ha hb hc hk h =
      let chars = word_chars (word a b c 0) in
      rw
        (
          pack_chunk-eq-add a b c 0 ha hb hc (omega arith),
          put_chars-append front room (word a b c 0) (omega arith) h,
        )
        (
          drop (k + 1) chars ++ drop 5 room,
          rw (take-append-drop (k + 1) chars (drop 5 room), length-take (k + 1) chars)
              (ap (λ n. returned (pos n) (front ++ (chars ++ drop 5 room))) (omega arith)),
          rw length-append (
              omega
                (arith, length-take (k + 1) chars, length-drop (k + 1) chars, length-drop 5 room)),
        )

encode_loop-Writes :
    (src front room : List ℕ)
    → All IsByte src
    → (length src + 3) / 4 * 5 ≤ length room
    → Writes front (encoding src) room (encode_loop src (front ++ room) (length front))
unfolding encoding
encode_loop-Writes [] front room bytes fits = (
  room,
  unfold encode_loop in ap (λ n. returned (pos n) (front ++ room)) (omega arith),
  omega arith,
)
encode_loop-Writes (a ∷ []) front room (ha, _) fits =
    unfold encode_loop in
    encode_rest-Writes front room 1 a 0 0 ha (omega arith) (omega arith) (omega arith) (omega arith)
encode_loop-Writes (a ∷ b ∷ []) front room (ha, (hb, _)) fits =
    unfold encode_loop in
    encode_rest-Writes front room 2 a b 0 ha hb (omega arith) (omega arith) (omega arith)
encode_loop-Writes (a ∷ b ∷ c ∷ []) front room (ha, (hb, (hc, _))) fits =
    unfold encode_loop in encode_rest-Writes front room 3 a b c ha hb hc (omega arith) (omega arith)
encode_loop-Writes (a ∷ b ∷ c ∷ d ∷ rest) front room (ha, (hb, (hc, (hd, bytes)))) fits =
    elim (Bool-cases (word a b c d == 0)) [
      | inl eq ↦
          rw (eq, encode_loop_zero front room a b c d rest ha hb hc hd eq (omega arith))
            (Writes-append front (z_char ∷ []) (encoding rest) room (drop 1 room) _
              (omega (arith, length-drop 1 room))
              (encode_loop-Writes rest (front ++ (z_char ∷ [])) (drop 1 room) bytes
                (omega (arith, length-drop 1 room))))
      | inr ne ↦
          rw (ne, encode_loop_five front room a b c d rest ha hb hc hd ne (omega arith))
            (Writes-append front (word_chars (word a b c d)) (encoding rest) room (drop 5 room) _
              (omega (arith, length-drop 5 room))
              (encode_loop-Writes rest (front ++ word_chars (word a b c d)) (drop 5 room) bytes
                (omega (arith, length-drop 5 room))))
    ]

-- On at most 65536 bytes, with room for the maximum length, `encode_ascii85` returns the length
-- of the input's Ascii85 text, has put that text at the start of `outp`, and stored nothing
-- outside of `outp`, whose length is unchanged.
pub encode_ascii85-Writes :
    (inp outp : List ℕ) (out_max : ℕ)
    → All IsByte inp
    → length inp ≤ ascii85_in_length_max
    → (length inp + 3) / 4 * 5 ≤ out_max
    → out_max ≤ length outp
    → Writes [] (encoding inp) outp (encode_ascii85 inp (pos (length inp)) outp (pos out_max))
encode_ascii85-Writes inp outp out_max bytes small enough fits =
    rw enters (encode_loop-Writes inp [] outp bytes (omega arith))
  where
    enters : encode_ascii85 inp (pos (length inp)) outp (pos out_max) ≡ encode_loop inp outp 0
    enters = unfold encode_ascii85 in ground (arith, take_all inp)
