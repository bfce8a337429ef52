-- ===== src/Ascii85/Bounds.antt =====
-- `decode_ascii85` on any input: it stays inside its arrays, and how many bytes it may give.
use sdkz.Common.{
  ℕ, zero, suc, ◌+◌, ◌-◌, ◌*◌, ◌/◌, ◌%◌, ◌≤◌, ◌<◌, ◌≡◌, refl, ap, inl, inr, true, false, none, some,
  List, [], ◌∷◌, arith, ◌==◌, if◌then◌else◌, Bool-cases, length, length-take, le→ltb_false, take,
  store, Option, subst, Bool, ltb,
}
use sdkz.Common.Int.{ℤ, pos, negsuc, ltb_ℤ, ◌≤ℤ◌}
use sdkz.Ascii85.{
  Outcome, returned, fault, z_char, put_bytes, decode_loop, decode_rest, put_chunk, and_then,
  err_bad_decode_char, ascii85_in_length_max, decode_ascii85, last_digit, high_digits, digit_or_pad,
  char_digit,
}

store_fits :
    (xs : List ℕ) (i v : ℕ)
    → i < length xs
    → (ys : List ℕ) × (store xs i v ≡ some ys) × (length ys ≡ length xs)
store_fits [] i v h = absurd (omega arith)
store_fits (x ∷ xs) zero v h = (v ∷ xs, refl, refl)
store_fits (x ∷ xs) (suc i) v h =
    let (ys, e, size) = store_fits xs i v (omega arith) in (x ∷ ys, rw e, ap suc size)

put_bytes_fits :
    (outp : List ℕ) (n v : ℕ)
    → n + 4 ≤ length outp
    → (o : List ℕ) × (put_bytes outp n v ≡ some o) × (length o ≡ length outp)
unfolding put_bytes
put_bytes_fits outp n v h =
    let (o3, e3, s3) = store_fits outp (n + 3) (v % 256) (omega arith) in
    let (o2, e2, s2) = store_fits o3 (n + 2) (v / 256 % 256) (omega arith) in
    let (o1, e1, s1) = store_fits o2 (n + 1) (v / 256 / 256 % 256) (omega arith) in
    let (o0, e0, s0) = store_fits o1 n (v / 256 / 256 / 256 % 256) (omega arith) in
    (o0, rw (e3, e2, e1) e0, omega arith)

-- How many characters are 'z'.
abbrev pub count_z : List ℕ → ℕ
count_z [] = 0
count_z (x ∷ xs) = (if x == z_char then 1 else 0) + count_z xs

-- The call returned, with an array of length `size`: a count of bytes, five
-- times which is at most `most`, or one of the error codes -255 to -252.
abbrev pub Returns : ℕ → ℕ → Outcome → Type 0
Returns size most fault = ⊥
Returns size most (returned (pos k) outp) = (5 * k ≤ most) × (length outp ≡ size)
Returns size most (returned (negsuc e) outp) = (251 ≤ e) × (e ≤ 254) × (length outp ≡ size)

Returns-size : {m n : ℕ} (most : ℕ) (r : Outcome) → m ≡ n → Returns m most r → Returns n most r
Returns-size most r e h = subst (λ s. Returns s most r) e h

put_chunk-Returns :
    (chunk : Option ℕ) (outp : List ℕ) (n most : ℕ) (k : List ℕ → Outcome)
    → n + 4 ≤ length outp
    → ((o : List ℕ) → length o ≡ length outp → Returns (length o) most (k o))
    → Returns (length outp) most (put_chunk chunk outp n k)
put_chunk-Returns none outp n most k h next = omega arith
put_chunk-Returns (some v) outp n most k h next =
    let (o, e, size) = put_bytes_fits outp n v h in
    rw e (Returns-size most (k o) size (next o size))

-- What the decoder does with a group, whichever way the tests go.
branches-Returns :
    (z ng : Bool) (outp : List ℕ) (n most : ℕ) (again : List ℕ → Outcome) (group : Outcome)
    → n + 4 ≤ length outp
    → (z ≡ true → (o : List ℕ) → length o ≡ length outp → Returns (length o) most (again o))
    → (z ≡ false → Returns (length outp) most group)
    → Returns (length outp) most (
        if z
        then and_then (put_bytes outp n 0) again
        else if ng
        then returned err_bad_decode_char outp
        else group)
branches-Returns true ng outp n most again group h zeros groups =
    put_chunk-Returns (some 0) outp n most again h (zeros refl)
branches-Returns false true outp n most again group h zeros groups = omega arith
branches-Returns false false outp n most again group h zeros groups = groups refl

decode_rest-Returns :
    (k a : ℕ) (b c d : Option ℕ) (outp : List ℕ) (n most : ℕ)
    → n + 4 ≤ length outp
    → 5 * (n + (k - 1)) ≤ most
    → Returns (length outp) most (decode_rest k a b c d outp n)
unfolding decode_rest
decode_rest-Returns k a b c d outp n most h few =
    put_chunk-Returns
      (last_digit (high_digits (char_digit a) (digit_or_pad b) (digit_or_pad c) (digit_or_pad d))
        (digit_or_pad none))
      outp n most (λ o. returned (pos (n + (k - 1))) o) h (λ o size. (few, refl))

decode_loop-Returns :
    (src outp : List ℕ) (n most : ℕ)
    → n + 4 * length src ≤ length outp
    → 5 * n + 4 * length src + 16 * count_z src ≤ most
    → Returns (length outp) most (decode_loop src outp n)
unfolding decode_loop
decode_loop-Returns [] outp n most room few = (omega arith, refl)
decode_loop-Returns (a ∷ []) outp n most room few =
    branches-Returns (a == z_char) _ outp n most _ _ (omega arith)
      (λ e o size. decode_loop-Returns [] o (n + 4) most (omega arith) (ground arith))
      (λ _. decode_rest-Returns 1 a none none none outp n most (omega arith) (omega arith))
decode_loop-Returns (a ∷ b ∷ []) outp n most room few =
    branches-Returns (a == z_char) _ outp n most _ _ (omega arith)
      (λ e o size. decode_loop-Returns (b ∷ []) o (n + 4) most (omega arith) (ground arith))
      (λ _. decode_rest-Returns 2 a (some b) none none outp n most (omega arith) (omega arith))
decode_loop-Returns (a ∷ b ∷ c ∷ []) outp n most room few =
    branches-Returns (a == z_char) _ outp n most _ _ (omega arith)
      (λ e o size. decode_loop-Returns (b ∷ c ∷ []) o (n + 4) most (omega arith) (ground arith))
      (λ _. decode_rest-Returns 3 a (some b) (some c) none outp n most (omega arith) (omega arith))
decode_loop-Returns (a ∷ b ∷ c ∷ d ∷ []) outp n most room few =
    branches-Returns (a == z_char) _ outp n most _ _ (omega arith)
      (λ e o size. decode_loop-Returns (b ∷ c ∷ d ∷ []) o (n + 4) most (omega arith) (ground arith))
      (λ _.
        decode_rest-Returns 4 a (some b) (some c) (some d) outp n most (omega arith) (omega arith))
decode_loop-Returns (a ∷ b ∷ c ∷ d ∷ e ∷ rest) outp n most room few =
    branches-Returns (a == z_char) _ outp n most _ _ (omega arith)
      (λ e' o size.
        decode_loop-Returns (b ∷ c ∷ d ∷ e ∷ rest) o (n + 4) most (omega arith) (ground arith))
      (λ _.
        put_chunk-Returns
          (last_digit (high_digits (char_digit a) (char_digit b) (char_digit c) (char_digit d))
            (char_digit e))
          outp n most _ (omega arith)
          (λ o size. decode_loop-Returns rest o (n + 4) most (omega arith) (omega arith)))

-- A call whose arrays are as long as it says neither reads nor stores outside of them and ends.
-- It returns one of the four error codes, or a count `k` of bytes with
-- 5 * k ≤ 4 * (characters) + 16 * (characters 'z'): without a 'z', four bytes for five characters.
pub decode_ascii85-Returns :
    (inp outp : List ℕ) (in_length : ℕ) (out_max : ℤ)
    → in_length ≤ length inp
    → out_max ≤ℤ pos (length outp)
    → Returns
        (length outp)
        (4 * in_length + 16 * count_z (take in_length inp))
        (decode_ascii85 inp (pos in_length) outp out_max)
unfolding decode_ascii85
decode_ascii85-Returns inp outp n out_max there fits =
    elim (Bool-cases (ltb ascii85_in_length_max n)) [
      | inl large ↦ rw large (omega arith)
      | inr small ↦
          rw (small, le→ltb_false (n * 4 + 0) 0 (omega arith))
            (elim (Bool-cases (ltb_ℤ out_max (pos (n * 4)))) [
              | inl short ↦ rw short (omega arith)
              | inr enough ↦
                  rw (enough, le→ltb_false _ _ there)
                    (decode_loop-Returns (take n inp) outp 0 (4 * n + 16 * count_z (take n inp))
                      (ground (arith, length-take n inp)) (omega (arith, length-take n inp)))
            ])
    ]
