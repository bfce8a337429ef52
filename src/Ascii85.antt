-- ===== src/Ascii85.antt =====
-- lib/hu/ascii85.c: the Ascii85 encoder and decoder, with the arrays they read and fill.
-- `inp` holds the bytes of the input array, and a loop's list is what `in_rover` has not reached;
-- a read past `inp` or a store past `outp` is `fault`. A 32-bit word keeps its wrap-around.
pub mod Words
pub mod Text
pub mod Encode
pub mod Groups
pub mod RoundTrip
pub mod Errors
mod Runs
pub mod Bounds
use sdkz.Common.{
  ℕ, zero, suc, ◌+◌, ◌-◌, ◌*◌, ◌/◌, ◌%◌, ◌^◌, bit_or, Bool, true, false, ◌||◌, List, [], ◌∷◌,
  Option, none, some, ltb, ◌==◌, if◌then◌else◌, length, take, store, store_four, store_five,
}
use sdkz.Common.Int.{ℤ, pos, negsuc, ltb_ℤ}

abbrev pub base_char : ℕ
base_char = 33

abbrev pub ascii85_in_length_max : ℕ
ascii85_in_length_max = 65536

-- The values of `enum ascii85_errs_e`, from -255 on.
abbrev pub err_out_buf_too_small : ℤ
err_out_buf_too_small = negsuc 254

abbrev pub err_in_buf_too_large : ℤ
err_in_buf_too_large = negsuc 253

abbrev pub err_bad_decode_char : ℤ
err_bad_decode_char = negsuc 252

abbrev pub err_decode_overflow : ℤ
err_decode_overflow = negsuc 251

abbrev pub z_char : ℕ
z_char = 122

abbrev pub uint32_max : ℕ
uint32_max = 2 ^ 32 - 1

-- What a call leaves: its return value and the output array.
pub data Outcome : Type 0 where
  returned : ℤ → List ℕ → Outcome
  fault : Outcome

abbrev pub char_ng : ℕ → Bool
char_ng c = ltb c 33 || ltb 117 c

unfoldable pub get_max_encoded_length : ℤ → ℤ
get_max_encoded_length (negsuc n) = err_in_buf_too_large
get_max_encoded_length (pos n) =
    if ltb ascii85_in_length_max n then err_in_buf_too_large else pos ((n + 3) / 4 * 5)

unfoldable pub get_max_decoded_length : ℤ → ℤ
get_max_decoded_length (negsuc n) = err_in_buf_too_large
get_max_decoded_length (pos n) =
    if ltb ascii85_in_length_max n then err_in_buf_too_large else pos (n * 4)

-- The four bytes of a group, as `<<` and `|` join them.
unfoldable pub pack_chunk : ℕ → ℕ → ℕ → ℕ → ℕ
pack_chunk a b c d =
    bit_or (bit_or (bit_or (a * 2 ^ 24 % 2 ^ 32) (b * 2 ^ 16 % 2 ^ 32)) (c * 2 ^ 8 % 2 ^ 32)) d

-- The stores of the five characters of a chunk. The first is a cast to `uint8_t`, not a remainder.
unfoldable pub put_chars : List ℕ → ℕ → ℕ → Option (List ℕ)
put_chars outp out_length chunk =
    store_five outp out_length ((chunk / 85 / 85 / 85 / 85 % 256 + base_char) % 256)
      ((chunk / 85 / 85 / 85 % 85 + base_char) % 256) ((chunk / 85 / 85 % 85 + base_char) % 256)
      ((chunk / 85 % 85 + base_char) % 256) ((chunk % 85 + base_char) % 256)

-- What an out-of-range store makes of the rest of the call.
abbrev pub and_then : Option (List ℕ) → (List ℕ → Outcome) → Outcome
and_then none k = fault
and_then (some outp) k = k outp

-- The last group, of one to three bytes: never a 'z', and one character more than bytes.
abbrev pub encode_rest : ℕ → ℕ → ℕ → ℕ → List ℕ → ℕ → Outcome
encode_rest chunk_len a b c outp out_length =
    and_then (put_chars outp out_length (pack_chunk a b c 0))
      λ outp'. returned (pos (out_length + (chunk_len + 1))) outp'

unfoldable pub encode_loop : List ℕ → List ℕ → ℕ → Outcome
encode_loop [] outp out_length = returned (pos out_length) outp
encode_loop (a ∷ []) outp out_length = encode_rest 1 a 0 0 outp out_length
encode_loop (a ∷ b ∷ []) outp out_length = encode_rest 2 a b 0 outp out_length
encode_loop (a ∷ b ∷ c ∷ []) outp out_length = encode_rest 3 a b c outp out_length
encode_loop (a ∷ b ∷ c ∷ d ∷ rest) outp out_length =
    let chunk = pack_chunk a b c d in
    let zero_group =
      and_then (store outp out_length z_char) (λ outp'. encode_loop rest outp' (out_length + 1)) in
    let five_chars =
      and_then (put_chars outp out_length chunk)
        (λ outp'. encode_loop rest outp' (out_length + 5)) in
    if chunk == 0 then zero_group else five_chars

-- `in_length` bytes of `inp`, or a fault where the array is shorter.
abbrev pub reading : List ℕ → ℤ → (List ℕ → Outcome) → Outcome
reading inp (negsuc n) k = fault
reading inp (pos n) k = if ltb (length inp) n then fault else k (take n inp)

unfoldable pub encode_ascii85 : List ℕ → ℤ → List ℕ → ℤ → Outcome
unfolding get_max_encoded_length
encode_ascii85 inp in_length outp out_max_length =
    let out_length = get_max_encoded_length in_length in
    if ltb_ℤ out_length (pos 0)
    then returned out_length outp
    else if ltb_ℤ out_max_length out_length
    then returned err_out_buf_too_small outp
    else reading inp in_length (λ bytes. encode_loop bytes outp 0)

-- `inp[i] - base_char`, an `int` that is converted to `uint32_t`.
abbrev pub char_digit : ℕ → ℕ
char_digit c = (c + 2 ^ 32 - base_char) % 2 ^ 32

-- Where the input has ended the digit is 84.
abbrev pub digit_or_pad : Option ℕ → ℕ
digit_or_pad none = 84
digit_or_pad (some c) = char_digit c

abbrev pub mul32 : ℕ → ℕ → ℕ
mul32 a b = a * b % 2 ^ 32

abbrev pub add32 : ℕ → ℕ → ℕ
add32 a b = (a + b) % 2 ^ 32

unfoldable pub high_digits : ℕ → ℕ → ℕ → ℕ → ℕ
high_digits d0 d1 d2 d3 = add32 (mul32 (add32 (mul32 (add32 (mul32 d0 85) d1) 85) d2) 85) d3

-- The last digit, behind the two overflow tests; the digit is cut to a `uint8_t`.
unfoldable pub last_digit : ℕ → ℕ → Option ℕ
last_digit chunk digit =
    let addend = digit % 256 in
    if ltb (uint32_max / 85) chunk
    then none
    else if ltb (uint32_max - addend) (mul32 chunk 85)
    then none
    else some (add32 (mul32 chunk 85) addend)

unfoldable pub put_bytes : List ℕ → ℕ → ℕ → Option (List ℕ)
put_bytes outp out_length chunk =
    store_four outp out_length (chunk / 256 / 256 / 256 % 256) (chunk / 256 / 256 % 256)
      (chunk / 256 % 256) (chunk % 256)

-- The stores of a chunk that was read, or the overflow error.
abbrev pub put_chunk : Option ℕ → List ℕ → ℕ → (List ℕ → Outcome) → Outcome
put_chunk none outp out_length k = returned err_decode_overflow outp
put_chunk (some chunk) outp out_length k = and_then (put_bytes outp out_length chunk) k

-- The last group, of one to four characters: it gives one byte less than it has characters.
unfoldable pub decode_rest : ℕ → ℕ → Option ℕ → Option ℕ → Option ℕ → List ℕ → ℕ → Outcome
unfolding high_digits last_digit put_bytes
decode_rest chunk_len a b c d outp out_length =
    put_chunk
      (last_digit (high_digits (char_digit a) (digit_or_pad b) (digit_or_pad c) (digit_or_pad d))
        (digit_or_pad none))
      outp out_length λ outp'. returned (pos (out_length + (chunk_len - 1))) outp'

unfoldable pub decode_loop : List ℕ → List ℕ → ℕ → Outcome
decode_loop [] outp n = returned (pos n) outp
decode_loop (a ∷ []) outp n =
    let zero_group = and_then (put_bytes outp n 0) (λ o. decode_loop [] o (n + 4)) in
    let last_group = decode_rest 1 a none none none outp n in
    if a == z_char
    then zero_group
    else if char_ng a
    then returned err_bad_decode_char outp
    else last_group
decode_loop (a ∷ b ∷ []) outp n =
    let zero_group = and_then (put_bytes outp n 0) (λ o. decode_loop (b ∷ []) o (n + 4)) in
    let last_group = decode_rest 2 a (some b) none none outp n in
    if a == z_char
    then zero_group
    else if char_ng a || char_ng b
    then returned err_bad_decode_char outp
    else last_group
decode_loop (a ∷ b ∷ c ∷ []) outp n =
    let zero_group = and_then (put_bytes outp n 0) (λ o. decode_loop (b ∷ c ∷ []) o (n + 4)) in
    let last_group = decode_rest 3 a (some b) (some c) none outp n in
    if a == z_char
    then zero_group
    else if char_ng a || (char_ng b || char_ng c)
    then returned err_bad_decode_char outp
    else last_group
decode_loop (a ∷ b ∷ c ∷ d ∷ []) outp n =
    let zero_group = and_then (put_bytes outp n 0) (λ o. decode_loop (b ∷ c ∷ d ∷ []) o (n + 4)) in
    let last_group = decode_rest 4 a (some b) (some c) (some d) outp n in
    if a == z_char
    then zero_group
    else if char_ng a || (char_ng b || (char_ng c || char_ng d))
    then returned err_bad_decode_char outp
    else last_group
decode_loop (a ∷ b ∷ c ∷ d ∷ e ∷ rest) outp n =
    let zero_group =
      and_then (put_bytes outp n 0) (λ o. decode_loop (b ∷ c ∷ d ∷ e ∷ rest) o (n + 4)) in
    let chunk =
      last_digit (high_digits (char_digit a) (char_digit b) (char_digit c) (char_digit d))
        (char_digit e) in
    let full_group = put_chunk chunk outp n (λ o. decode_loop rest o (n + 4)) in
    if a == z_char
    then zero_group
    else if char_ng a || (char_ng b || (char_ng c || (char_ng d || char_ng e)))
    then returned err_bad_decode_char outp
    else full_group

unfoldable pub decode_ascii85 : List ℕ → ℤ → List ℕ → ℤ → Outcome
unfolding get_max_decoded_length
decode_ascii85 inp in_length outp out_max_length =
    let out_length = get_max_decoded_length in_length in
    if ltb_ℤ out_length (pos 0)
    then returned out_length outp
    else if ltb_ℤ out_max_length out_length
    then returned err_out_buf_too_small outp
    else reading inp in_length (λ bytes. decode_loop bytes outp 0)
