-- ===== src/Ascii85/Errors.antt =====
-- The error paths of the encoder and the decoder.
use sdkz.Common.{
  if◌then◌else◌, All, Bool-cases, inl, inr, ◌==◌, [], ◌++◌, append_assoc, drop, drop-nil, ==→eq,
  subst, length-drop, refl, sym, ap, ℕ, ◌+◌, ◌*◌, ◌^◌, ◌≤◌, ◌<◌, ◌≡◌, none, List, ◌∷◌, arith,
  length, suc, take_all, ◌∙◌,
}
use sdkz.Common.Int.{pos}
use sdkz.Ascii85.{
  returned, z_char, decode_rest, high_digits, decode_loop, decode_ascii85, last_digit,
  ascii85_in_length_max, err_decode_overflow,
}
use sdkz.Ascii85.Text.{word_chars}
use sdkz.Ascii85.Groups.{word_bytes, decode_loop_five, decode_loop_z, digit_not_z, digit_ok}
use sdkz.Ascii85.Words.{high_digits-eq, char_digit-add}

last_digit-none :
    (chunk digit : ℕ)
    → chunk < 85 ^ 4
    → digit < 85
    → 2 ^ 32 ≤ chunk * 85 + digit
    → last_digit chunk digit ≡ none
unfolding last_digit
last_digit-none chunk digit hc hd h = ground arith

-- The number that five base-85 digits stand for.
abbrev pub value : ℕ → ℕ → ℕ → ℕ → ℕ → ℕ
value p q r s t = (((p * 85 + q) * 85 + r) * 85 + s) * 85 + t

-- What is left of the text begins with five digits whose number does not fit 32 bits, or is a last
-- group of one to four digits whose number does not when it is filled up with the digit 84.
pub data Overflows : List ℕ → Type 0 where
  five :
      (p q r s t : ℕ) (rest : List ℕ)
      → p < 85
      → q < 85
      → r < 85
      → s < 85
      → t < 85
      → 2 ^ 32 ≤ value p q r s t
      → Overflows ((p + 33) ∷ (q + 33) ∷ (r + 33) ∷ (s + 33) ∷ (t + 33) ∷ rest)
  four :
      (p q r s : ℕ)
      → p < 85
      → q < 85
      → r < 85
      → s < 85
      → 2 ^ 32 ≤ value p q r s 84
      → Overflows ((p + 33) ∷ (q + 33) ∷ (r + 33) ∷ (s + 33) ∷ [])
  three :
      (p q r : ℕ)
      → p < 85
      → q < 85
      → r < 85
      → 2 ^ 32 ≤ value p q r 84 84
      → Overflows ((p + 33) ∷ (q + 33) ∷ (r + 33) ∷ [])
  two :
      (p q : ℕ)
      → p < 85
      → q < 85
      → 2 ^ 32 ≤ value p q 84 84 84
      → Overflows ((p + 33) ∷ (q + 33) ∷ [])
  one : (p : ℕ) → p < 85 → 2 ^ 32 ≤ value p 84 84 84 84 → Overflows ((p + 33) ∷ [])

last_digit-high :
    (p q r s t : ℕ)
    → p < 85
    → q < 85
    → r < 85
    → s < 85
    → t < 85
    → 2 ^ 32 ≤ value p q r s t
    → last_digit (high_digits p q r s) t ≡ none
last_digit-high p q r s t hp hq hr hs ht h =
    rw (high_digits-eq p q r s hp hq hr hs)
      (last_digit-none (((p * 85 + q) * 85 + r) * 85 + s) t (omega arith) ht h)

decode_loop_overflow :
    (text outp : List ℕ) (n : ℕ)
    → Overflows text
    → decode_loop text outp n ≡ returned err_decode_overflow outp
unfolding decode_loop decode_rest
decode_loop_overflow _ outp n (five p q r s t rest hp hq hr hs ht h) = rw (
  digit_not_z p hp,
  digit_ok p hp,
  digit_ok q hq,
  digit_ok r hr,
  digit_ok s hs,
  digit_ok t ht,
  char_digit-add p hp,
  char_digit-add q hq,
  char_digit-add r hr,
  char_digit-add s hs,
  char_digit-add t ht,
  last_digit-high p q r s t hp hq hr hs ht h,
)
decode_loop_overflow _ outp n (four p q r s hp hq hr hs h) = rw (
  digit_not_z p hp,
  digit_ok p hp,
  digit_ok q hq,
  digit_ok r hr,
  digit_ok s hs,
  char_digit-add p hp,
  char_digit-add q hq,
  char_digit-add r hr,
  char_digit-add s hs,
  last_digit-high p q r s 84 hp hq hr hs (omega arith) h,
)
decode_loop_overflow _ outp n (three p q r hp hq hr h) = rw (
  digit_not_z p hp,
  digit_ok p hp,
  digit_ok q hq,
  digit_ok r hr,
  char_digit-add p hp,
  char_digit-add q hq,
  char_digit-add r hr,
  last_digit-high p q r 84 84 hp hq hr (omega arith) (omega arith) h,
)
decode_loop_overflow _ outp n (two p q hp hq h) = rw (
  digit_not_z p hp,
  digit_ok p hp,
  digit_ok q hq,
  char_digit-add p hp,
  char_digit-add q hq,
  last_digit-high p q 84 84 84 hp hq (omega arith) (omega arith) (omega arith) h,
)
decode_loop_overflow _ outp n (one p hp h) = rw (
  digit_not_z p hp,
  digit_ok p hp,
  char_digit-add p hp,
  last_digit-high p 84 84 84 84 hp (omega arith) (omega arith) (omega arith) (omega arith) h,
)

-- The text of whole groups, and their bytes.
abbrev pub groups : List ℕ → List ℕ
groups [] = []
groups (v ∷ vs) = (if v == 0 then z_char ∷ [] else word_chars v) ++ groups vs

abbrev pub group_bytes : List ℕ → List ℕ
group_bytes [] = []
group_bytes (v ∷ vs) = word_bytes v ++ group_bytes vs

drop_four : (n : ℕ) (room : List ℕ) → drop (4 * n) (drop 4 room) ≡ drop (4 * suc n) room
drop_four n room =
    let four : 4 * suc n ≡ suc (suc (suc (suc (4 * n)))) = omega arith in rw four (go (4 * n) room)
  where
    go : (m : ℕ) (l : List ℕ) → drop m (drop 4 l) ≡ drop (suc (suc (suc (suc m)))) l
    go m [] = drop-nil m
    go m (a ∷ []) = drop-nil m
    go m (a ∷ b ∷ []) = drop-nil m
    go m (a ∷ b ∷ c ∷ []) = drop-nil m
    go m (a ∷ b ∷ c ∷ d ∷ l) = refl

-- So the groups in front are written, and the rest of the room is as it was.
groups_overflow :
    (vs front room text : List ℕ)
    → All (λ v. v < 2 ^ 32) vs
    → 4 * length vs ≤ length room
    → Overflows text
    → decode_loop (groups vs ++ text) (front ++ room) (length front)
      ≡ returned err_decode_overflow (front ++ (group_bytes vs ++ drop (4 * length vs) room))
groups_overflow [] front room text words fits over =
    decode_loop_overflow text (front ++ room) (length front) over
groups_overflow (v ∷ vs) front room text (word, words) fits over =
    let more =
      groups_overflow vs (front ++ word_bytes v) (drop 4 room) text words
        (omega (arith, length-drop 4 room)) over in
    let same = ap (returned err_decode_overflow) (
      append_assoc front (word_bytes v) (group_bytes vs ++ drop (4 * length vs) (drop 4 room))
      ∙ ap (λ l. front ++ (word_bytes v ++ (group_bytes vs ++ l))) (drop_four (length vs) room)) in
    elim (Bool-cases (v == 0)) [
      | inl eq ↦ rw eq (
          subst
            (λ x.
              decode_loop (z_char ∷ (groups vs ++ text)) (front ++ room) (length front)
              ≡ decode_loop (groups vs ++ text) ((front ++ word_bytes x) ++ drop 4 room)
                  (length (front ++ word_bytes x)))
            (sym (==→eq v 0 eq)) (decode_loop_z front room (groups vs ++ text) (omega arith))
          ∙ (more ∙ same))
      | inr ne ↦
          rw ne
            (decode_loop_five front room v (groups vs ++ text) word (omega arith) ∙ (more ∙ same))
    ]

-- A text of whole groups, and behind them a group whose number does not fit 32 bits, a full one or
-- a last one that is filled up, is refused with the overflow error; the bytes of the groups in
-- front are then stored, and nothing else.
pub decode_ascii85_overflow :
    (vs text outp : List ℕ)
    → All (λ v. v < 2 ^ 32) vs
    → Overflows text
    → length (groups vs ++ text) ≤ ascii85_in_length_max
    → 4 * length (groups vs ++ text) ≤ length outp
    → 4 * length vs ≤ length outp
    → decode_ascii85 (groups vs ++ text) (pos (length (groups vs ++ text))) outp (pos (length outp))
      ≡ returned err_decode_overflow (group_bytes vs ++ drop (4 * length vs) outp)
decode_ascii85_overflow vs text outp words over small room fits =
    enters ∙ groups_overflow vs [] outp text words fits over
  where
    enters :
        decode_ascii85
          (groups vs ++ text)
          (pos (length (groups vs ++ text)))
          outp
          (pos (length outp))
        ≡ decode_loop (groups vs ++ text) outp 0
    enters = unfold decode_ascii85 in ground (arith, take_all (groups vs ++ text))
