-- ===== src/Ascii85/Text.antt =====
-- The Ascii85 text of a byte string, as the header of ascii85.c describes it, and what it means
-- that a call of the encoder or the decoder writes a byte string behind a prefix of `outp`.
use sdkz.Common.{
  ℕ, ◌+◌, ◌*◌, ◌/◌, ◌%◌, ◌^◌, ◌<◌, ◌≡◌, List, [], ◌∷◌, ◌++◌, append_assoc, arith, ◌==◌,
  if◌then◌else◌, length, length-append, take,
}
use native.Mathlib.Nat.{add_assoc}
use sdkz.Common.Int.{pos}
use sdkz.Ascii85.{Outcome, returned, z_char}

abbrev pub IsByte : ℕ → Type 0
IsByte b = b < 256

-- The value of four bytes, the first one highest.
abbrev pub word : ℕ → ℕ → ℕ → ℕ → ℕ
word a b c d = a * 2 ^ 24 + b * 2 ^ 16 + c * 2 ^ 8 + d

-- The base-85 digits of a value, the highest first, as characters from '!' on.
abbrev pub word_chars : ℕ → List ℕ
word_chars v =
    (v / 85 / 85 / 85 / 85 + 33)
    ∷ (v / 85 / 85 / 85 % 85 + 33)
    ∷ (v / 85 / 85 % 85 + 33)
    ∷ (v / 85 % 85 + 33)
    ∷ (v % 85 + 33)
    ∷ []

unfoldable pub encoding : List ℕ → List ℕ
encoding [] = []
encoding (a ∷ []) = take 2 (word_chars (word a 0 0 0))
encoding (a ∷ b ∷ []) = take 3 (word_chars (word a b 0 0))
encoding (a ∷ b ∷ c ∷ []) = take 4 (word_chars (word a b c 0))
encoding (a ∷ b ∷ c ∷ d ∷ rest) =
    (if word a b c d == 0 then z_char ∷ [] else word_chars (word a b c d)) ++ encoding rest

-- The call returned and put `text` behind `front`, in an array of the same length; `room` is
-- what the array held there.
abbrev pub Writes : List ℕ → List ℕ → List ℕ → Outcome → Type 0
Writes front text room result =
    (left : List ℕ) × (result
      ≡ returned (pos (length front + length text)) (front ++ (text ++ left)))
    × (length text + length left ≡ length room)

-- What is written in two parts.
pub Writes-append :
    (front cs text room left : List ℕ) (result : Outcome)
    → length cs + length left ≡ length room
    → Writes (front ++ cs) text left result
    → Writes front (cs ++ text) room result
Writes-append front cs text room left result fits (rest, e, size) = (
  rest,
  rw e (simp (length-append, append_assoc, add_assoc)),
  omega (arith, length-append cs text),
)
