-- ===== src/Common/StringLaws.antt =====
-- What the string functions read in an array that holds a string and its NUL.
use sdkz.Common.{
  ℕ, ◌≡◌, refl, false, none, some, List, [], ◌∷◌, ◌++◌, arith, ◌==◌, length, drop, All,
}
use sdkz.Common.Strings.{c_string, strchr, string_at, strlen}

-- No NUL, and not `ch`.
abbrev pub NotNul : ℕ → Type 0
NotNul b = (b == 0) ≡ false

abbrev pub Without : ℕ → ℕ → Type 0
Without ch b = ((b == 0) ≡ false) × ((b == ch) ≡ false)

pub drop-append {ℓ} :
    {A : Type ℓ} (front back : List A) → drop (length front) (front ++ back) ≡ back
drop-append [] back = refl
drop-append (x ∷ front) back = drop-append front back

pub c_string-append : (s after : List ℕ) → All NotNul s → c_string (s ++ (0 ∷ after)) ≡ some s
c_string-append [] after h = refl
c_string-append (x ∷ s) after (hx, hs) = rw (hx, c_string-append s after hs)

pub string_at-append :
    (front s after : List ℕ)
    → All NotNul s
    → string_at (front ++ (s ++ (0 ∷ after))) (some (length front)) ≡ some s
string_at-append front s after h = rw drop-append (c_string-append s after h)

pub strlen-append : (s after : List ℕ) → All NotNul s → strlen (s ++ (0 ∷ after)) ≡ some (length s)
strlen-append [] after h = refl
strlen-append (x ∷ s) after (hx, hs) = rw (hx, strlen-append s after hs)

pub strchr_found :
    (ch : ℕ) (s after : List ℕ)
    → All (Without ch) s
    → strchr (s ++ (ch ∷ after)) ch ≡ some (some (length s))
strchr_found ch [] after h = ground arith
strchr_found ch (x ∷ s) after ((h0, hc), hs) = rw (hc, h0, strchr_found ch s after hs)

pub strchr_missing :
    (ch : ℕ) (s after : List ℕ)
    → (0 == ch) ≡ false
    → All (Without ch) s
    → strchr (s ++ (0 ∷ after)) ch ≡ some none
strchr_missing ch [] after ne h = rw ne
strchr_missing ch (x ∷ s) after ne ((h0, hc), hs) = rw (hc, h0, strchr_missing ch s after ne hs)
