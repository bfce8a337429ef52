-- ===== src/Common/Strings.antt =====
-- C strings in byte arrays: the functions of <string.h> and <stdlib.h> that the code calls.
-- `none` is a read or a store outside of the array.
use sdkz.Common.{
  ℕ, suc, ◌+◌, ◌-◌, ◌*◌, ◌%◌, ◌^◌, Bool, true, false, ◌&&◌, ◌||◌, Option, none, some, List, [], ◌∷◌,
  ◌++◌, ltb, leb, ◌==◌, if◌then◌else◌, store, drop, ◌>>=◌,
}
use mathlib.Core.Option
use sdkz.Common.Int.{ℤ, pos, negsuc, neg}

-- The string that starts an array, without its NUL.
abbrev pub c_string : List ℕ → Option (List ℕ)
c_string [] = none
c_string (x ∷ xs) = if x == 0 then some [] else Option.map (◌∷◌ x) (c_string xs)

-- The string at a pointer into an array; `none` among pointers is NULL.
abbrev pub string_at : List ℕ → Option ℕ → Option (List ℕ)
string_at buffer none = none
string_at buffer (some p) = c_string (drop p buffer)

abbrev pub strlen : List ℕ → Option ℕ
strlen [] = none
strlen (x ∷ xs) = if x == 0 then some 0 else Option.map suc (strlen xs)

-- The index of the first `ch` before the NUL, or `none` within.
abbrev pub strchr : List ℕ → ℕ → Option (Option ℕ)
strchr [] ch = none
strchr (x ∷ xs) ch =
    if x == ch
    then some (some 0)
    else if x == 0
    then some none
    else Option.map (Option.map suc) (strchr xs ch)

abbrev pub store_all : List ℕ → ℕ → List ℕ → Option (List ℕ)
store_all buffer i [] = some buffer
store_all buffer i (v ∷ vs) = do buffer' ← store buffer i v; store_all buffer' (i + 1) vs

abbrev pub strcat : List ℕ → List ℕ → Option (List ℕ)
strcat buffer s = do i ← strlen buffer; store_all buffer i (s ++ 0 ∷ [])

-- `strcmp(s, t) == 0`.
abbrev pub str_eq : List ℕ → List ℕ → Bool
str_eq [] [] = true
str_eq [] (y ∷ ys) = false
str_eq (x ∷ xs) [] = false
str_eq (x ∷ xs) (y ∷ ys) = x == y && str_eq xs ys

-- The value of a digit, at most 35, or 36.
abbrev pub digit_of : ℕ → ℕ
digit_of c =
    if leb 48 c && leb c 57
    then c - 48
    else if leb 97 c && leb c 122
    then c - 87
    else if leb 65 c && leb c 90
    then c - 55
    else 36

abbrev pub digits_from : ℕ → ℕ → List ℕ → ℕ
digits_from base acc [] = acc
digits_from base acc (c ∷ cs) =
    let rest = digits_from base (acc * base + digit_of c) cs in
    if ltb (digit_of c) base then rest else acc

abbrev pub is_space : ℕ → Bool
is_space c = c == 32 || (leb 9 c && leb c 13)

abbrev pub skip_spaces : List ℕ → List ℕ
skip_spaces [] = []
skip_spaces (c ∷ cs) = let rest = skip_spaces cs in if is_space c then rest else c ∷ cs

-- "0x" goes only where a digit follows it and the base is 16.
abbrev pub skip_prefix : ℕ → List ℕ → List ℕ
skip_prefix base (a ∷ b ∷ c ∷ cs) =
    if (base == 16 && a == 48) && ((b == 120 || b == 88) && ltb (digit_of c) 16)
    then c ∷ cs
    else a ∷ b ∷ c ∷ cs
skip_prefix base cs = cs

-- The sign and the digits of a number, behind the spaces.
abbrev pub signed_number : ℕ → List ℕ → Bool × ℕ
signed_number base [] = (false, 0)
signed_number base (c ∷ cs) =
    if c == 45
    then (true, digits_from base 0 (skip_prefix base cs))
    else if c == 43
    then (false, digits_from base 0 (skip_prefix base cs))
    else (false, digits_from base 0 (skip_prefix base (c ∷ cs)))

abbrev pub parse_number : ℕ → List ℕ → Bool × ℕ
parse_number base s = signed_number base (skip_spaces s)

-- `strtoul` with a 32-bit `unsigned long`: beyond its range ULONG_MAX, a '-' negates.
abbrev pub strtoul : List ℕ → ℕ → ℕ
strtoul s base =
    let (minus, n) = parse_number base s in
    if ltb (2 ^ 32 - 1) n then 2 ^ 32 - 1 else if minus then (2 ^ 32 - n) % 2 ^ 32 else n

-- `strtol` with a 32-bit `long`: beyond its range LONG_MAX or LONG_MIN.
abbrev pub strtol : List ℕ → ℕ → ℤ
strtol s base =
    let (minus, n) = parse_number base s in
    if minus
    then (if ltb (2 ^ 31) n then negsuc (2 ^ 31 - 1) else neg (pos n))
    else if ltb (2 ^ 31 - 1) n
    then pos (2 ^ 31 - 1)
    else pos n
