-- ===== src/Huflash/Decode.antt =====
-- The decoding of a chunk by the flash command.
use sdkz.Common.{
  ℕ, ◌+◌, ◌-◌, ◌*◌, ◌≤◌, ◌<◌, ◌≡◌, inl, inr, refl, sym, ap, ◌∙◌, true, false, none, some, List, [],
  ◌∷◌, ◌++◌, ◌==◌, ltb, length, take, arith, Bool-cases, Option-cases, ==→eq, ltb→lt, ltb_false→le,
}
use mathlib.Core.Option
use sdkz.Common.Int.{ℤ, pos, negsuc, ltb_ℤ}
use sdkz.Common.Strings.{c_string}
use sdkz.Ascii85.{Outcome, fault, returned, decode_ascii85, get_max_decoded_length}
use sdkz.Ascii85.Bounds.{count_z, Returns, decode_ascii85-Returns}
use sdkz.Huflash.Commands.{decode_status}

some_inj : {A : Type 0} (d a b : A) → some a ≡ some b → a ≡ b
some_inj d a b e = ap (λ o. elim o [ none ↦ d | some x ↦ x ]) e

cons_stop : (x : ℕ) (xs : List ℕ) → (x == 0) ≡ true → c_string (x ∷ xs) ≡ some []
cons_stop x xs h = rw h

cons_more :
    (x : ℕ) (xs : List ℕ) → (x == 0) ≡ false → c_string (x ∷ xs) ≡ Option.map (◌∷◌ x) (c_string xs)
cons_more x xs h = rw h

-- A string ends before a NUL.
pub c_string-split :
    (b s : List ℕ) → c_string b ≡ some s → (after : List ℕ) × (b ≡ s ++ (0 ∷ after))
c_string-split [] s e = absurd (ground arith)
c_string-split (x ∷ xs) s e = elim (Bool-cases (x == 0)) [
  | inl stop ↦
      let empty = some_inj [] [] s (sym (cons_stop x xs stop) ∙ e) in
      (xs, rw (sym empty, ==→eq x 0 stop))
  | inr more ↦ elim (Option-cases (c_string xs)) [
    | inl bad ↦ absurd (ground (arith, cons_more x xs more, bad))
    | inr (t, e') ↦
        let (after, split) = c_string-split xs t e' in
        let whole =
          some_inj [] (x ∷ t) s (sym (cons_more x xs more ∙ ap (Option.map (◌∷◌ x)) e') ∙ e) in
        (after, rw (sym whole) (ap (◌∷◌ x) split))
  ]
]

-- More text than a quarter of the output is refused before any of it is decoded.
pub decode_long :
    (inp outp : List ℕ) (n : ℕ)
    → 1280 < n * 4
    → (e : ℕ) × (decode_ascii85 inp (pos n) outp (pos 1280) ≡ returned (negsuc e) outp)
      × (251 ≤ e)
      × (e ≤ 254)
unfolding decode_ascii85 get_max_decoded_length
decode_long inp outp n long =
    let up : ltb_ℤ (pos (n * 4)) (pos 0) ≡ false = ground arith in
    let much : ltb_ℤ (pos 1280) (pos (n * 4)) ≡ true = ground arith in
    elim (Bool-cases (ltb 65536 n)) [
      | inl large ↦ (253, rw large refl, omega arith, omega arith)
      | inr small ↦ (254, rw (small, up, much) refl, omega arith, omega arith)
    ]

-- The decoded chunk is refused with an error below 0.
abbrev pub Refuses : ℕ → ℕ → Outcome → Type 0
Refuses elasterror size r =
    (b : ℤ) × (tx : List ℕ) × (e : ℕ) × (r ≡ returned b tx)
    × (decode_status elasterror b (pos size) ≡ negsuc e)

Refuses-error :
    (elasterror size m : ℕ) (tx : List ℕ)
    → 251 ≤ m
    → m ≤ 254
    → Refuses elasterror size (returned (negsuc m) tx)
Refuses-error elasterror size m tx low high =
    (negsuc m, tx, 256 + elasterror - m, refl, ground arith)

Refuses-size :
    (elasterror size k : ℕ) (tx : List ℕ) → k < size → Refuses elasterror size (returned (pos k) tx)
Refuses-size elasterror size k tx short = (pos k, tx, elasterror + 1, refl, ground arith)

Refuses-returned :
    (elasterror size room most : ℕ) (r : Outcome)
    → Returns room most r
    → most < 5 * size
    → Refuses elasterror size r
Refuses-returned elasterror size room most fault bound small = absurd bound
Refuses-returned elasterror size room most (returned (pos k) tx) (bound, fits) small =
    Refuses-size elasterror size k tx (omega arith)
Refuses-returned elasterror size room most (returned (negsuc m) tx) (low, high, fits) small =
    Refuses-error elasterror size m tx low high

pub no_z-Refuses :
    (elasterror size n : ℕ) (inp outp : List ℕ)
    → n ≤ length inp
    → 1280 ≤ length outp
    → count_z (take n inp) ≡ 0
    → 256 < size
    → Refuses elasterror size (decode_ascii85 inp (pos n) outp (pos 1280))
no_z-Refuses elasterror size n inp outp there room no_z large =
    elim (Bool-cases (ltb 1280 (n * 4))) [
      | inl long ↦
          let (e, r, low, high) = decode_long inp outp n (ltb→lt 1280 (n * 4) long) in
          rw r (Refuses-error elasterror size e outp low high)
      | inr short ↦
          Refuses-returned elasterror size (length outp) (4 * n + 16 * count_z (take n inp)) _
            (decode_ascii85-Returns inp outp n (pos 1280) there (omega arith))
            (omega (arith, ltb_false→le 1280 (n * 4) short))
    ]
