-- ===== src/Hupacket/Buffer.antt =====
-- What the functions that build a response leave in `tx_buffer`: a string, its NUL, and room.
use sdkz.Common.{
  ℕ, ◌+◌, ◌≤◌, ◌≡◌, refl, sym, ap, ap₂, ◌∙◌, subst, Option, some, List, [], ◌∷◌, ◌++◌, append_assoc,
  append-nil, arith, ◌>>=◌, store-append_head, length, length-append, length-drop, drop, All,
}
use sdkz.Common.Strings.{store_all}
use sdkz.Common.StringLaws.{NotNul, strlen-append}
use sdkz.Hupacket.{Hup}
use sdkz.Hupacket.Respond.{append_str, append_char}
use sdkz.Hupacket.Split.{All-append}

store_all-string :
    (s str : List ℕ) (x : ℕ) (rest : List ℕ)
    → length str ≤ length rest
    → store_all (s ++ (x ∷ rest)) (length s) (str ++ (0 ∷ []))
      ≡ some ((s ++ str) ++ (0 ∷ drop (length str) rest))
store_all-string s [] x rest fits = rw (store-append_head s rest x 0, append-nil) refl
store_all-string s (v ∷ str) x [] fits = absurd (omega arith)
store_all-string s (v ∷ str) x (y ∷ rest) fits = rw (store-append_head s (y ∷ rest) x v) (
    ap₂ (λ l n. store_all l n (str ++ (0 ∷ []))) (sym (append_assoc s (v ∷ []) (y ∷ rest)))
      (omega (arith, length-append s (v ∷ [])))
    ∙ (store_all-string (s ++ (v ∷ [])) str y rest (omega arith)
        ∙ ap (λ t. some (t ++ (0 ∷ drop (length str) rest))) (append_assoc s (v ∷ []) str)))

-- `tx` begins with the string `s`, and so many bytes are free behind its NUL.
pub record HasString (tx s : List ℕ) (room : ℕ) : Type 0 where
  pub rest : List ℕ
  pub split : tx ≡ s ++ (0 ∷ rest)
  pub free : room ≤ length rest
  pub clean : All NotNul s

pub less_room : {tx s t : List ℕ} (a b : ℕ) → HasString tx s a → s ≡ t → b ≤ a → HasString tx t b
less_room {tx = tx} a b has e le =
    subst (λ t. HasString tx t b) e
      (record {
        rest = has.rest;
        split = has.split;
        free = omega (arith, has.free);
        clean = has.clean;
      })

-- On the handle `h`, but for its `tx_buffer`, `f` appends `str` where there is room.
abbrev pub Appends : Hup → (Hup → Option Hup) → List ℕ → Type 0
Appends h f str =
    (tx s : List ℕ) (room : ℕ)
    → HasString tx s (length str + room)
    → (tx' : List ℕ) × (f (record h { tx_buffer = tx }) ≡ some (record h { tx_buffer = tx' }))
      × HasString tx' (s ++ str) room

pub append_str-Appends :
    (h : Hup) (str : List ℕ) → All NotNul str → Appends h (λ h. append_str h str) str
unfolding append_str
append_str-Appends h str clean tx s room has = (
  (s ++ str) ++ (0 ∷ drop (length str) has.rest),
  ap (λ t. append_str (record h { tx_buffer = t }) str) has.split
      ∙ rw
          (
            strlen-append s has.rest has.clean,
            store_all-string s str 0 has.rest (omega (arith, has.free)),
          )
          refl,
  record {
    rest = drop (length str) has.rest;
    split = refl;
    free = omega (arith, has.free, length-drop (length str) has.rest);
    clean = All-append NotNul s str has.clean clean;
  },
)

pub append_char-Appends :
    (h : Hup) (ch : ℕ) → NotNul ch → Appends h (λ h. append_char h ch) (ch ∷ [])
unfolding append_char
append_char-Appends h ch clean tx s room has =
    rw clean (append_str-Appends h (ch ∷ []) (clean, tt) tx s room has)

pub keep-Appends : (h : Hup) → Appends h (λ h. some h) []
keep-Appends h tx s room has =
    (tx, refl, less_room (0 + room) room has (sym (append-nil s)) (omega arith))

pub bind-Appends :
    (h : Hup) (f g : Hup → Option Hup) (a b : List ℕ)
    → Appends h f a
    → Appends h g b
    → Appends h (λ h. f h >>= g) (a ++ b)
bind-Appends h f g a b appends_a appends_b tx s room has =
    let (tx1, ran_f, has1) =
      appends_a tx s (length b + room)
        (less_room _ (length a + (length b + room)) has refl (omega (arith, length-append a b))) in
    let (tx2, ran_g, has2) = appends_b tx1 (s ++ a) room has1 in
    (
      tx2,
      ap (λ o. o >>= g) ran_f ∙ ran_g,
      less_room room room has2 (append_assoc s a b) (omega arith),
    )
