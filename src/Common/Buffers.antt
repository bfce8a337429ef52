-- ===== src/Common/Buffers.antt =====
-- C arrays that a function fills: a store outside of the array is a fault, `none`.
use Prim.Native.Nat.{ℕ, zero, suc, ◌+◌, ◌≤◌}
use Prim.Native.Nat.add
use mathlib.Core.Path.{◌≡◌, refl}
use mathlib.Core.Option
use mathlib.Core.Option.{Option, none, some}
use mathlib.Core.List.{List, [], ◌∷◌, ◌++◌}
use native.Mathlib.Omega.{arith}
use sdkz.Common.Lists.{length, drop}

infixl 5 ◌>>=◌
abbrev pub ◌>>=◌ {ℓ κ} : {A : Type ℓ} {B : Type κ} → Option A → (A → Option B) → Option B
none >>= f = none
some a >>= f = f a

module _ {ℓ} {A : Type ℓ} where
  abbrev pub store : List A → ℕ → A → Option (List A)
  store [] i v = none
  store (x ∷ xs) zero v = some (v ∷ xs)
  store (x ∷ xs) (suc i) v = Option.map (◌∷◌ x) (store xs i v)

  map-append_cons :
      (x : A) (front : List A) (o : Option (List A))
      → Option.map (◌∷◌ x) (Option.map (◌++◌ front) o) ≡ Option.map (◌++◌ (x ∷ front)) o
  map-append_cons x front none = refl
  map-append_cons x front (some ys) = refl

  map-append_nil : (o : Option (List A)) → Option.map (◌++◌ []) o ≡ o
  map-append_nil none = refl
  map-append_nil (some ys) = refl

  -- A store behind a prefix goes to what follows it.
  pub store-append :
      (front back : List A) (k : ℕ) (v : A)
      → store (front ++ back) (length front + k) v ≡ Option.map (◌++◌ front) (store back k v)
  store-append [] back k v = rw (add.zero, map-append_nil)
  store-append (x ∷ front) back k v =
      rw (add.suc, store-append front back k v) (map-append_cons x front _)

  pub store-append_head :
      (front back : List A) (x v : A)
      → store (front ++ (x ∷ back)) (length front) v ≡ some (front ++ (v ∷ back))
  store-append_head [] back x v = refl
  store-append_head (y ∷ front) back x v = rw (store-append_head front back x v)

  -- Four and five stores from index `i` on, the last element first.
  abbrev pub store_four : List A → ℕ → A → A → A → A → Option (List A)
  store_four out i a b c d = do
    out ← store out (i + 3) d
    out ← store out (i + 2) c
    out ← store out (i + 1) b
    store out i a

  abbrev pub store_five : List A → ℕ → A → A → A → A → A → Option (List A)
  store_five out i a b c d e = do out ← store out (i + 4) e; store_four out i a b c d

  pub store_four-append :
      (front room : List A) (a b c d : A)
      → 4 ≤ length room
      → store_four (front ++ room) (length front) a b c d
        ≡ some (front ++ (a ∷ b ∷ c ∷ d ∷ drop 4 room))
  store_four-append front [] a b c d h = absurd (omega arith)
  store_four-append front (w ∷ []) a b c d h = absurd (omega arith)
  store_four-append front (w ∷ x ∷ []) a b c d h = absurd (omega arith)
  store_four-append front (w ∷ x ∷ y ∷ []) a b c d h = absurd (omega arith)
  store_four-append front (w ∷ x ∷ y ∷ z ∷ room) a b c d h = simp (store-append, store-append_head)

  pub store_five-append :
      (front room : List A) (a b c d e : A)
      → 5 ≤ length room
      → store_five (front ++ room) (length front) a b c d e
        ≡ some (front ++ (a ∷ b ∷ c ∷ d ∷ e ∷ drop 5 room))
  store_five-append front [] a b c d e h = absurd (omega arith)
  store_five-append front (w ∷ []) a b c d e h = absurd (omega arith)
  store_five-append front (w ∷ x ∷ []) a b c d e h = absurd (omega arith)
  store_five-append front (w ∷ x ∷ y ∷ []) a b c d e h = absurd (omega arith)
  store_five-append front (w ∷ x ∷ y ∷ z ∷ []) a b c d e h = absurd (omega arith)
  store_five-append front (w ∷ x ∷ y ∷ z ∷ v ∷ room) a b c d e h =
      simp (store-append, store-append_head)
