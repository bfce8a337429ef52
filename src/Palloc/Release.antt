-- ===== src/Palloc/Release.antt =====
-- What `pfree` does to the list of free blocks, and `_insert_link` at the place it found.
use sdkz.Common.{
  ℕ, ◌+◌, ◌%◌, ◌≤◌, ◌<◌, ◌≡◌, ◌≢◌, ◌⊎◌, refl, inl, inr, true, [], ◌∷◌, ltb, ◌==◌, if◌then◌else◌,
  Bool-cases, arith, ne→==_false, ==-refl,
}
use sdkz.Palloc.{Memory, link, word_mod, insert_at, write}
use sdkz.Palloc.Chain.{Blocks, end_of}

-- A block in front of the others, joined with the first where they touch.
abbrev pub join : ℕ → ℕ → Blocks → Blocks
join a n [] = (a, n) ∷ []
join a n ((b, s) ∷ bs) = if a + n == b then (a, n + s) ∷ bs else (a, n) ∷ ((b, s) ∷ bs)

abbrev pub join_to : ℕ → ℕ → ℕ → ℕ → Blocks → Blocks
join_to u t a n bs = if u + t == a then join u (t + n) bs else (u, t) ∷ join a n bs

-- The block `a` of `n` bytes given back to the list that `u` of `t` bytes stands before.
abbrev pub release : ℕ → ℕ → ℕ → ℕ → Blocks → Blocks
release u t a n [] = join_to u t a n []
release u t a n ((b, s) ∷ bs) =
    if ltb b a then (u, t) ∷ release b s a n bs else join_to u t a n ((b, s) ∷ bs)

-- The same for the whole list.
abbrev pub released : ℕ → ℕ → Blocks → Blocks
released a n [] = (a, n) ∷ []
released a n ((b, s) ∷ bs) = if ltb b a then release b s a n bs else join a n ((b, s) ∷ bs)

-- Room for a block between those of a list.
abbrev pub HasRoom : ℕ → ℕ → ℕ → ℕ → Blocks → Type 0
HasRoom last lo a n [] = (lo ≤ a) × (a + n ≤ last)
HasRoom last lo a n ((b, s) ∷ bs) =
    ((lo ≤ a) × (a + n ≤ b)) ⊎ ((b < a) × HasRoom last (end_of b s) a n bs)

module _ (last : ℕ) (mem : Memory) (u a : ℕ) (ne : u ≢ a) where
  -- Not joined with the block before, nor with the one behind.
  pub insert_gap :
      (t n w : ℕ)
      → (mem u).flag_n_size ≡ t
      → (mem u).next ≡ w
      → (mem a).flag_n_size ≡ n
      → w ≢ a
      → u + t ≢ a
      → (a + n ≢ w) ⊎ (w ≡ last)
      → (q : ℕ) → insert_at last mem u a q ≡ write (write mem a (link n w)) u (link t a) q
  unfolding insert_at
  insert_gap t n w size at new ne_wa apart why q =
      let far = ne→==_false (u + t) a apart in
      let ua = ne→==_false u a ne in
      elim (Bool-cases (a + n == w)) [
        | inr gap ↦ simp (size, at, new, far, gap, ua)
        | inl behind ↦
            let wl : (w == last) ≡ true = ground arith in
            let e : last ≡ w = ground arith in simp (size, at, new, far, behind, wl, ua) (rw e)
      ]

  pub insert_behind :
      (t n w s : ℕ)
      → (mem u).flag_n_size ≡ t
      → (mem u).next ≡ w
      → (mem a).flag_n_size ≡ n
      → (mem w).flag_n_size ≡ s
      → w ≢ last
      → u + t ≢ a
      → a + n ≡ w
      → n + s < word_mod
      → (q : ℕ)
      → insert_at last mem u a q ≡ write (write mem a (link (n + s) (mem w).next)) u (link t a) q
  unfolding insert_at
  insert_behind t n w s size at new its wl_ne apart touch fits q =
      let far = ne→==_false (u + t) a apart in
      let ua = ne→==_false u a ne in
      let wl = ne→==_false w last wl_ne in
      let behind : (a + n == w) ≡ true = ground arith in
      let sum : (n + s) % word_mod ≡ n + s = omega arith in
      simp (size, at, new, far, behind, wl, ua, its, sum) refl

  pub insert_before :
      (t n w : ℕ)
      → (mem u).flag_n_size ≡ t
      → (mem u).next ≡ w
      → (mem a).flag_n_size ≡ n
      → u + t ≡ a
      → t + n < word_mod
      → (a + n ≢ w) ⊎ (w ≡ last)
      → (q : ℕ) → insert_at last mem u a q ≡ write mem u (link (t + n) w) q
  unfolding insert_at
  insert_before t n w size at new touch fits why q =
      let before : (u + t == a) ≡ true = ground arith in
      let sum : (t + n) % word_mod ≡ t + n = omega arith in
      elim (Bool-cases (u + (t + n) == w)) [
        | inr gap ↦ elim (Bool-cases (q == u)) [
          | inl here ↦ simp (size, at, new, before, sum, gap, here, ==-refl)
          | inr there ↦ simp (size, at, new, before, sum, gap, there, ==-refl)
        ]
        | inl behind ↦
            let wl : (w == last) ≡ true = ground arith in
            let e : last ≡ w = ground arith in
            elim (Bool-cases (q == u)) [
              | inl here ↦ simp (size, at, new, before, sum, behind, wl, here, ==-refl) (rw e)
              | inr there ↦ simp (size, at, new, before, sum, behind, wl, there, ==-refl)
            ]
      ]

  pub insert_both :
      (t n w s : ℕ)
      → (mem u).flag_n_size ≡ t
      → (mem u).next ≡ w
      → (mem a).flag_n_size ≡ n
      → (mem w).flag_n_size ≡ s
      → w ≢ last
      → w ≢ u
      → u + t ≡ a
      → a + n ≡ w
      → t + n + s < word_mod
      → (q : ℕ) → insert_at last mem u a q ≡ write mem u (link (t + n + s) (mem w).next) q
  unfolding insert_at
  insert_both t n w s size at new its wl_ne wu_ne touch touch' fits q =
      let before : (u + t == a) ≡ true = ground arith in
      let wl = ne→==_false w last wl_ne in
      let wu = ne→==_false w u wu_ne in
      let behind : (u + (t + n) == w) ≡ true = ground arith in
      let sum : (t + n) % word_mod ≡ t + n = omega arith in
      let sum' : (t + n + s) % word_mod ≡ t + n + s = omega arith in
      elim (Bool-cases (q == u)) [
        | inl here ↦ simp (size, at, new, its, before, sum, sum', behind, wl, wu, here, ==-refl)
        | inr there ↦ simp (size, at, new, its, before, sum, behind, wl, wu, there, ==-refl)
      ]
