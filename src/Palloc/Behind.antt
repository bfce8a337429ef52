-- ===== src/Palloc/Behind.antt =====
-- The search of `palloc_init` and the writes of `_set_block`, for a range behind all headers.
use sdkz.Common.{
  ℕ, zero, suc, ◌+◌, ◌<◌, ◌≡◌, ◌≢◌, refl, sym, subst, [], ◌∷◌, length, ◌==◌, if◌then◌else◌, arith,
  lt→ltb, ne→==_false, ==-refl,
}
use sdkz.Palloc.{Memory, Run, ok, link}
use sdkz.Palloc.Chain.{Blocks, Chain, Layout, end_of}
use sdkz.Palloc.Fits.{total-Layout}
use sdkz.Palloc.Init.{find_pool, set_block}

find_pool-step :
    (fuel : ℕ) (mem : Memory) (start prev a : ℕ) (r : Run (ℕ × ℕ))
    → 0 < a
    → a < start
    → find_pool fuel mem start (if (mem a).next == 0 then prev else a) (mem a).next ≡ r
    → find_pool (suc fuel) mem start prev a ≡ r
unfolding find_pool
find_pool-step fuel mem start prev a r pos below found =
    rw (ne→==_false a 0 (omega arith), lt→ltb a start below) found

find_pool-null :
    (fuel : ℕ) (mem : Memory) (start prev a : ℕ)
    → a ≡ 0
    → find_pool (suc fuel) mem start prev a ≡ ok (prev, 0)
unfolding find_pool
find_pool-null fuel mem start prev a null = rw null refl

-- The search walks past all headers below `start`.
pub find_pool-past :
    (anchor last : ℕ) (mem : Memory) (start fuel prev lo p : ℕ) (bs : Blocks)
    → length bs + 1 < fuel
    → 0 < lo
    → last < start
    → Layout anchor last lo bs
    → Chain mem last p bs
    → (before : ℕ) × (find_pool fuel mem start prev p ≡ ok (before, 0))
find_pool-past anchor last mem start zero prev lo p bs enough pos above layout chain =
    absurd (omega arith)
find_pool-past anchor last mem start (suc zero) prev lo p bs enough pos above layout chain =
    absurd (omega arith)
find_pool-past anchor last mem start (suc (suc fuel)) prev lo p [] enough pos above layout
      (at, size, next) =
    (
      if (mem last).next == 0 then prev else last,
      subst
          (λ x.
            find_pool (suc (suc fuel)) mem start prev x
            ≡ ok (if (mem last).next == 0 then prev else last, 0))
          (sym at)
          (find_pool-step (suc fuel) mem start prev last _ (omega (arith, layout.0)) above
            (find_pool-null fuel mem start _ (mem last).next next)),
    )
find_pool-past anchor last mem start (suc (suc fuel)) prev lo p ((a, s) ∷ bs) enough pos above
      (below, small, out, rest) (at, size, chain) =
    let fits = total-Layout anchor last (end_of a s) bs rest in
    let (before, found) =
      find_pool-past anchor last mem start (suc fuel) (if (mem a).next == 0 then prev else a)
        (end_of a s) (mem a).next bs (omega arith) (omega arith) above rest chain in
    (
      before,
      subst (λ x. find_pool (suc (suc fuel)) mem start prev x ≡ ok (before, 0)) (sym at)
          (find_pool-step (suc fuel) mem start prev a _ (omega arith) (omega arith) found),
    )

module _ (last a n last' : ℕ) (mem : Memory) where
  -- What `_set_block` writes for a range behind the last header.
  abbrev pub linked : Memory
  linked = set_block mem a last' n 0 last

  pub linked-same : (q : ℕ) → 0 < last → q ≢ last → q ≢ a → q ≢ last' → linked q ≡ mem q
  linked-same q pos not_last not_a not_end = simp (
    ne→==_false last 0 (omega arith),
    ne→==_false q last not_last,
    ne→==_false q a not_a,
    ne→==_false q last' not_end,
  )

  pub linked-joins :
      0 < last → last < a → last < last' → (mem last).flag_n_size ≡ 0 → linked last ≡ link 0 a
  linked-joins pos below below' size = simp (
    ne→==_false last 0 (omega arith),
    ne→==_false last a (omega arith),
    ne→==_false last last' (omega arith),
    ==-refl,
    size,
  )

  pub linked-new : 0 < last → last < a → a < last' → linked a ≡ link n last'
  linked-new pos below under = simp (
    ne→==_false last 0 (omega arith),
    ne→==_false a last (omega arith),
    ne→==_false a last' (omega arith),
    ==-refl,
  )

  pub linked-ends : 0 < last → last < last' → linked last' ≡ link 0 0
  linked-ends pos below =
      simp (ne→==_false last 0 (omega arith), ne→==_false last' last (omega arith), ==-refl)
