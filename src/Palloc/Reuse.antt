-- ===== src/Palloc/Reuse.antt =====
-- A block that `palloc` returned can be given back.
use sdkz.Common.{
  ℕ, ◌+◌, ◌-◌, ◌≤◌, ◌<◌, ◌≡◌, ◌⊎◌, sym, ap, ◌∙◌, inl, inr, [], ◌∷◌, some, ltb, leb, if◌then◌else◌,
  Bool-cases, arith, length,
}
use sdkz.Palloc.{Pool, ok, allocated, word_mod, palloc, pfree, ◌>>=◌}
use sdkz.Palloc.Chain.{Blocks, Layout, IsHeap, end_of, total, first_fit, remaining}
use sdkz.Palloc.Search.{address, amount, first_fit_here, first_fit_behind}
use sdkz.Palloc.Allocate.{palloc_taken}
use sdkz.Palloc.Fits.{needed, fits_lem, Layout-weaken}
use sdkz.Palloc.Release.{released, HasRoom}
use sdkz.Palloc.Pfree.{IsTaken, pfree-Releases}

HasRoom-front :
    (anchor last lo a n : ℕ) (bs : Blocks)
    → lo ≤ a
    → Layout anchor last (a + n) bs
    → HasRoom last lo a n bs
HasRoom-front anchor last lo a n [] low layout = (low, layout.0)
HasRoom-front anchor last lo a n ((b, s) ∷ bs) low layout = inl (low, layout.0)

length-remaining : (need : ℕ) (bs : Blocks) → length (remaining need bs) ≤ length bs
length-remaining need [] = omega arith
length-remaining need ((a, s) ∷ bs) = elim (Bool-cases (leb need s)) [
  | inr short ↦ rw short (omega (arith, length-remaining need bs))
  | inl enough ↦ elim (Bool-cases (ltb 16 (s - need))) [
    | inl split ↦ rw (enough, split) (omega arith)
    | inr whole ↦ rw (enough, whole) (omega arith)
  ]
]

-- The place of the block that was taken is free of the others.
HasRoom-remaining :
    (anchor last lo need a n : ℕ) (bs : Blocks)
    → 8 ≤ need
    → Layout anchor last lo bs
    → first_fit need bs ≡ some (a, n)
    → HasRoom last lo a n (remaining need bs) × ((anchor < a) ⊎ (end_of a n ≤ anchor))
HasRoom-remaining anchor last lo need a n [] least layout fits = absurd (ground arith)
HasRoom-remaining anchor last lo need a n ((b, s) ∷ bs) least (below, small, out, rest) fits =
    elim (Bool-cases (leb need s)) [
      | inr short ↦
          let (room, clear) =
            HasRoom-remaining anchor last (end_of b s) need a n bs least rest
              (sym (first_fit_behind need b s bs short) ∙ fits) in
          let above =
            lo-HasRoom anchor last (end_of b s) need a n bs least rest
              (sym (first_fit_behind need b s bs short) ∙ fits) in
          rw short (inr (omega arith, room), clear)
      | inl enough ↦
          let same = sym (first_fit_here need b s bs enough) ∙ fits in
          let at : b ≡ a = ap (address a) same in
          let enough' : need ≤ s = ground arith in
          elim (Bool-cases (ltb 16 (s - need))) [
            | inl split ↦
                let e : need ≡ n =
                  ap (λ c. if c then need else s) (sym split) ∙ ap (amount n) same in
                let loose : 16 < s - need = ground arith in
                rw (enough, split) (inl (omega arith, omega arith), omega arith)
            | inr whole ↦
                let e : s ≡ n = ap (λ c. if c then need else s) (sym whole) ∙ ap (amount n) same in
                rw (enough, whole)
                  (
                    HasRoom-front anchor last lo a n bs (omega arith)
                        (Layout-weaken anchor last (end_of b s) (a + n) bs (omega arith) rest),
                    omega arith,
                  )
          ]
    ]
  where
    lo-HasRoom :
        (anchor last lo need a n : ℕ) (bs : Blocks)
        → 8 ≤ need
        → Layout anchor last lo bs
        → first_fit need bs ≡ some (a, n)
        → lo ≤ a
    lo-HasRoom anchor last lo need a n [] least layout fits = absurd (ground arith)
    lo-HasRoom anchor last lo need a n ((b, s) ∷ bs) least (below, small, out, rest) fits =
        elim (Bool-cases (leb need s)) [
          | inl enough ↦
              let at : b ≡ a = ap (address a) (sym (first_fit_here need b s bs enough) ∙ fits) in
              omega arith
          | inr short ↦ omega (
            arith,
            lo-HasRoom anchor last (end_of b s) need a n bs least rest
                (sym (first_fit_behind need b s bs short) ∙ fits),
          )
        ]

module _ (fuel request a n : ℕ) (p : Pool) (bs : Blocks) where
  -- A block that fits the request is returned by `palloc` and taken back by `pfree`: the free list
  -- is in order again, and as many bytes are free as before.
  pub pfree-palloc :
      IsHeap p bs
      → 0 < request
      → request + 11 < word_mod
      → total bs < allocated
      → length bs < fuel
      → first_fit (needed request) bs ≡ some (a, n)
      → (r : Pool) × ((palloc fuel request p >>= λ (ptr, q). pfree fuel ptr q) ≡ ok r)
        × IsHeap r (released a n (remaining (needed request) bs))
        × (r.free_size ≡ p.free_size)
  pfree-palloc heap some_bytes small half fuelled fits =
      let need = needed request in
      let facts = fits_lem p.anchor p.ppool_last 1 need a n bs heap.layout fits in
      let (room, clear) =
        HasRoom-remaining p.anchor p.ppool_last 1 need a n bs (omega arith) heap.layout fits in
      let (q, e, heap', marked, count, same_anchor, same_last) =
        palloc_taken fuel request p bs a n heap some_bytes small fuelled fits in
      let taken : IsTaken q (remaining need bs) a n = record {
        marked = marked;
        least = omega (arith, facts.least);
        clear = omega arith;
        room = rw same_last room;
      } in
      let (r, e', heap'', count') =
        pfree-Releases fuel a n q (remaining need bs) heap' taken (omega (arith, facts.counts))
          (omega (arith, length-remaining need bs)) in
      (r, ap (λ o. o >>= λ (ptr, q). pfree fuel ptr q) e ∙ e', heap'', omega (arith, count, count'))
