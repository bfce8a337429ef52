-- ===== src/Palloc/Search.antt =====
-- The search of `palloc` over the free list, and what it takes.
use sdkz.Common.{
  ℕ, zero, suc, ◌-◌, ◌≤◌, ◌<◌, ◌≡◌, ◌⊎◌, refl, sym, ap, ◌∙◌, inl, inr, true, false, Option, none,
  some, [], ◌∷◌, ltb, leb, Bool-cases, arith, length, le→ltb_false, lt→ltb, ne→==_false,
}
use sdkz.Palloc.{Link, Pool, find_block, take_block, ok}
use sdkz.Palloc.Chain.{Blocks, Chain, Layout, end_of, given, first_fit, remaining, first-pos}
use sdkz.Palloc.Take.{Took, take_whole, take_split, Chain-at}

pub first_fit_here :
    (need a s : ℕ) (bs : Blocks)
    → leb need s ≡ true
    → first_fit need ((a, s) ∷ bs) ≡ some (a, given need s)
first_fit_here need a s bs enough = rw enough

pub first_fit_behind :
    (need a s : ℕ) (bs : Blocks)
    → leb need s ≡ false
    → first_fit need ((a, s) ∷ bs) ≡ first_fit need bs
first_fit_behind need a s bs short = rw short

-- The parts of a block that may be there.
abbrev pub address : ℕ → Option (ℕ × ℕ) → ℕ
address d none = d
address d (some (a, n)) = a

abbrev pub amount : ℕ → Option (ℕ × ℕ) → ℕ
amount d none = d
amount d (some (a, n)) = n

-- A block lies below the last header.
first-below :
    (anchor last lo a s : ℕ) (bs : Blocks) → Layout anchor last lo ((a, s) ∷ bs) → a < last
first-below anchor last lo a s [] (below, small, out, rest) = omega arith
first-below anchor last lo a s ((b, t) ∷ bs) (below, small, out, rest) =
    omega (arith, first-below anchor last (end_of a s) b t bs rest)

module _ (p : Pool) (need : ℕ) where
  take_fit :
      (prev lo a s : ℕ) (bs : Blocks)
      → (prev ≡ p.anchor) ⊎ (prev < lo)
      → (p.mem prev).next ≡ a
      → (p.mem a).flag_n_size ≡ s
      → Layout p.anchor p.ppool_last lo ((a, s) ∷ bs)
      → Chain p.mem p.ppool_last (p.mem a).next bs
      → 8 ≤ need
      → need ≤ s
      → Took p need prev lo a (given need s) ((a, s) ∷ bs) (take_block p need prev a).1
  take_fit prev lo a s bs before at size layout chain least enough =
      elim (Bool-cases (ltb 16 (s - need))) [
        | inl split ↦ rw split (
            take_split p need prev lo a s bs before at size layout chain least enough
              (ground arith))
        | inr whole ↦
            rw whole
              (take_whole p need prev lo a s bs before at size layout chain enough (ground arith))
      ]

  -- What was taken behind the first block was taken from the whole list.
  Took-behind :
      (prev lo b s a n : ℕ) (bs : Blocks) (q : Pool)
      → (prev ≡ p.anchor) ⊎ (prev < lo)
      → (p.mem prev).next ≡ b
      → (p.mem b).flag_n_size ≡ s
      → Layout p.anchor p.ppool_last lo ((b, s) ∷ bs)
      → s < need
      → Took p need b (end_of b s) a n bs q
      → Took p need prev lo a n ((b, s) ∷ bs) q
  Took-behind prev lo b s a n bs q before at size (below, small, out, rest) short took =
      let skipped : leb need s ≡ false = ground arith in
      let same = took.frame prev (omega arith) (omega arith) in
      record {
        chain =
            Chain-at q.mem p.ppool_last _ b _ ((b, s) ∷ remaining need bs) (ap Link.next same ∙ at)
              (rw skipped) (refl, took.kept ∙ size, took.chain);
        kept = ap Link.flag_n_size same;
        frame = λ x ne low. took.frame x (omega arith) (omega arith);
        marked = took.marked;
        counted = took.counted;
      }

  abbrev pub Found : ℕ → ℕ → ℕ → ℕ → ℕ → Blocks → Type 0
  Found fuel prev lo a n bs =
      (before : ℕ) × (find_block fuel p.mem need prev (p.mem prev).next ≡ ok (before, a))
      × ((p.mem before).next ≡ a)
      × (a < p.ppool_last)
      × Took p need prev lo a n bs (take_block p need before a).1

  find_skip :
      (fuel prev b s : ℕ)
      → 0 < b
      → 0 < (p.mem b).next
      → (p.mem b).flag_n_size ≡ s
      → s < need
      → find_block (suc fuel) p.mem need prev b ≡ find_block fuel p.mem need b (p.mem b).next
  unfolding find_block
  find_skip fuel prev b s here more size short = rw (
    ne→==_false b 0 (omega arith),
    size,
    lt→ltb s need short,
    ne→==_false (p.mem b).next 0 (omega arith),
  )

  find_stop :
      (fuel prev b s : ℕ)
      → 0 < b
      → (p.mem b).flag_n_size ≡ s
      → need ≤ s
      → find_block (suc fuel) p.mem need prev b ≡ ok (prev, b)
  unfolding find_block
  find_stop fuel prev b s here size enough =
      rw (ne→==_false b 0 (omega arith), size, le→ltb_false s need enough)

  find_last :
      (fuel prev b : ℕ)
      → 0 < b
      → (p.mem b).next ≡ 0
      → find_block (suc fuel) p.mem need prev b ≡ ok (prev, b)
  unfolding find_block
  find_last fuel prev b here last = elim (Bool-cases (ltb (p.mem b).flag_n_size need)) [
    | inl short ↦ rw (ne→==_false b 0 (omega arith), last, short)
    | inr enough ↦ rw (ne→==_false b 0 (omega arith), last, enough)
  ]

  pub find_takes :
      (fuel prev lo a n : ℕ) (bs : Blocks)
      → length bs < fuel
      → (prev ≡ p.anchor) ⊎ (prev < lo)
      → 0 < lo
      → 8 ≤ need
      → Layout p.anchor p.ppool_last lo bs
      → Chain p.mem p.ppool_last (p.mem prev).next bs
      → first_fit need bs ≡ some (a, n)
      → Found fuel prev lo a n bs
  find_takes fuel prev lo a n [] fuelled before pos least layout chain fits = absurd (ground arith)
  find_takes zero prev lo a n ((b, s) ∷ bs) fuelled before pos least layout chain fits =
      absurd (omega arith)
  find_takes (suc fuel) prev lo a n ((b, s) ∷ bs) fuelled before pos least (below, small, out, rest)
        (at, size, chain) fits =
      elim (Bool-cases (leb need s)) [
        | inl enough ↦
            let same = sym (first_fit_here need b s bs enough) ∙ fits in
            rw (sym (ap (address a) same), sym (ap (amount n) same))
              (
                prev,
                rw at (find_stop fuel prev b s (omega arith) size (ground arith)),
                at,
                first-below p.anchor p.ppool_last lo b s bs (below, small, out, rest),
                take_fit prev lo b s bs before at size (below, small, out, rest) chain least
                    (ground arith),
              )
        | inr short ↦
            let less : s < need = ground arith in
            let (found, e, to, below_last, took) =
              find_takes fuel b (end_of b s) a n bs (omega arith) (inr (omega arith)) (omega arith)
                least rest chain (sym (first_fit_behind need b s bs short) ∙ fits) in
            (
              found,
              ap (find_block (suc fuel) p.mem need prev) at
                  ∙ find_skip fuel prev b s (omega arith)
                      (first-pos p.anchor p.ppool_last p.mem (end_of b s) (p.mem b).next bs
                        (omega arith) rest chain)
                      size less
                  ∙ e,
              to,
              below_last,
              Took-behind prev lo b s a n bs _ before at size (below, small, out, rest) less took,
            )
      ]

  pub find_none :
      (fuel prev lo : ℕ) (bs : Blocks)
      → length bs < fuel
      → 0 < lo
      → Layout p.anchor p.ppool_last lo bs
      → Chain p.mem p.ppool_last (p.mem prev).next bs
      → first_fit need bs ≡ none
      → (before : ℕ) × (find_block fuel p.mem need prev (p.mem prev).next
          ≡ ok (before, p.ppool_last))
  find_none zero prev lo bs fuelled pos layout chain fits = absurd (omega arith)
  find_none (suc fuel) prev lo [] fuelled pos layout (at, size, last) fits =
      (prev, rw at (find_last fuel prev p.ppool_last (omega arith) last))
  find_none (suc fuel) prev lo ((b, s) ∷ bs) fuelled pos (below, small, out, rest) (at, size, chain)
        fits =
      elim (Bool-cases (leb need s)) [
        | inl enough ↦ absurd (ground (arith, first_fit_here need b s bs enough))
        | inr short ↦
            let (before, e) =
              find_none fuel b (end_of b s) bs (omega arith) (omega arith) rest chain
                (sym (first_fit_behind need b s bs short) ∙ fits) in
            (
              before,
              ap (find_block (suc fuel) p.mem need prev) at
                  ∙ find_skip fuel prev b s (omega arith)
                      (first-pos p.anchor p.ppool_last p.mem (end_of b s) (p.mem b).next bs
                        (omega arith) rest chain)
                      size (ground arith)
                  ∙ e,
            )
      ]
