-- ===== src/Palloc/Fits.antt =====
-- What palloc takes from a list of free blocks, and what it leaves.
use sdkz.Common.{
  ℕ, ◌+◌, ◌-◌, ◌*◌, ◌/◌, ◌≤◌, ◌<◌, ◌≡◌, sym, ap, ◌∙◌, inl, inr, some, [], ◌∷◌, ltb, leb,
  if◌then◌else◌, Bool-cases, arith,
}
use sdkz.Palloc.{allocated}
use sdkz.Palloc.Chain.{Blocks, Layout, end_of, total, first_fit, remaining}
use sdkz.Palloc.Search.{amount, first_fit_here, first_fit_behind}

-- The bytes that a request takes: a header before them, and a multiple of 4.
abbrev pub needed : ℕ → ℕ
needed request = (request + 11) / 4 * 4

pub total-Layout :
    (anchor last lo : ℕ) (bs : Blocks) → Layout anchor last lo bs → lo + total bs ≤ last
total-Layout anchor last lo [] (below, ne) = omega arith
total-Layout anchor last lo ((a, s) ∷ bs) (below, small, out, rest) =
    omega (arith, total-Layout anchor last (end_of a s) bs rest)

pub Layout-weaken :
    (anchor last lo lo' : ℕ) (bs : Blocks)
    → lo' ≤ lo
    → Layout anchor last lo bs
    → Layout anchor last lo' bs
Layout-weaken anchor last lo lo' [] le (below, ne) = (omega arith, ne)
Layout-weaken anchor last lo lo' ((a, s) ∷ bs) le (below, small, out, rest) =
    (omega arith, small, out, rest)

pub Layout-remaining :
    (anchor last lo need : ℕ) (bs : Blocks)
    → 8 ≤ need
    → Layout anchor last lo bs
    → Layout anchor last lo (remaining need bs)
Layout-remaining anchor last lo need [] least layout = layout
Layout-remaining anchor last lo need ((a, s) ∷ bs) least (below, small, out, rest) =
    elim (Bool-cases (leb need s)) [
      | inr short ↦
          rw short (below, small, out, Layout-remaining anchor last (end_of a s) need bs least rest)
      | inl enough ↦ elim (Bool-cases (ltb 16 (s - need))) [
        | inr whole ↦
            rw (enough, whole) (Layout-weaken anchor last (end_of a s) lo bs (omega arith) rest)
        | inl split ↦
            let loose : 16 < s - need = ground arith in
            rw (enough, split)
              (
                omega arith,
                omega arith,
                omega arith,
                Layout-weaken anchor last (end_of a s) (end_of (a + need) (s - need)) bs
                    (omega arith) rest,
              )
      ]
    ]

-- What a request may count on when a block fits it.
pub record Fits (need : ℕ) (bs : Blocks) (n : ℕ) : Type 0 where
  pub least : need ≤ n
  pub within : n ≤ total bs
  pub small : n < allocated
  pub counts : total (remaining need bs) + n ≡ total bs

pub fits_lem :
    (anchor last lo need a n : ℕ) (bs : Blocks)
    → Layout anchor last lo bs
    → first_fit need bs ≡ some (a, n)
    → Fits need bs n
fits_lem anchor last lo need a n [] layout fits = absurd (ground arith)
fits_lem anchor last lo need a n ((b, s) ∷ bs) (below, small, out, rest) fits =
    elim (Bool-cases (leb need s)) [
      | inr short ↦
          let behind =
            fits_lem anchor last (end_of b s) need a n bs rest
              (sym (first_fit_behind need b s bs short) ∙ fits) in
          record {
            least = behind.least;
            within = omega (arith, behind.within);
            small = behind.small;
            counts = rw short (omega (arith, behind.counts));
          }
      | inl enough ↦
          let all = ap (amount n) (sym (first_fit_here need b s bs enough) ∙ fits) in
          let enough' : need ≤ s = ground arith in
          elim (Bool-cases (ltb 16 (s - need))) [
            | inr whole ↦
                let e : s ≡ n = ap (λ c. if c then need else s) (sym whole) ∙ all in
                record {
                  least = omega arith;
                  within = omega arith;
                  small = omega arith;
                  counts = rw (enough, whole) (omega arith);
                }
            | inl split ↦
                let e : need ≡ n = ap (λ c. if c then need else s) (sym split) ∙ all in
                record {
                  least = omega arith;
                  within = omega arith;
                  small = omega arith;
                  counts = rw (enough, split) (omega arith);
                }
          ]
    ]
