-- ===== src/HupServer/Memory.antt =====
-- What the start of a server takes from the allocator: `init_hup_server` with the `palloc` of
-- `init_hupacket`, and what it gives back where it fails.
use sdkz.Common.{
  ℕ, ◌+◌, ◌*◌, ◌≤◌, ◌<◌, ◌≡◌, ◌⊎◌, inl, inr, refl, sym, ap, ◌∙◌, Bool, true, false, Option-cases,
  [], ◌∷◌, ◌==◌, if◌then◌else◌, ◌&&◌, length, arith, ne→==_false,
}
use mathlib.Core.Bool.{false≢true}
use sdkz.Palloc.{Pool, Run, ok, allocated, word_mod, palloc, pfree, ◌>>=◌}
use sdkz.Palloc.Chain.{Blocks, IsHeap, Layout, end_of, total, first_fit}
use sdkz.Palloc.Fits.{needed, fits_lem}
use sdkz.Palloc.Allocate.{palloc_full, palloc_taken}
use sdkz.Palloc.Reuse.{pfree-palloc}
use sdkz.HupServer.Lifetime.{Found}

-- The sizes of `struct handle` and of `struct hup_handle`.
module _ (fuel sizeof_handle sizeof_hup : ℕ) where
  -- `driver` is that `api->init` does not give NULL; it takes nothing from this allocator.
  unfoldable pub take_server : Bool → Pool → Run (Found × Pool)
  take_server driver p = palloc fuel sizeof_handle p >>= λ (h, p1).
      if h == 0
      then ok (record { memory = false; driver = driver; packet = false }, p1)
      else if driver
      then (palloc fuel sizeof_hup p1 >>= λ (hup, p2).
          if hup == 0
          then (pfree fuel h p2 >>= λ p3.
              ok (record { memory = true; driver = true; packet = false }, p3))
          else ok (record { memory = true; driver = true; packet = true }, p2))
      else (pfree fuel h p1 >>= λ p2.
          ok (record { memory = true; driver = false; packet = false }, p2))

length-Layout :
    (anchor last lo : ℕ) (bs : Blocks) → Layout anchor last lo bs → lo + 8 * length bs ≤ last
length-Layout anchor last lo [] (below, ne) = omega arith
length-Layout anchor last lo ((a, s) ∷ bs) (below, small, out, rest) =
    omega (arith, length-Layout anchor last (end_of a s) bs rest)

-- The list is in order, and has at most so many bytes.
pub record Holds (most : ℕ) (p : Pool) : Type 0 where
  pub blocks : Blocks
  pub heap : IsHeap p blocks
  pub bytes : p.free_size ≤ most

module _ (fuel most : ℕ) (enough : word_mod ≤ 8 * fuel) (half : most < allocated) where
  -- A block that was got, the list behind it, and what giving it back comes to.
  Got : ℕ → Pool → ℕ × Pool → Type 0
  Got request p r =
      (r ≡ (0, p))
      ⊎ ((0 < r.0)
          × Holds most r.1
          × (q : Pool) × (pfree fuel r.0 r.1 ≡ ok q)
          × Holds most q
          × (q.free_size ≡ p.free_size))

  palloc-Got :
      (request : ℕ) (p : Pool)
      → 0 < request
      → request + 11 < word_mod
      → Holds most p
      → (r : ℕ × Pool) × (palloc fuel request p ≡ ok r) × Got request p r
  unfolding Got
  palloc-Got request p some_bytes small holds =
      let bs = holds.blocks in
      let heap = holds.heap in
      let fuelled : length bs < fuel =
        omega (arith, length-Layout p.anchor p.ppool_last 1 bs heap.layout, heap.below) in
      let few : total bs < allocated = omega (arith, heap.counted, holds.bytes) in
      elim (Option-cases (first_fit (needed request) bs)) [
        | inl full ↦
            ((0, p), palloc_full fuel request p bs heap some_bytes small fuelled full, inl refl)
        | inr ((a, n), fits) ↦
            let facts = fits_lem p.anchor p.ppool_last 1 (needed request) a n bs heap.layout fits in
            let (q, e, heap', marked, count, _, _) =
              palloc_taken fuel request p bs a n heap some_bytes small fuelled fits in
            let (r, e', heap'', same) =
              pfree-palloc fuel request a n p bs heap some_bytes small few fuelled fits in
            (
              (a + 8, q),
              e,
              inr (
                omega arith,
                record { blocks = _; heap = heap'; bytes = omega (arith, holds.bytes) },
                r,
                sym (ap (λ o. o >>= λ (ptr, q). pfree fuel ptr q) e) ∙ e',
                record { blocks = _; heap = heap''; bytes = omega (arith, holds.bytes, same) },
                same,
              ),
            )
      ]

  -- The start of a server leaves the list in order; and where one of its calls fails, as many
  -- bytes are free as before.
  pub take_server-Holds :
      (sizeof_handle sizeof_hup : ℕ) (driver : Bool) (p : Pool)
      → 0 < sizeof_handle
      → sizeof_handle + 11 < word_mod
      → 0 < sizeof_hup
      → sizeof_hup + 11 < word_mod
      → Holds most p
      → (found : Found) × (q : Pool) × (take_server fuel sizeof_handle sizeof_hup driver p
          ≡ ok (found, q))
        × Holds most q
        × (found.memory && (found.driver && found.packet) ≡ false → q.free_size ≡ p.free_size)
  unfolding take_server Got
  take_server-Holds sizeof_handle sizeof_hup false p pos small pos' small' holds =
      let ((h, p1), e, got) = palloc-Got sizeof_handle p pos small holds in
      elim got [
        | inl null ↦ (
          record { memory = false; driver = false; packet = false },
          p,
          rw (e, null) refl,
          holds,
          λ failed. refl,
        )
        | inr (nonzero, holds1, q, freed, holds2, same) ↦ (
          record { memory = true; driver = false; packet = false },
          q,
          rw (e, ne→==_false h 0 (omega arith), freed) refl,
          holds2,
          λ failed. same,
        )
      ]
  take_server-Holds sizeof_handle sizeof_hup true p pos small pos' small' holds =
      let ((h, p1), e, got) = palloc-Got sizeof_handle p pos small holds in
      elim got [
        | inl null ↦ (
          record { memory = false; driver = true; packet = false },
          p,
          rw (e, null) refl,
          holds,
          λ failed. refl,
        )
        | inr (nonzero, holds1, q, freed, holds2, same) ↦
            let ((hup, p2), e', got') = palloc-Got sizeof_hup p1 pos' small' holds1 in
            elim got' [
              | inl null ↦ (
                record { memory = true; driver = true; packet = false },
                q,
                rw (e, ne→==_false h 0 (omega arith), e', null, freed) refl,
                holds2,
                λ failed. same,
              )
              | inr (nonzero', holds3, q', freed', holds4, same') ↦ (
                record { memory = true; driver = true; packet = true },
                p2,
                rw (e, ne→==_false h 0 (omega arith), e', ne→==_false hup 0 (omega arith)) refl,
                holds3,
                λ failed. absurd (false≢true (sym failed)),
              )
            ]
      ]
