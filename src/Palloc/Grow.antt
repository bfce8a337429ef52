-- ===== src/Palloc/Grow.antt =====
-- `prealloc` of a block that `palloc` returned, for a size that the block's whole size covers.
use sdkz.Common.{ℕ, ◌+◌, ◌-◌, ◌%◌, ◌≤◌, ◌<◌, ◌≡◌, some, arith, length, le→ltb_false, ne→==_false}
use sdkz.Palloc.{Pool, ok, link, allocated, word_mod, palloc, prealloc}
use sdkz.Palloc.Chain.{Blocks, IsHeap, first_fit}
use sdkz.Palloc.Allocate.{palloc_taken}
use sdkz.Palloc.Fits.{needed, fits_lem}

prealloc_kept :
    (fuel a n nbytes : ℕ) (p : Pool)
    → p.mem a ≡ link (n + allocated) 0
    → n < allocated
    → nbytes ≤ n
    → prealloc fuel (a + 8) nbytes p ≡ ok (a + 8, 0, p)
unfolding prealloc
prealloc_kept fuel a n nbytes p marked small fits =
    let at : a + 8 - 8 ≡ a = omega arith in
    let size : (n + allocated) % allocated ≡ n = omega arith in
    rw (ne→==_false (a + 8) 0 (omega arith), at, marked, size, le→ltb_false n nbytes fits)

module _ (fuel request a n nbytes : ℕ) (p : Pool) (bs : Blocks) where
  -- Where `palloc` returned a block of `n` bytes, header included, `prealloc` leaves it as it is
  -- for every size up to `n`: also for the sizes above `n - 8`, for which there is no room
  -- behind the header.
  pub prealloc-palloc :
      IsHeap p bs
      → 0 < request
      → request + 11 < word_mod
      → length bs < fuel
      → first_fit (needed request) bs ≡ some (a, n)
      → nbytes ≤ n
      → (q : Pool) × (palloc fuel request p ≡ ok (a + 8, q))
        × (prealloc fuel (a + 8) nbytes q ≡ ok (a + 8, 0, q))
  prealloc-palloc heap some_bytes small fuelled fits covered =
      let facts = fits_lem p.anchor p.ppool_last 1 (needed request) a n bs heap.layout fits in
      let (q, e, _, marked, _, _, _) =
        palloc_taken fuel request p bs a n heap some_bytes small fuelled fits in
      (q, e, prealloc_kept fuel a n nbytes q marked facts.small covered)
