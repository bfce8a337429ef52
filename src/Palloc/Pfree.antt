-- ===== src/Palloc/Pfree.antt =====
-- `pfree` gives a block back.
use sdkz.Common.{
  ℕ, ◌+◌, ◌-◌, ◌%◌, ◌≤◌, ◌<◌, ◌≡◌, ◌≢◌, ◌⊎◌, refl, ap, ◌∙◌, inl, inr, true, [], ◌∷◌, ltb, leb,
  Bool-cases, arith, length, ne→==_false,
}
use sdkz.Palloc.{
  Memory, Pool, Link, ok, link, allocated, word_mod, insert_at, find_place, write, pfree,
}
use sdkz.Palloc.Chain.{Blocks, IsHeap, end_of, total}
use sdkz.Palloc.Take.{Chain-at}
use sdkz.Palloc.Release.{released, HasRoom}
use sdkz.Palloc.Insert.{write-other, write-same}
use sdkz.Palloc.Free.{Layout-released, release-released, total-join, total-release, Chain-write}
use sdkz.Palloc.Place.{place}

pub total-released : (a n : ℕ) (bs : Blocks) → total (released a n bs) ≡ n + total bs
total-released a n [] = refl
total-released a n ((b, s) ∷ bs) = elim (Bool-cases (ltb b a)) [
  | inl under ↦ rw under (omega (arith, total-release b s a n bs))
  | inr above ↦ rw above (total-join a n ((b, s) ∷ bs))
]

-- An allocated block of `n` bytes at `a`, in none of the free ones and not on the anchor.
pub record IsTaken (p : Pool) (bs : Blocks) (a n : ℕ) : Type 0 where
  pub marked : p.mem a ≡ link (n + allocated) 0
  pub least : 8 ≤ n
  pub clear : (p.anchor < a) ⊎ (end_of a n ≤ p.anchor)
  pub room : HasRoom p.ppool_last 1 a n bs

module _ (fuel a n : ℕ) (p : Pool) (bs : Blocks) where
  abbrev unmarked : Memory
  unmarked = write p.mem a (link n 0)

  abbrev after : ℕ → Pool
  after itor = record p {
    mem = insert_at p.ppool_last unmarked itor a;
    free_size = (p.free_size + n) % word_mod;
    num_free = (p.num_free + 1) % word_mod;
  }

  pfree_run :
      (itor : ℕ)
      → p.mem a ≡ link (n + allocated) 0
      → n < allocated
      → find_place fuel unmarked a p.anchor ≡ ok itor
      → pfree fuel (a + 8) p ≡ ok (after itor)
  unfolding pfree
  pfree_run itor marked small found =
      let at : a + 8 - 8 ≡ a = omega arith in
      let flagged : leb allocated (n + allocated) ≡ true = ground arith in
      let size : (n + allocated) % allocated ≡ n = omega arith in
      rw (ne→==_false (a + 8) 0 (omega arith), at, marked, flagged, size, found)

  -- `pfree` of an allocated block, on a free list in order: the block is free again, joined with
  -- the free blocks that it touches, the list is in order, and the count of free bytes grows by
  -- the size of the block.
  pub pfree-Releases :
      IsHeap p bs
      → IsTaken p bs a n
      → n + total bs < allocated
      → length bs < fuel
      → (q : Pool) × (pfree fuel (a + 8) p ≡ ok q)
        × IsHeap q (released a n bs)
        × (q.free_size ≡ p.free_size + n)
  pfree-Releases heap taken small fuelled =
      let anchor_ne : p.anchor ≢ a = omega (arith, taken.clear, taken.least) in
      let start : unmarked p.anchor ≡ p.mem p.anchor =
        write-other p.mem a (link n 0) p.anchor anchor_ne in
      let (itor, found, done) =
        place p.anchor p.ppool_last unmarked a n fuel p.anchor 0 1 bs fuelled heap.anchor_pos
          (omega arith) anchor_ne (omega arith) (omega (arith, taken.least)) (inl (refl, refl))
          (ap Link.flag_n_size start ∙ heap.anchor_size)
          (ap Link.flag_n_size (write-same p.mem a (link n 0))) (omega (arith, heap.below))
          heap.layout
          (Chain-at unmarked p.ppool_last _ (p.mem p.anchor).next bs bs (ap Link.next start) refl (
            Chain-write p.anchor p.ppool_last p.mem a n (link n 0) 1 (p.mem p.anchor).next bs
              (omega (arith, taken.least)) heap.layout taken.room heap.chain))
          taken.room in
      let chain = rw (release-released p.anchor a n bs anchor_ne) at (done.chain) in
      (
        after itor,
        pfree_run itor taken.marked (omega arith) found,
        record {
          chain = chain.2;
          layout =
              Layout-released p.anchor p.ppool_last a n 1 bs taken.clear taken.least small
                heap.layout taken.room;
          below = heap.below;
          anchor_size = chain.1;
          anchor_pos = heap.anchor_pos;
          counted = omega (arith, heap.counted, total-released a n bs, small);
        },
        omega (arith, heap.counted, small),
      )
