-- ===== src/Palloc/Runs.antt =====
-- Runs of the allocator, and its theorems at concrete inputs.
use sdkz.Common.{ℕ, ◌≡◌, refl, some, [], ◌∷◌, ◌==◌, if◌then◌else◌, arith, inl, inr, ◌+◌}
use sdkz.Palloc.{Pool, Run, ok, link, allocated, palloc, pfree, prealloc, ◌>>=◌}
use sdkz.Palloc.Chain.{Blocks, IsHeap}
use sdkz.Palloc.Allocate.{Answers, palloc-Answers}
use sdkz.Palloc.Pfree.{pfree-Releases}
use sdkz.Palloc.Reuse.{pfree-palloc}
use sdkz.Palloc.Grow.{prealloc-palloc}
use sdkz.Palloc.Init.{palloc_init}
use sdkz.Palloc.Extend.{palloc_init-behind}
use sdkz.Palloc.Stats.{palloc_stats, palloc_stats-IsHeap}

-- Two free blocks, of 40 and 96 bytes, and the last header at 400.
abbrev two_blocks : Pool
two_blocks = record {
  mem = λ q.
      if q == 8
      then link 0 100
      else if q == 100
      then link 40 200
      else if q == 200
      then link 96 400
      else link 0 0;
  anchor = 8;
  ppool_last = 400;
  pool_size = 200;
  free_size = 136;
  num_alloc = 0;
  num_free = 0;
}

abbrev blocks : Blocks
blocks = (100, 40) ∷ (200, 96) ∷ []

two_blocks-IsHeap : IsHeap two_blocks blocks
two_blocks-IsHeap = record {
  chain = (refl, refl, (refl, refl, (refl, refl, refl)));
  layout = (
    omega arith,
    omega arith,
    inl (omega arith),
    (omega arith, omega arith, inl (omega arith), (omega arith, omega arith)),
  );
  below = omega arith;
  anchor_size = refl;
  anchor_pos = omega arith;
  counted = refl;
}

abbrev pointer_of : Run (ℕ × Pool) → ℕ
pointer_of (ok (ptr, p)) = ptr
pointer_of _ = 0

abbrev free_of : Run Pool → ℕ
free_of (ok p) = p.free_size
free_of _ = 0

palloc_first : pointer_of (palloc 5 20 two_blocks) ≡ 108
unfolding palloc
palloc_first = refl

-- What was taken and is given back is free again, as one block.
palloc-pfree_all :
    pointer_of (palloc 5 40 two_blocks >>= λ (ptr, p). (pfree 5 ptr p >>= λ p. palloc 5 80 p)) ≡ 208
unfolding palloc pfree
palloc-pfree_all = refl

palloc-Answers_example : Answers two_blocks 48 blocks (some (200, 48)) (palloc 5 40 two_blocks)
palloc-Answers_example =
    palloc-Answers 5 40 two_blocks blocks two_blocks-IsHeap (omega arith) (omega arith)
      (omega arith)

-- The same pool with the block between the two allocated, 60 bytes at 140.
abbrev one_taken : Pool
one_taken = record two_blocks {
  mem = λ q. if q == 140 then link (60 + allocated) 0 else two_blocks.mem q;
}

one_taken-IsHeap : IsHeap one_taken blocks
one_taken-IsHeap = record {
  chain = (refl, refl, (refl, refl, (refl, refl, refl)));
  layout = two_blocks-IsHeap.layout;
  below = omega arith;
  anchor_size = refl;
  anchor_pos = omega arith;
  counted = refl;
}

-- It touches both, so that one block of 196 bytes is left.
pfree-Releases_example :
    (q : Pool) × (pfree 5 148 one_taken ≡ ok q) × IsHeap q ((100, 196) ∷ []) × (q.free_size ≡ 196)
pfree-Releases_example =
    pfree-Releases 5 140 60 one_taken blocks one_taken-IsHeap
      record {
        marked = refl;
        least = omega arith;
        clear = inl (omega arith);
        room = inr (omega arith, inl (omega arith, omega arith));
      }
      (omega arith) (omega arith)

pfree-palloc_example :
    (r : Pool) × ((palloc 5 40 two_blocks >>= λ (ptr, q). pfree 5 ptr q) ≡ ok r)
    × IsHeap r ((100, 40) ∷ (200, 96) ∷ [])
    × (r.free_size ≡ 136)
pfree-palloc_example =
    pfree-palloc 5 40 200 48 two_blocks blocks two_blocks-IsHeap (omega arith) (omega arith)
      (omega arith) (omega arith) refl

prealloc-palloc_example :
    (q : Pool) × (palloc 5 40 two_blocks ≡ ok (208, q)) × (prealloc 5 208 48 q ≡ ok (208, 0, q))
prealloc-palloc_example =
    prealloc-palloc 5 40 200 48 48 two_blocks blocks two_blocks-IsHeap (omega arith) (omega arith)
      (omega arith) refl (omega arith)

palloc_stats-IsHeap_example : palloc_stats 4 two_blocks ≡ ok (88, 32, 3, 136)
palloc_stats-IsHeap_example =
    palloc_stats-IsHeap 4 two_blocks blocks two_blocks-IsHeap (omega arith)

-- A second range, from 1000 to 1100.
palloc_init-behind_example :
    (q : Pool) × (palloc_init 4 1000 1100 two_blocks ≡ ok q)
    × IsHeap q ((100, 40) ∷ (200, 96) ∷ (400, 0) ∷ (1000, 92) ∷ [])
palloc_init-behind_example =
    palloc_init-behind 4 1000 1100 1000 1100 two_blocks blocks two_blocks-IsHeap (omega arith) refl
      refl (omega arith) (omega arith) (omega arith) (inl (omega arith)) (inl (omega arith))
