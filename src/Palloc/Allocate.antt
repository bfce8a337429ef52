-- ===== src/Palloc/Allocate.antt =====
-- `palloc` as an operation on the list of free blocks.
use sdkz.Common.{
  ℕ, ◌+◌, ◌%◌, ◌≤◌, ◌<◌, ◌≡◌, ◌⊎◌, refl, ◌∙◌, inl, inr, true, false, Option, none, some, ltb, leb,
  ◌==◌, if◌then◌else◌, Bool-cases, Option-cases, arith, length, le→ltb_false, ne→==_false, ==-refl,
}
use sdkz.Palloc.{
  Pool, link, allocated, word_mod, find_block, take_block, palloc, ok, Run, aligned_value,
}
use sdkz.Palloc.Chain.{Blocks, IsHeap, first_fit, remaining, first-pos}
use sdkz.Palloc.Take.{Took}
use sdkz.Palloc.Search.{find_takes, find_none}
use sdkz.Palloc.Fits.{Layout-remaining, needed, total-Layout, Fits, fits_lem}

-- What `palloc` returns for the block that the list gives.
abbrev pub Answers : Pool → ℕ → Blocks → Option (ℕ × ℕ) → Run (ℕ × Pool) → Type 0
Answers p need bs none result = result ≡ ok (0, p)
Answers p need bs (some (a, n)) result =
    (q : Pool) × (result ≡ ok (a + 8, q))
    × IsHeap q (remaining need bs)
    × (q.mem a ≡ link (n + allocated) 0)
    × (q.free_size + n ≡ p.free_size)
    × (q.anchor ≡ p.anchor)
    × (q.ppool_last ≡ p.ppool_last)

take_IsHeap :
    (p : Pool) (need before a n : ℕ) (bs : Blocks)
    → IsHeap p bs
    → 8 ≤ need
    → Fits need bs n
    → Took p need p.anchor 1 a n bs (take_block p need before a).1
    → IsHeap (take_block p need before a).1 (remaining need bs)
unfolding take_block
take_IsHeap p need before a n bs heap least fits took = record {
  chain = took.chain;
  layout = Layout-remaining p.anchor p.ppool_last 1 need bs least heap.layout;
  below = heap.below;
  anchor_size = took.kept ∙ heap.anchor_size;
  anchor_pos = heap.anchor_pos;
  counted =
      took.counted
      ∙ omega (arith, fits.counts, total-Layout p.anchor p.ppool_last 1 bs heap.layout);
}

aligned_lem :
    (request : ℕ)
    → request + 11 < word_mod
    → aligned_value ((request + 8) % word_mod) ≡ needed request
aligned_lem request small = omega arith

module _ (fuel request : ℕ) (p : Pool) (bs : Blocks) where
  -- The call behind its tests.
  palloc_search :
      0 < (p.mem p.anchor).next
      → 0 < request
      → request + 11 < word_mod
      → needed request < allocated
      → needed request ≤ p.free_size
      → (before a : ℕ)
      → find_block fuel p.mem (needed request) p.anchor (p.mem p.anchor).next ≡ ok (before, a)
      → palloc fuel request p
        ≡ (if a == p.ppool_last then ok (0, p) else ok (take_block p (needed request) before a))
  unfolding palloc
  palloc_search start some_bytes small unmarked free before a found =
      let unflagged : leb allocated (needed request) ≡ false = ground arith in
      rw (
        ne→==_false (p.mem p.anchor).next 0 (omega arith),
        ne→==_false request 0 (omega arith),
        aligned_lem request small,
        unflagged,
        le→ltb_false p.free_size (needed request) free,
        found,
      )

  palloc_refused :
      0 < (p.mem p.anchor).next
      → 0 < request
      → request + 11 < word_mod
      → (allocated ≤ needed request) ⊎ (p.free_size < needed request)
      → palloc fuel request p ≡ ok (0, p)
  unfolding palloc
  palloc_refused start some_bytes small why = elim (Bool-cases (leb allocated (needed request))) [
    | inl flagged ↦ rw (
      ne→==_false (p.mem p.anchor).next 0 (omega arith),
      ne→==_false request 0 (omega arith),
      aligned_lem request small,
      flagged,
    )
    | inr unflagged ↦
        let much : ltb p.free_size (needed request) ≡ true = ground arith in
        rw (
          ne→==_false (p.mem p.anchor).next 0 (omega arith),
          ne→==_false request 0 (omega arith),
          aligned_lem request small,
          unflagged,
          much,
        )
  ]

  pub palloc_full :
      IsHeap p bs
      → 0 < request
      → request + 11 < word_mod
      → length bs < fuel
      → first_fit (needed request) bs ≡ none
      → palloc fuel request p ≡ ok (0, p)
  palloc_full heap some_bytes small fuelled fits =
      let start =
        first-pos p.anchor p.ppool_last p.mem 1 (p.mem p.anchor).next bs (omega arith) heap.layout
          heap.chain in
      elim (Bool-cases (leb allocated (needed request))) [
        | inl flagged ↦ palloc_refused start some_bytes small (inl (ground arith))
        | inr unflagged ↦ elim (Bool-cases (ltb p.free_size (needed request))) [
          | inl much ↦ palloc_refused start some_bytes small (inr (ground arith))
          | inr free ↦
              let (before, e) =
                find_none p (needed request) fuel p.anchor 1 bs fuelled (omega arith) heap.layout
                  heap.chain fits in
              palloc_search start some_bytes small (ground arith) (ground arith) before p.ppool_last
                e
              ∙ rw (==-refl p.ppool_last)
        ]
      ]

  pub palloc_taken :
      (a n : ℕ)
      → IsHeap p bs
      → 0 < request
      → request + 11 < word_mod
      → length bs < fuel
      → first_fit (needed request) bs ≡ some (a, n)
      → Answers p (needed request) bs (some (a, n)) (palloc fuel request p)
  unfolding take_block
  palloc_taken a n heap some_bytes small fuelled fits =
      let need = needed request in
      let start =
        first-pos p.anchor p.ppool_last p.mem 1 (p.mem p.anchor).next bs (omega arith) heap.layout
          heap.chain in
      let facts = fits_lem p.anchor p.ppool_last 1 need a n bs heap.layout fits in
      let (before, e, at, below, took) =
        find_takes p need fuel p.anchor 1 a n bs fuelled (inl refl) (omega arith) (omega arith)
          heap.layout heap.chain fits in
      (
        (take_block p need before a).1,
        palloc_search start some_bytes small (omega (arith, facts.least, facts.small))
              (omega (arith, facts.least, facts.within, heap.counted)) before a e
            ∙ rw (ne→==_false a p.ppool_last (omega arith), at),
        take_IsHeap p need before a n bs heap (omega arith) facts took,
        took.marked,
        omega (
          arith,
          took.counted,
          heap.counted,
          facts.within,
          total-Layout p.anchor p.ppool_last 1 bs heap.layout,
          heap.below,
        ),
        refl,
        refl,
      )

  -- On a free list that is in order, with a header to count on top of a request that does not
  -- wrap: `palloc` returns the first block that is large enough, behind its header, which is
  -- marked as allocated with the size it was given; the list is left without it, in order, and
  -- the count of free bytes goes down by that size. NULL, and nothing changed, means that no
  -- block is large enough. The ends of the pool stay as they are.
  pub palloc-Answers :
      IsHeap p bs
      → 0 < request
      → request + 11 < word_mod
      → length bs < fuel
      → Answers p (needed request) bs (first_fit (needed request) bs) (palloc fuel request p)
  palloc-Answers heap some_bytes small fuelled =
      elim (Option-cases (first_fit (needed request) bs)) [
        | inl full ↦ rw full (palloc_full heap some_bytes small fuelled full)
        | inr ((a, n), fits) ↦ rw fits (palloc_taken a n heap some_bytes small fuelled fits)
      ]
