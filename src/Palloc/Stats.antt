-- ===== src/Palloc/Stats.antt =====
-- `palloc_stats`: a walk over the list of free blocks.
use Prim.Native.Nat.{max, min}
use sdkz.Common.{
  ℕ, zero, suc, ◌+◌, ◌-◌, ◌≤◌, ◌<◌, ◌≡◌, ap, ◌∙◌, ◌&&◌, [], ◌∷◌, ltb, ◌==◌, if◌then◌else◌, length,
  arith, ne→==_false,
}
use sdkz.Palloc.{Memory, Pool, Run, ok, out_of_fuel, word_mod, sizeof_link, sub32, ◌>>=◌}
use sdkz.Palloc.Chain.{Blocks, Chain, Layout, IsHeap, end_of, total}

-- The local variables of the walk. `links` counts headers, which are 8 bytes apart at least, so
-- that it does not wrap.
pub record Stats : Type 0 where
  pub links : ℕ
  pub largest : ℕ
  pub smallest : ℕ

abbrev count_link : Stats → ℕ → Stats
count_link s size = record {
  links = s.links + 1;
  largest = if ltb s.largest size then size else s.largest;
  smallest = if ltb 0 size && ltb size s.smallest then size else s.smallest;
}

unfoldable pub walk_links : ℕ → Memory → ℕ → Stats → Run Stats
walk_links zero mem itor s = out_of_fuel
walk_links (suc fuel) mem itor s =
    let rest = walk_links fuel mem (mem itor).next (count_link s (mem itor).flag_n_size) in
    if itor == 0 then ok s else rest

-- The three results through pointers, and what is returned.
abbrev pub answer_stats : Stats → ℕ → ℕ × ℕ × ℕ × ℕ
answer_stats s free_size = (
  sub32 s.largest sizeof_link,
  sub32 (if s.smallest == word_mod - 1 then 0 else s.smallest) sizeof_link,
  s.links,
  free_size,
)

unfoldable pub palloc_stats : ℕ → Pool → Run (ℕ × ℕ × ℕ × ℕ)
unfolding walk_links
palloc_stats fuel p =
    walk_links fuel p.mem (p.mem p.anchor).next
      (record { links = 0; largest = 0; smallest = word_mod - 1 })
    >>= λ s. ok (answer_stats s p.free_size)

abbrev pub largest_of : Blocks → ℕ
largest_of [] = 0
largest_of ((a, s) ∷ bs) = max s (largest_of bs)

-- The smallest size but 0, or `none_left` where there is none.
abbrev pub smallest_of : ℕ → Blocks → ℕ
smallest_of none_left [] = none_left
smallest_of none_left ((a, s) ∷ bs) =
    if s == 0 then smallest_of none_left bs else min s (smallest_of none_left bs)

count_largest : (a b : ℕ) → (if ltb a b then b else a) ≡ max a b
count_largest a b = ground arith

count_smallest :
    (none_left a s m : ℕ)
    → min (if ltb 0 s && ltb s a then s else a) m ≡ min a (if s == 0 then m else min s m)
count_smallest none_left a s m = ground arith

smaller_le : (n s a : ℕ) → a ≤ n → (if ltb 0 s && ltb s a then s else a) ≤ n
smaller_le n s a le = ground arith

abbrev stats : ℕ → ℕ → ℕ → Run Stats
stats a b c = ok (record { links = a; largest = b; smallest = c })

stats_cong : {a b c : ℕ} (a' b' c' : ℕ) → a ≡ a' → b ≡ b' → c ≡ c' → stats a b c ≡ stats a' b' c'
stats_cong a' b' c' p q r = rw (p, q, r)

module _ (anchor last : ℕ) (mem : Memory) (none_left : ℕ) where
  walked :
      (fuel lo p links largest smallest : ℕ) (bs : Blocks)
      → length bs + 1 < fuel
      → 0 < lo
      → smallest ≤ none_left
      → Layout anchor last lo bs
      → Chain mem last p bs
      → walk_links fuel mem p (record { links = links; largest = largest; smallest = smallest })
        ≡ ok (record {
          links = links + length bs + 1;
          largest = max largest (largest_of bs);
          smallest = min smallest (smallest_of none_left bs);
        })
  unfolding walk_links
  walked zero lo p links largest smallest bs enough pos le l c = absurd (omega arith)
  walked (suc zero) lo p links largest smallest bs enough pos le l c = absurd (omega arith)
  walked (suc (suc fuel)) lo p links largest smallest [] enough pos le (below, ne) (e, size, next) =
      rw (e, ne→==_false last 0 (omega arith), size, next)
        (stats_cong (links + 0 + 1) (max largest 0) (min smallest none_left) (omega arith)
          (ground arith) (ground arith))
  walked (suc (suc fuel)) lo p links largest smallest ((a, s) ∷ bs) enough pos le
        (below, small, out, rest) (e, size, chain) =
      let smaller = if ltb 0 s && ltb s smallest then s else smallest in
      rw (e, ne→==_false a 0 (omega arith), size)
        (walked (suc fuel) (end_of a s) (mem a).next (links + 1)
            (if ltb largest s then s else largest) smaller bs (omega arith) (omega arith)
            (smaller_le none_left s smallest le) rest chain
          ∙ stats_cong _ _ _ (omega arith) (rw (count_largest largest s) (omega arith))
              (count_smallest none_left smallest s (smallest_of none_left bs)))

smallest_of_le : (n : ℕ) (bs : Blocks) → smallest_of n bs ≤ n
smallest_of_le n [] = omega arith
smallest_of_le n ((a, s) ∷ bs) = ground (arith, smallest_of_le n bs)

-- On a free list that is in order, `palloc_stats` ends within two rounds more than there are
-- blocks, and gives the largest size and the smallest but 0, each less a header in a word, the
-- number of blocks with the last header, and the number of bytes in all blocks.
pub palloc_stats-IsHeap :
    (fuel : ℕ) (p : Pool) (bs : Blocks)
    → IsHeap p bs
    → length bs + 1 < fuel
    → let smallest = smallest_of (word_mod - 1) bs in
      palloc_stats fuel p
      ≡ ok (
        sub32 (largest_of bs) sizeof_link,
        sub32 (if smallest == word_mod - 1 then 0 else smallest) sizeof_link,
        length bs + 1,
        total bs,
      )
unfolding palloc_stats
palloc_stats-IsHeap fuel p bs heap enough =
    let none_left = word_mod - 1 in
    ap (λ r. r >>= λ s. ok (answer_stats s p.free_size))
      (walked p.anchor p.ppool_last p.mem none_left fuel 1 (p.mem p.anchor).next 0 0 none_left bs
          enough (omega arith) (omega arith) heap.layout heap.chain
        ∙ stats_cong (length bs + 1) (largest_of bs) (smallest_of none_left bs) (omega arith)
            (omega arith) (omega (arith, smallest_of_le none_left bs)))
    ∙ ap
        (λ n. ok (
          answer_stats
            (record {
              links = length bs + 1;
              largest = largest_of bs;
              smallest = smallest_of none_left bs;
            })
            n))
        heap.counted

-- With no free block but the headers that end the ranges, both sizes come out as 8 bytes less
-- than nothing, in a word.
palloc_stats-none_left :
    (fuel : ℕ) (p : Pool)
    → IsHeap p []
    → 1 < fuel
    → palloc_stats fuel p ≡ ok (4294967288, 4294967288, 1, 0)
palloc_stats-none_left fuel p heap enough = palloc_stats-IsHeap fuel p [] heap enough
