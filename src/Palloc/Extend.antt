-- ===== src/Palloc/Extend.antt =====
-- `palloc_init` of a further range, behind those that the allocator has.
use sdkz.Common.{
  ℕ, ◌+◌, ◌-◌, ◌%◌, ◌≤◌, ◌<◌, ◌≡◌, ◌⊎◌, refl, ap, ◌∙◌, true, [], ◌∷◌, ◌++◌, length, ltb, arith,
  lt→ltb, ne→==_false,
}
use sdkz.Palloc.{Memory, Link, Pool, ok, link, allocated, word_mod, aligned_value}
use sdkz.Palloc.Chain.{IsHeap, Blocks, Chain, Layout, end_of, total, first-pos}
use sdkz.Palloc.Fits.{total-Layout}
use sdkz.Palloc.Init.{add_behind, count_pool, palloc_init}
use sdkz.Palloc.Behind.{find_pool-past, linked, linked-same, linked-joins, linked-new, linked-ends}

module _ (anchor last a n last' : ℕ) (mem mem' : Memory) where
  Chain-extend :
      (lo p : ℕ) (bs : Blocks)
      → ((q : ℕ) → q < last → mem' q ≡ mem q)
      → mem' last ≡ link 0 a
      → mem' a ≡ link n last'
      → mem' last' ≡ link 0 0
      → Layout anchor last lo bs
      → Chain mem last p bs
      → Chain mem' last' p (bs ++ ((last, 0) ∷ (a, n) ∷ []))
  Chain-extend lo p [] same joins new ends layout (at, size, next) = (
    at,
    ap Link.flag_n_size joins,
    (
      ap Link.next joins,
      ap Link.flag_n_size new,
      (ap Link.next new, ap Link.flag_n_size ends, ap Link.next ends),
    ),
  )
  Chain-extend lo p ((b, s) ∷ bs) same joins new ends (below, small, out, rest) (at, size, chain) =
      let fits = total-Layout anchor last (end_of b s) bs rest in
      let here = same b (omega arith) in
      (
        at,
        ap Link.flag_n_size here ∙ size,
        rw here (Chain-extend (end_of b s) (mem b).next bs same joins new ends rest chain),
      )

Layout-extend :
    (anchor last a n last' lo : ℕ) (bs : Blocks)
    → (anchor < last) ⊎ (last + 8 ≤ anchor)
    → (anchor < a) ⊎ (last' + 8 ≤ anchor)
    → last + 8 ≤ a
    → 8 ≤ n
    → n < allocated
    → a + n ≡ last'
    → Layout anchor last lo bs
    → Layout anchor last' lo (bs ++ ((last, 0) ∷ (a, n) ∷ []))
Layout-extend anchor last a n last' lo [] clear clear' above least small end layout = (
  layout.0,
  omega arith,
  omega arith,
  (omega arith, small, omega arith, (omega arith, omega arith)),
)
Layout-extend anchor last a n last' lo ((b, s) ∷ bs) clear clear' above least small end
      (below, small', out, rest) =
    (
      below,
      small',
      out,
      Layout-extend anchor last a n last' (end_of b s) bs clear clear' above least small end rest,
    )

total-append : (bs cs : Blocks) → total (bs ++ cs) ≡ total bs + total cs
total-append [] cs = omega arith
total-append ((a, s) ∷ bs) cs = omega (arith, total-append bs cs)

last_size :
    (mem : Memory) (last p : ℕ) (bs : Blocks) → Chain mem last p bs → (mem last).flag_n_size ≡ 0
last_size mem last p [] (at, size, next) = size
last_size mem last p ((a, s) ∷ bs) (at, size, chain) = last_size mem last (mem a).next bs chain

module _ (fuel pstart pend start end : ℕ) (p : Pool) (bs : Blocks) where
  -- A further range behind those that the allocator has, of more than two headers and up to half
  -- the memory: the list of free blocks is in order, and is what it was, then the header that was
  -- the last one, as a block of no bytes, and then the range.
  pub palloc_init-behind :
      IsHeap p bs
      → length bs + 1 < fuel
      → aligned_value pstart ≡ start
      → aligned_value pend ≡ end
      → p.ppool_last + 8 ≤ start
      → start + 16 < end
      → end < start + allocated
      → (p.anchor < p.ppool_last) ⊎ (p.ppool_last + 8 ≤ p.anchor)
      → (p.anchor < start) ⊎ (end ≤ p.anchor)
      → (q : Pool) × (palloc_init fuel pstart pend p ≡ ok q)
        × IsHeap q (bs ++ ((p.ppool_last, 0) ∷ (start, end - start - 8) ∷ []))
  unfolding palloc_init
  palloc_init-behind heap enough from to above large half clear clear' =
      let top : end < word_mod = omega arith in
      let size : (end + word_mod - start) % word_mod ≡ end - start = omega arith in
      let room : ltb 16 (end - start) ≡ true = lt→ltb 16 (end - start) (omega arith) in
      let behind : (start + (end - start) + word_mod - 8) % word_mod ≡ end - 8 = omega arith in
      let last = p.ppool_last in
      let n = end - start - 8 in
      let first =
        first-pos p.anchor p.ppool_last p.mem 1 (p.mem p.anchor).next bs (omega arith) heap.layout
          heap.chain in
      let fits = total-Layout p.anchor p.ppool_last 1 bs heap.layout in
      let (before, found) =
        find_pool-past p.anchor p.ppool_last p.mem start fuel p.anchor 1 (p.mem p.anchor).next bs
          enough (omega arith) (omega arith) heap.layout heap.chain in
      let pos : 0 < last = omega arith in
      let joins =
        linked-joins last start n (end - 8) p.mem pos (omega arith) (omega arith)
          (last_size p.mem last (p.mem p.anchor).next bs heap.chain) in
      let new = linked-new last start n (end - 8) p.mem pos (omega arith) (omega arith) in
      let ends = linked-ends last start n (end - 8) p.mem pos (omega arith) in
      let at =
        linked-same last start n (end - 8) p.mem p.anchor pos (omega arith) (omega arith)
          (omega arith) in
      let begun = ne→==_false (p.mem p.anchor).next 0 (omega arith) in
      let mem_eq : (add_behind p start (end - start)).mem ≡ linked last start n (end - 8) p.mem =
        rw (behind, at, begun) refl in
      let chain =
        Chain-extend p.anchor last start n (end - 8) p.mem (linked last start n (end - 8) p.mem) 1
          (p.mem p.anchor).next bs
          (λ q below.
            linked-same last start n (end - 8) p.mem q pos (omega arith) (omega arith)
              (omega arith))
          joins new ends heap.layout heap.chain in
      (
        count_pool (add_behind p start (end - start)) start (end - start),
        simp (from, to, size, room, found) refl,
        record {
          chain = rw (mem_eq, behind, at) chain;
          layout = rw behind (
              Layout-extend p.anchor last start n (end - 8) 1 bs clear (omega arith) above
                (omega arith) (omega arith) (omega arith) heap.layout);
          below = rw behind (omega arith);
          anchor_size = rw (mem_eq, at) heap.anchor_size;
          anchor_pos = heap.anchor_pos;
          counted =
              rw (mem_eq, new)
                (omega (arith, heap.counted, total-append bs ((last, 0) ∷ (start, n) ∷ [])));
        },
      )
