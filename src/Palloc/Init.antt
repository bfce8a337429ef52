-- ===== src/Palloc/Init.antt =====
-- `palloc_init` and `_set_block`: a range of memory becomes free.
use sdkz.Common.{
  ℕ, zero, suc, ◌+◌, ◌-◌, ◌*◌, ◌%◌, ◌≤◌, ◌<◌, ◌≡◌, ◌⊎◌, refl, true, ◌||◌, not, [], ◌∷◌, ltb, ◌==◌,
  if◌then◌else◌, arith, lt→ltb, ne→==_false, ==-refl,
}
use sdkz.Palloc.{
  Memory, Pool, Run, ok, out_of_fuel, link, allocated, word_mod, sizeof_link, aligned_value, sub32,
  set_link, set_next, ◌>>=◌,
}
use sdkz.Palloc.Chain.{IsHeap}

-- The search: the first header from `start` on, NULL if there is none, and the last one below
-- `start` that does not end the list.
unfoldable pub find_pool : ℕ → Memory → ℕ → ℕ → ℕ → Run (ℕ × ℕ)
find_pool zero mem start prev next = out_of_fuel
find_pool (suc fuel) mem start prev next =
    let rest =
      find_pool fuel mem start (if (mem next).next == 0 then prev else next) (mem next).next in
    if next == 0 || not (ltb next start) then ok (prev, next) else rest

abbrev pub set_block : Memory → ℕ → ℕ → ℕ → ℕ → ℕ → Memory
set_block mem pstart pend size next plink =
    let linked = set_link (set_link mem pstart size pend) pend 0 next in
    if plink == 0 then linked else set_next linked plink pstart

-- A range behind all headers, with the header that ends it as the new last one.
abbrev pub add_behind : Pool → ℕ → ℕ → Pool
add_behind p start block_size =
    let last = sub32 (start + block_size) sizeof_link in
    let mem = set_block p.mem start last (block_size - sizeof_link) 0 p.ppool_last in
    record p {
      mem = if (mem p.anchor).next == 0 then set_link mem p.anchor 0 start else mem;
      ppool_last = last;
    }

abbrev pub add_before : Pool → ℕ → ℕ → ℕ → ℕ → Pool
add_before p start block_size prev next = record p {
  mem =
      set_block p.mem start (sub32 (start + block_size) sizeof_link) (block_size - sizeof_link) next
        prev;
}

abbrev pub count_pool : Pool → ℕ → ℕ → Pool
count_pool p start block_size = record p {
  free_size = (p.free_size + (p.mem start).flag_n_size) % word_mod;
  pool_size = (p.pool_size + block_size) % word_mod;
}

unfoldable pub palloc_init : ℕ → ℕ → ℕ → Pool → Run Pool
unfolding find_pool
palloc_init fuel pstart pend p =
    let start = aligned_value pstart in
    let block_size = sub32 (aligned_value pend) start in
    if not (ltb (sizeof_link * 2) block_size)
    then ok p
    else (find_pool fuel p.mem start p.anchor (p.mem p.anchor).next >>= λ (prev, next).
        if next == 0
        then ok (count_pool (add_behind p start block_size) start block_size)
        else if ltb start next
        then ok (count_pool (add_before p start block_size prev next) start block_size)
        else ok p)

module _ (fuel pstart pend start end : ℕ) (p : Pool) where
  -- The first range that is given to the allocator, of more than two headers and up to half the
  -- memory: the list of free blocks is in order, and is one block that ends in front of the last
  -- header.
  pub palloc_init-IsHeap :
      p.mem p.anchor ≡ link 0 0
      → p.ppool_last ≡ 0
      → p.free_size ≡ 0
      → 0 < p.anchor
      → aligned_value pstart ≡ start
      → aligned_value pend ≡ end
      → 0 < start
      → start + 16 < end
      → end < start + allocated
      → (p.anchor < start) ⊎ (end ≤ p.anchor)
      → (q : Pool) × (palloc_init (suc fuel) pstart pend p ≡ ok q)
        × IsHeap q ((start, end - start - 8) ∷ [])
  unfolding palloc_init
  palloc_init-IsHeap empty no_last no_free anchor_pos from to pos large half clear =
      let top : end < word_mod = omega arith in
      let size : (end + word_mod - start) % word_mod ≡ end - start = omega arith in
      let enough : ltb 16 (end - start) ≡ true = lt→ltb 16 (end - start) (omega arith) in
      let last : (start + (end - start) + word_mod - 8) % word_mod ≡ end - 8 = omega arith in
      let s_a = ne→==_false start p.anchor (omega arith) in
      let a_s = ne→==_false p.anchor start (omega arith) in
      let l_a = ne→==_false (end - 8) p.anchor (omega arith) in
      let a_l = ne→==_false p.anchor (end - 8) (omega arith) in
      let s_l = ne→==_false start (end - 8) (omega arith) in
      (
        count_pool (add_behind p start (end - start)) start (end - start),
        simp (from, to, size, enough, empty) refl,
        record {
          chain =
              simp (no_last, last, s_a, a_s, l_a, a_l, s_l, empty, ==-refl)
                (refl, refl, (refl, refl, refl));
          layout = simp last (omega arith, omega arith, omega arith, (omega arith, omega arith));
          below = simp last (omega arith);
          anchor_size = simp (no_last, last, a_s, a_l, empty, ==-refl) refl;
          anchor_pos = anchor_pos;
          counted = simp (no_last, last, s_a, a_s, a_l, s_l, empty, no_free, ==-refl) (omega arith);
        },
      )
