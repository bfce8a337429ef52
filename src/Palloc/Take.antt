-- ===== src/Palloc/Take.antt =====
-- `palloc` takes the first block that fits.
use sdkz.Common.{
  ℕ, ◌+◌, ◌-◌, ◌≤◌, ◌<◌, ◌≡◌, ◌≢◌, ◌⊎◌, refl, ap, true, false, ◌∷◌, leb, ◌==◌, arith, le→ltb_false,
  lt→ltb, ne→==_false, ==-refl,
}
use sdkz.Palloc.{Memory, Link, Pool, link, allocated, word_mod, take_block, sub32}
use sdkz.Palloc.Chain.{Blocks, Chain, Layout, end_of, remaining, Chain-frame}

-- Memory after a block at `a` was taken by a call whose search began behind `prev`.
pub record Took (p : Pool) (need prev lo a n : ℕ) (bs : Blocks) (q : Pool) : Type 0 where
  pub chain : Chain q.mem p.ppool_last (q.mem prev).next (remaining need bs)
  pub kept : (q.mem prev).flag_n_size ≡ (p.mem prev).flag_n_size
  pub frame : (x : ℕ) → x ≢ prev → (x < lo) ⊎ (x ≡ p.anchor) → q.mem x ≡ p.mem x
  pub marked : q.mem a ≡ link (n + allocated) 0
  pub counted : q.free_size ≡ sub32 p.free_size n

pub sub32_lem : (a b : ℕ) → b ≤ a → a < word_mod → sub32 a b ≡ a - b
sub32_lem a b h small = omega arith

pub Chain-at :
    (mem : Memory) (last x y : ℕ) (bs cs : Blocks)
    → x ≡ y
    → bs ≡ cs
    → Chain mem last y cs
    → Chain mem last x bs
Chain-at mem last x y bs cs e f c = rw (e, f) c

module _ (p : Pool) (need : ℕ) where
  -- The block that is found, cut or whole.
  pub take_whole :
      (prev lo a s : ℕ) (bs : Blocks)
      → (prev ≡ p.anchor) ⊎ (prev < lo)
      → (p.mem prev).next ≡ a
      → (p.mem a).flag_n_size ≡ s
      → Layout p.anchor p.ppool_last lo ((a, s) ∷ bs)
      → Chain p.mem p.ppool_last (p.mem a).next bs
      → need ≤ s
      → s - need ≤ 16
      → Took p need prev lo a s ((a, s) ∷ bs) (take_block p need prev a).1
  unfolding take_block
  take_whole prev lo a s bs before at size (below, small, out, rest) chain enough tight =
      let fit : leb need s ≡ true = ground arith in
      let no_split = le→ltb_false 16 (s - need) tight in
      let left : sub32 (p.mem a).flag_n_size need ≡ s - need =
        rw size (sub32_lem s need enough (omega arith)) in
      let apart : (prev == a) ≡ false = ne→==_false prev a (omega arith) in
      let apart' : (a == prev) ≡ false = ne→==_false a prev (omega arith) in
      let unmarked : leb allocated s ≡ false = ground arith in
      record {
        chain =
            Chain-at (take_block p need prev a).1.mem p.ppool_last _ (p.mem a).next _ bs
              (rw (left, no_split, apart, ==-refl prev)) (rw (fit, no_split))
              (Chain-frame p.anchor p.ppool_last p.mem (take_block p need prev a).1.mem (end_of a s)
                (p.mem a).next bs rest
                (λ q above ne.
                  rw (
                    left,
                    no_split,
                    ne→==_false q a (omega arith),
                    ne→==_false q prev (omega arith),
                  ))
                chain);
        kept = rw (left, no_split, apart, ==-refl prev);
        frame = λ x ne below_lo.
            rw (left, no_split, ne→==_false x a (omega arith), ne→==_false x prev ne);
        marked = rw (left, no_split, ==-refl a, apart', size, unmarked);
        counted = rw (left, no_split, apart', size);
      }

  pub take_split :
      (prev lo a s : ℕ) (bs : Blocks)
      → (prev ≡ p.anchor) ⊎ (prev < lo)
      → (p.mem prev).next ≡ a
      → (p.mem a).flag_n_size ≡ s
      → Layout p.anchor p.ppool_last lo ((a, s) ∷ bs)
      → Chain p.mem p.ppool_last (p.mem a).next bs
      → 8 ≤ need
      → need ≤ s
      → 16 < s - need
      → Took p need prev lo a need ((a, s) ∷ bs) (take_block p need prev a).1
  unfolding take_block
  take_split prev lo a s bs before at size (below, small, out, rest) chain least enough loose =
      let fit : leb need s ≡ true = ground arith in
      let split = lt→ltb 16 (s - need) loose in
      let left : sub32 (p.mem a).flag_n_size need ≡ s - need =
        rw size (sub32_lem s need enough (omega arith)) in
      let apart : (prev == a) ≡ false = ne→==_false prev a (omega arith) in
      let apart' : (a == prev) ≡ false = ne→==_false a prev (omega arith) in
      let cut : (a == a + need) ≡ false = ne→==_false a (a + need) (omega arith) in
      let cut' : (a + need == a) ≡ false = ne→==_false (a + need) a (omega arith) in
      let behind : (prev == a + need) ≡ false = ne→==_false prev (a + need) (omega arith) in
      let behind' : (a + need == prev) ≡ false = ne→==_false (a + need) prev (omega arith) in
      let unmarked : leb allocated need ≡ false = ground arith in
      let after = (take_block p need prev a).1.mem in
      let here : after (a + need) ≡ link (s - need) (p.mem a).next =
        rw (left, split, apart, cut', behind', ==-refl prev, ==-refl (a + need)) in
      record {
        chain =
            Chain-at after p.ppool_last _ (a + need) _ ((a + need, s - need) ∷ bs)
              (rw (left, split, apart, ==-refl prev)) (rw (fit, split))
              (
                refl,
                ap Link.flag_n_size here,
                Chain-at after p.ppool_last _ (p.mem a).next bs bs (ap Link.next here) refl (
                    Chain-frame p.anchor p.ppool_last p.mem after (end_of a s) (p.mem a).next bs
                      rest
                      (λ q above ne. rw (
                        left,
                        split,
                        ne→==_false q a (omega arith),
                        ne→==_false q (a + need) (omega arith),
                        ne→==_false q prev (omega arith),
                      ))
                      chain),
              );
        kept = rw (left, split, apart, behind, ==-refl prev);
        frame = λ x ne below_lo. rw (
          left,
          split,
          ne→==_false x a (omega arith),
          ne→==_false x (a + need) (omega arith),
          ne→==_false x prev ne,
        );
        marked = rw (left, split, ==-refl a, apart', unmarked);
        counted = rw (left, split, ==-refl a, apart');
      }
