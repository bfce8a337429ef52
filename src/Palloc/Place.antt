-- ===== src/Palloc/Place.antt =====
-- Where a block that is given back stands between the free blocks.
use sdkz.Common.{
  ℕ, zero, suc, ◌≤◌, ◌<◌, ◌≡◌, ◌≢◌, refl, ap, ◌∙◌, inl, inr, [], ◌∷◌, arith, length, le→ltb_false,
  lt→ltb, ne→==_false,
}
use sdkz.Palloc.{Memory, Link, ok, word_mod, insert_at, find_place}
use sdkz.Palloc.Chain.{Blocks, Chain, Layout, end_of}
use sdkz.Palloc.Take.{Chain-at}
use sdkz.Palloc.Release.{release, HasRoom}
use sdkz.Palloc.Insert.{Inserted, Before, insert_end, insert_middle}

module _ (anchor last : ℕ) (mem : Memory) (a n : ℕ) where
  abbrev pub Placed : ℕ → ℕ → ℕ → ℕ → Blocks → Type 0
  Placed fuel u t lo bs =
      (itor : ℕ) × (find_place fuel mem a u ≡ ok itor)
      × Inserted anchor last mem (insert_at last mem itor a) u lo (release u t a n bs)

  place_stop :
      (fuel u w : ℕ) → 0 < u → (mem u).next ≡ w → a ≤ w → find_place (suc fuel) mem a u ≡ ok u
  unfolding find_place
  place_stop fuel u w pos at above = rw (ne→==_false u 0 (omega arith), at, le→ltb_false w a above)

  place_skip :
      (fuel u w : ℕ)
      → 0 < u
      → (mem u).next ≡ w
      → w < a
      → find_place (suc fuel) mem a u ≡ find_place fuel mem a w
  unfolding find_place
  place_skip fuel u w pos at below = rw (ne→==_false u 0 (omega arith), at, lt→ltb w a below)

  pub place :
      (fuel u t lo : ℕ) (bs : Blocks)
      → length bs < fuel
      → 0 < u
      → 0 < lo
      → u ≢ a
      → a ≢ anchor
      → 0 < n
      → Before anchor lo u t
      → (mem u).flag_n_size ≡ t
      → (mem a).flag_n_size ≡ n
      → last < word_mod
      → Layout anchor last lo bs
      → Chain mem last (mem u).next bs
      → HasRoom last lo a n bs
      → Placed fuel u t lo bs
  place zero u t lo bs fuelled pos pos' ne ne_anchor some_bytes before size new top layout chain
        room =
      absurd (omega arith)
  place (suc fuel) u t lo [] fuelled pos pos' ne ne_anchor some_bytes before size new top layout
        chain room =
      (
        u,
        place_stop fuel u last pos chain.0 (omega (arith, room.1)),
        insert_end anchor last mem u t a n lo ne ne_anchor some_bytes before size new top layout
            chain room,
      )
  place (suc fuel) u t lo ((b, s) ∷ bs) fuelled pos pos' ne ne_anchor some_bytes before size new top
        layout (at, its, chain) (inl (low, high)) =
      (
        u,
        place_stop fuel u b pos at (omega arith),
        rw (le→ltb_false b a (omega arith)) (
            insert_middle anchor last mem u t a n lo b s bs ne ne_anchor some_bytes low high before
              size new top layout (at, its, chain)),
      )
  place (suc fuel) u t lo ((b, s) ∷ bs) fuelled pos pos' ne ne_anchor some_bytes before size new top
        (below, small, out, rest) (at, its, chain) (inr (under, room)) =
      let (itor, e, done) =
        place fuel b s (end_of b s) bs (omega arith) (omega arith) (omega arith) (omega arith)
          ne_anchor some_bytes (inr (omega arith)) its new top rest chain room in
      let mem' = insert_at last mem itor a in
      let same = done.frame u (omega arith) (omega arith) in
      (
        itor,
        place_skip fuel u b pos at under ∙ e,
        rw (lt→ltb b a under) record {
          chain = (
            refl,
            ap Link.flag_n_size same ∙ size,
            Chain-at mem' last (mem' u).next b (release b s a n bs) (release b s a n bs)
                (ap Link.next same ∙ at) refl done.chain,
          );
          frame = λ q other h. done.frame q (omega arith) (omega arith);
        },
      )
