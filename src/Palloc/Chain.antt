-- ===== src/Palloc/Chain.antt =====
-- The free list as a list of blocks, an address and a size each: how memory holds it, how the
-- blocks lie, and what the allocator does to it in the abstract.
use Prim.Native.Nat.{max}
use sdkz.Common.{
  ℕ, ◌+◌, ◌-◌, ◌≤◌, ◌<◌, ◌≡◌, ◌≢◌, ◌⊎◌, Option, none, some, List, [], ◌∷◌, ltb, leb, if◌then◌else◌,
  arith,
}
use sdkz.Palloc.{Memory, Pool, allocated, word_mod}

abbrev pub Blocks : Type 0
Blocks = List (ℕ × ℕ)

-- From `p` the `next` pointers lead through the blocks to the last header, of size 0.
abbrev pub Chain : Memory → ℕ → ℕ → Blocks → Type 0
Chain mem last p [] = (p ≡ last) × ((mem last).flag_n_size ≡ 0) × ((mem last).next ≡ 0)
Chain mem last p ((a, s) ∷ bs) =
    (p ≡ a) × ((mem a).flag_n_size ≡ s) × Chain mem last (mem a).next bs

-- The end of a block; the headers that end a pool in front of another have size 0.
abbrev pub end_of : ℕ → ℕ → ℕ
end_of a s = max (a + s) (a + 8)

-- From `lo` on the blocks follow one another and do not overlap; the anchor is in none of them.
abbrev pub Layout : ℕ → ℕ → ℕ → Blocks → Type 0
Layout anchor last lo [] = (lo ≤ last) × (last ≢ anchor)
Layout anchor last lo ((a, s) ∷ bs) =
    (lo ≤ a)
    × (s < allocated)
    × ((anchor < a) ⊎ (end_of a s ≤ anchor))
    × Layout anchor last (end_of a s) bs

abbrev pub total : Blocks → ℕ
total [] = 0
total ((a, s) ∷ bs) = s + total bs

-- `blocks` are the free blocks, in the order of their addresses.
pub record IsHeap (p : Pool) (blocks : Blocks) : Type 0 where
  pub chain : Chain p.mem p.ppool_last (p.mem p.anchor).next blocks
  pub layout : Layout p.anchor p.ppool_last 1 blocks
  pub below : p.ppool_last + 8 ≤ word_mod
  pub anchor_size : (p.mem p.anchor).flag_n_size ≡ 0
  pub anchor_pos : 0 < p.anchor
  pub counted : p.free_size ≡ total blocks

-- What a request for `need` bytes takes from a block of `s`: all of it, unless more than two
-- headers are left over.
abbrev pub given : ℕ → ℕ → ℕ
given need s = if ltb 16 (s - need) then need else s

abbrev pub first_fit : ℕ → Blocks → Option (ℕ × ℕ)
first_fit need [] = none
first_fit need ((a, s) ∷ bs) = if leb need s then some (a, given need s) else first_fit need bs

abbrev pub remaining : ℕ → Blocks → Blocks
remaining need [] = []
remaining need ((a, s) ∷ bs) =
    if leb need s
    then (if ltb 16 (s - need) then (a + need, s - need) ∷ bs else bs)
    else (a, s) ∷ remaining need bs

module _ (anchor last : ℕ) where
  -- A write below a chain does not change it.
  pub Chain-frame :
      (mem mem' : Memory) (lo p : ℕ) (bs : Blocks)
      → Layout anchor last lo bs
      → ((q : ℕ) → lo ≤ q → q ≢ anchor → mem' q ≡ mem q)
      → Chain mem last p bs
      → Chain mem' last p bs
  Chain-frame mem mem' lo p [] (below, ne) same (e, size, next) =
      (e, rw (same last below ne) size, rw (same last below ne) next)
  Chain-frame mem mem' lo p ((a, s) ∷ bs) (below, small, out, rest) same (e, size, chain) =
      let here = same a below (omega arith) in
      (
        e,
        rw here size,
        rw here (
            Chain-frame mem mem' (end_of a s) (mem a).next bs rest
              (λ q above ne. same q (omega arith) ne) chain),
      )

  pub first-pos :
      (mem : Memory) (lo p : ℕ) (bs : Blocks)
      → 0 < lo
      → Layout anchor last lo bs
      → Chain mem last p bs
      → 0 < p
  first-pos mem lo p [] pos l c = omega arith
  first-pos mem lo p ((a, s) ∷ bs) pos l c = omega arith
