-- ===== src/Palloc/Insert.antt =====
-- `_insert_link` puts a block where the list of free blocks has room for it.
use sdkz.Common.{
  ℕ, ◌+◌, ◌≤◌, ◌<◌, ◌≡◌, ◌≢◌, ◌⊎◌, refl, ap, ◌∙◌, inl, inr, true, false, [], ◌∷◌, ◌==◌, Bool-cases,
  arith, ne→==_false, ==-refl,
}
use sdkz.Palloc.{Memory, Link, link, word_mod, insert_at, write}
use sdkz.Palloc.Chain.{Blocks, Chain, Layout, end_of, Chain-frame}
use sdkz.Palloc.Fits.{total-Layout}
use sdkz.Palloc.Release.{join_to, HasRoom, insert_gap, insert_behind, insert_before, insert_both}

Chain-via :
    (mem mem' : Memory) (last p : ℕ) (bs : Blocks)
    → ((q : ℕ) → mem' q ≡ mem q)
    → Chain mem last p bs
    → Chain mem' last p bs
Chain-via mem mem' last p [] same (e, size, next) = (e, rw (same last) size, rw (same last) next)
Chain-via mem mem' last p ((a, s) ∷ bs) same (e, size, chain) =
    (e, rw (same a) size, rw (same a) (Chain-via mem mem' last (mem a).next bs same chain))

Chain-step :
    (mem : Memory) (last u t x : ℕ) (bs : Blocks)
    → mem u ≡ link t x
    → Chain mem last x bs
    → Chain mem last u ((u, t) ∷ bs)
Chain-step mem last u t x bs e chain = (refl, ap Link.flag_n_size e, rw e chain)

pub record Inserted (anchor last : ℕ) (mem mem' : Memory) (u lo : ℕ) (result : Blocks)
    : Type 0 where
  pub chain : Chain mem' last u result
  pub frame : (q : ℕ) → q ≢ u → (q < lo) ⊎ (q ≡ anchor) → mem' q ≡ mem q

-- The block before the place ends below it, or is the anchor.
abbrev pub Before : ℕ → ℕ → ℕ → ℕ → Type 0
Before anchor lo u t = ((u ≡ anchor) × (t ≡ 0)) ⊎ (end_of u t ≤ lo)

pub write-same : (mem : Memory) (a : ℕ) (l : Link) → write mem a l a ≡ l
write-same mem a l = rw (==-refl a)

pub write-other : (mem : Memory) (a : ℕ) (l : Link) (q : ℕ) → q ≢ a → write mem a l q ≡ mem q
write-other mem a l q ne = rw (ne→==_false q a ne)

module _ (anchor last : ℕ) (mem : Memory) (u t a n lo : ℕ) where
  -- The two shapes that memory takes.
  put_apart :
      (mem' : Memory) (m w lo' : ℕ) (bs : Blocks)
      → ((q : ℕ) → mem' q ≡ write (write mem a (link m w)) u (link t a) q)
      → u ≢ a
      → a ≢ anchor
      → (u ≡ anchor) ⊎ (u < lo')
      → a < lo'
      → lo ≤ a
      → Layout anchor last lo' bs
      → Chain mem last w bs
      → Inserted anchor last mem mem' u lo ((u, t) ∷ ((a, m) ∷ bs))
  put_apart mem' m w lo' bs same ne ne_anchor before above low layout chain = record {
    chain =
        Chain-step mem' last u t a ((a, m) ∷ bs)
          (same u ∙ write-same (write mem a (link m w)) u (link t a))
          (Chain-step mem' last a m w bs
            (same a
              ∙ write-other (write mem a (link m w)) u (link t a) a (omega arith)
              ∙ write-same mem a (link m w))
            (Chain-frame anchor last mem mem' lo' w bs layout
              (λ q h out.
                same q
                ∙ write-other (write mem a (link m w)) u (link t a) q (omega arith)
                ∙ write-other mem a (link m w) q (omega arith))
              chain));
    frame = λ q out h.
        same q
        ∙ write-other (write mem a (link m w)) u (link t a) q out
        ∙ write-other mem a (link m w) q (omega arith);
  }

  put_joined :
      (mem' : Memory) (m w lo' : ℕ) (bs : Blocks)
      → ((q : ℕ) → mem' q ≡ write mem u (link m w) q)
      → (u ≡ anchor) ⊎ (u < lo')
      → Layout anchor last lo' bs
      → Chain mem last w bs
      → Inserted anchor last mem mem' u lo ((u, m) ∷ bs)
  put_joined mem' m w lo' bs same before layout chain = record {
    chain = Chain-step mem' last u m w bs (same u ∙ write-same mem u (link m w)) (
        Chain-frame anchor last mem mem' lo' w bs layout
          (λ q h out. same q ∙ write-other mem u (link m w) q (omega arith)) chain);
    frame = λ q out h. same q ∙ write-other mem u (link m w) q out;
  }

  pub insert_end :
      u ≢ a
      → a ≢ anchor
      → 0 < n
      → Before anchor lo u t
      → (mem u).flag_n_size ≡ t
      → (mem a).flag_n_size ≡ n
      → last < word_mod
      → Layout anchor last lo []
      → Chain mem last (mem u).next []
      → HasRoom last lo a n []
      → Inserted anchor last mem (insert_at last mem u a) u lo (join_to u t a n [])
  insert_end ne ne_anchor some_bytes before size new top layout (at, last_size, last_next)
        (low, high) =
      elim (Bool-cases (u + t == a)) [
        | inl touch ↦ rw touch (
            put_joined (insert_at last mem u a) (t + n) last last []
              (insert_before last mem u a ne t n last size at new (ground arith) (omega arith)
                (inr refl))
              (omega arith) (omega arith, layout.1) (refl, last_size, last_next))
        | inr apart ↦ rw apart (
            put_apart (insert_at last mem u a) n last last []
              (insert_gap last mem u a ne t n last size at new (omega arith) (ground arith)
                (inr refl))
              ne ne_anchor (omega arith) (omega arith) low (omega arith, layout.1)
              (refl, last_size, last_next))
      ]

  pub insert_middle :
      (b s : ℕ) (bs : Blocks)
      → u ≢ a
      → a ≢ anchor
      → 0 < n
      → lo ≤ a
      → a + n ≤ b
      → Before anchor lo u t
      → (mem u).flag_n_size ≡ t
      → (mem a).flag_n_size ≡ n
      → last < word_mod
      → Layout anchor last lo ((b, s) ∷ bs)
      → Chain mem last (mem u).next ((b, s) ∷ bs)
      → Inserted anchor last mem (insert_at last mem u a) u lo (join_to u t a n ((b, s) ∷ bs))
  insert_middle b s bs ne ne_anchor some_bytes low high before size new top
        (below, small, out, rest) (at, its, chain) =
      let top' = total-Layout anchor last (end_of b s) bs rest in
      elim (Bool-cases (u + t == a)) [
        | inl touch ↦ elim (Bool-cases (a + n == b)) [
          | inl touch' ↦
              let both : (u + (t + n) == b) ≡ true = ground arith in
              rw (touch, both)
                (put_joined (insert_at last mem u a) (t + n + s) (mem b).next (end_of b s) bs
                  (insert_both last mem u a ne t n b s size at new its (omega arith) (omega arith)
                    (ground arith) (ground arith) (omega arith))
                  (omega arith) rest chain)
          | inr gap ↦
              let one : (u + (t + n) == b) ≡ false = ground arith in
              rw (touch, one)
                (put_joined (insert_at last mem u a) (t + n) b b ((b, s) ∷ bs)
                  (insert_before last mem u a ne t n b size at new (ground arith) (omega arith)
                    (inl (ground arith)))
                  (omega arith) (omega arith, small, out, rest) (refl, its, chain))
        ]
        | inr apart ↦ elim (Bool-cases (a + n == b)) [
          | inl touch' ↦
              rw (apart, touch')
                (put_apart (insert_at last mem u a) (n + s) (mem b).next (end_of b s) bs
                  (insert_behind last mem u a ne t n b s size at new its (omega arith)
                    (ground arith) (ground arith) (omega arith))
                  ne ne_anchor (omega arith) (omega arith) low rest chain)
          | inr gap ↦
              rw (apart, gap)
                (put_apart (insert_at last mem u a) n b b ((b, s) ∷ bs)
                  (insert_gap last mem u a ne t n b size at new (omega arith) (ground arith)
                    (inl (ground arith)))
                  ne ne_anchor (omega arith) (omega arith) low (omega arith, small, out, rest)
                  (refl, its, chain))
        ]
      ]
