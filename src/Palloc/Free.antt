-- ===== src/Palloc/Free.antt =====
-- `pfree` as an operation on the list of free blocks.
use sdkz.Common.{
  ℕ, ◌+◌, ◌≤◌, ◌<◌, ◌≡◌, ◌≢◌, ◌⊎◌, refl, ap, ◌∙◌, inl, inr, [], ◌∷◌, ltb, ◌==◌, Bool-cases, arith,
  le→ltb_false, lt→ltb, ne→==_false,
}
use sdkz.Palloc.{Memory, Link, allocated, write}
use sdkz.Palloc.Chain.{Blocks, Chain, Layout, end_of, total, Chain-frame}
use sdkz.Palloc.Fits.{Layout-weaken}
use sdkz.Palloc.Release.{join, join_to, release, released, HasRoom}
use sdkz.Palloc.Insert.{write-other}

module _ (anchor last : ℕ) where
  Layout-join :
      (a n lo : ℕ) (bs : Blocks)
      → (anchor < a) ⊎ (end_of a n ≤ anchor)
      → 8 ≤ n
      → lo ≤ a
      → n + total bs < allocated
      → Layout anchor last (a + n) bs
      → Layout anchor last lo (join a n bs)
  Layout-join a n lo [] clear least low small layout = (
    low,
    omega arith,
    clear,
    Layout-weaken anchor last (a + n) (end_of a n) [] (omega arith) layout,
  )
  Layout-join a n lo ((b, s) ∷ bs) clear least low small (below, small', out, rest) =
      elim (Bool-cases (a + n == b)) [
        | inl touch ↦
            let e : a + n ≡ b = ground arith in
            rw touch (
              low,
              omega arith,
              omega arith,
              Layout-weaken anchor last (end_of b s) (end_of a (n + s)) bs (omega arith) rest,
            )
        | inr gap ↦ rw gap (low, omega arith, clear, (omega arith, small', out, rest))
      ]

  Layout-join_to :
      (u t a n lo : ℕ) (bs : Blocks)
      → (anchor < a) ⊎ (end_of a n ≤ anchor)
      → 8 ≤ n
      → lo ≤ u
      → end_of u t ≤ a
      → (anchor < u) ⊎ (end_of u t ≤ anchor)
      → t + n + total bs < allocated
      → Layout anchor last (a + n) bs
      → Layout anchor last lo (join_to u t a n bs)
  Layout-join_to u t a n lo bs clear least low under out small layout =
      elim (Bool-cases (u + t == a)) [
        | inl touch ↦
            let e : u + t ≡ a = ground arith in
            rw touch (
              Layout-join u (t + n) lo bs (omega arith) (omega arith) low (omega arith)
                (Layout-weaken anchor last (a + n) (u + (t + n)) bs (omega arith) layout))
        | inr apart ↦ rw apart (
          low,
          omega arith,
          out,
          Layout-join a n (end_of u t) bs clear least under (omega arith) layout,
        )
      ]

  Layout-release :
      (u t a n lo : ℕ) (bs : Blocks)
      → (anchor < a) ⊎ (end_of a n ≤ anchor)
      → 8 ≤ n
      → t + n + total bs < allocated
      → Layout anchor last lo ((u, t) ∷ bs)
      → HasRoom last (end_of u t) a n bs
      → Layout anchor last lo (release u t a n bs)
  Layout-release u t a n lo [] clear least small (low, small', out, rest) room =
      Layout-join_to u t a n lo [] clear least low room.0 out small (room.1, rest.1)
  Layout-release u t a n lo ((b, s) ∷ bs) clear least small
        (low, small', out, (below, size, apart, rest)) (inl (from, high)) =
      rw (le→ltb_false b a (omega arith)) (
        Layout-join_to u t a n lo ((b, s) ∷ bs) clear least low from out small
          (high, size, apart, rest))
  Layout-release u t a n lo ((b, s) ∷ bs) clear least small (low, small', out, rest)
        (inr (under, room)) =
      rw (lt→ltb b a under) (
        low,
        small',
        out,
        Layout-release b s a n (end_of u t) bs clear least (omega arith) rest room,
      )

  pub Layout-released :
      (a n lo : ℕ) (bs : Blocks)
      → (anchor < a) ⊎ (end_of a n ≤ anchor)
      → 8 ≤ n
      → n + total bs < allocated
      → Layout anchor last lo bs
      → HasRoom last lo a n bs
      → Layout anchor last lo (released a n bs)
  Layout-released a n lo [] clear least small layout room =
      (room.0, omega arith, clear, (omega (arith, room.1), layout.1))
  Layout-released a n lo ((b, s) ∷ bs) clear least small (low, size, apart, rest)
        (inl (from, high)) =
      rw (le→ltb_false b a (omega arith))
        (Layout-join a n lo ((b, s) ∷ bs) clear least from small (high, size, apart, rest))
  Layout-released a n lo ((b, s) ∷ bs) clear least small (low, small', out, rest)
        (inr (under, room)) =
      rw (lt→ltb b a under)
        (Layout-release b s a n lo bs clear least (omega arith) (low, small', out, rest) room)

pub release-released :
    (u a n : ℕ) (bs : Blocks) → u ≢ a → release u 0 a n bs ≡ (u, 0) ∷ released a n bs
release-released u a n [] ne = rw (ne→==_false (u + 0) a (omega arith))
release-released u a n ((b, s) ∷ bs) ne = elim (Bool-cases (ltb b a)) [
  | inl under ↦ rw under
  | inr above ↦ rw (above, ne→==_false (u + 0) a (omega arith))
]

pub total-join : (a n : ℕ) (bs : Blocks) → total (join a n bs) ≡ n + total bs
total-join a n [] = refl
total-join a n ((b, s) ∷ bs) = elim (Bool-cases (a + n == b)) [
  | inl touch ↦ rw touch (omega arith)
  | inr gap ↦ rw gap (omega arith)
]

total-join_to : (u t a n : ℕ) (bs : Blocks) → total (join_to u t a n bs) ≡ t + n + total bs
total-join_to u t a n bs = elim (Bool-cases (u + t == a)) [
  | inl touch ↦ rw touch (total-join u (t + n) bs)
  | inr apart ↦ rw apart (omega (arith, total-join a n bs))
]

pub total-release : (u t a n : ℕ) (bs : Blocks) → total (release u t a n bs) ≡ t + n + total bs
total-release u t a n [] = total-join_to u t a n []
total-release u t a n ((b, s) ∷ bs) = elim (Bool-cases (ltb b a)) [
  | inl under ↦ rw under (omega (arith, total-release b s a n bs))
  | inr above ↦ rw above (total-join_to u t a n ((b, s) ∷ bs))
]

-- Writing a block that is not in the list does not change it.
pub Chain-write :
    (anchor last : ℕ) (mem : Memory) (a n : ℕ) (l : Link) (lo p : ℕ) (bs : Blocks)
    → 0 < n
    → Layout anchor last lo bs
    → HasRoom last lo a n bs
    → Chain mem last p bs
    → Chain (write mem a l) last p bs
Chain-write anchor last mem a n l lo p [] some_bytes layout room chain =
    Chain-frame anchor last mem (write mem a l) last p [] (omega arith, layout.1)
      (λ q h ne. write-other mem a l q (omega (arith, room.1))) chain
Chain-write anchor last mem a n l lo p ((b, s) ∷ bs) some_bytes (below, small, out, rest)
      (inl (from, high)) chain =
    Chain-frame anchor last mem (write mem a l) b p ((b, s) ∷ bs) (omega arith, small, out, rest)
      (λ q h ne. write-other mem a l q (omega arith)) chain
Chain-write anchor last mem a n l lo p ((b, s) ∷ bs) some_bytes (below, small, out, rest)
      (inr (under, room)) (at, size, chain) =
    let same = write-other mem a l b (omega arith) in
    (
      at,
      ap Link.flag_n_size same ∙ size,
      rw same (
          Chain-write anchor last mem a n l (end_of b s) (mem b).next bs some_bytes rest room
            chain),
    )
