-- ===== src/Camera/Frames.antt =====
-- The frames that are shown.
use sdkz.Common.{
  twice, ℕ, zero, suc, ◌+◌, ◌≡◌, refl, ap, ◌∙◌, true, Option, none, some, List, [], ◌∷◌, ◌++◌,
}
use sdkz.Camera.{VideoConfig, Video, Frame, set_up, capture, capture_first, camera_main, add_frame}
use sdkz.Camera.Setup.{IsVideo, Goes, Paired, set_up-Paired}

-- The frames of so many pairs of rounds, of two buffers that come by turns.
abbrev pub by_turns : ℕ → ℕ → ℕ → List Frame
by_turns zero a b = []
by_turns (suc n) a b =
    record { dequeued = a; shown = a } ∷ record { dequeued = b; shown = a } ∷ by_turns n a b

module _ {W : Type 0} (video : Video W) (queue : W → List ℕ) (made : W → ℕ)
    (is_video : IsVideo video queue made) where
  -- A round with a buffer in the queue.
  capture_round :
      (n shown b : ℕ) (rest : List ℕ) (w : W)
      → queue w ≡ b ∷ rest
      → (w' : W) × (capture video (suc n) shown w
          ≡ add_frame (record { dequeued = b; shown = shown }) (capture video n shown w'))
        × (queue w' ≡ rest ++ (b ∷ []))
  unfolding capture
  capture_round n shown b rest w held =
      let (ok, front, left) = is_video.dequeue_ok b rest w held in
      let w1 = (video.dequeue w).2 in
      let w2 = video.draw shown w1 in
      (
        (video.enqueue b w2).1,
        rw (capture, ok, front, is_video.enqueue_ok b w2) refl,
        is_video.enqueue_queue b w2 ∙ ap (λ q. q ++ (b ∷ [])) (is_video.draw_queue shown w1 ∙ left),
      )

  capture-by_turns :
      (n a b : ℕ) (w : W)
      → queue w ≡ a ∷ b ∷ []
      → (w' : W) × (capture video (twice n) a w ≡ (by_turns n a b, true, w'))
        × (queue w' ≡ a ∷ b ∷ [])
  unfolding capture
  capture-by_turns zero a b w held = (w, refl, held)
  capture-by_turns (suc n) a b w held =
      let (w1, first, held1) = capture_round (suc (twice n)) a a (b ∷ []) w held in
      let (w2, second, held2) = capture_round (twice n) a b (a ∷ []) w1 held1 in
      let (w', later, held') = capture-by_turns n a b w2 held2 in
      (w', first ∙ ap (add_frame _) (second ∙ ap (add_frame _) later), held')

  capture_first-Paired :
      (n : ℕ) (r : Option (List ℕ) × W)
      → Goes (Paired video queue made is_video) r
      → (a : ℕ) × (w' : W) × (capture_first video n r ≡ capture video n a w')
        × (queue w' ≡ a ∷ (a + 1) ∷ [])
  capture_first-Paired n (none, w) q = absurd q
  capture_first-Paired n (some buffers, w) (a, same, held) = (a, w, rw same refl, held)

  -- With a driver that works, after any even number of frames `_main` still runs, and both buffers
  -- are the driver's again; but the screen shows the first buffer in each round, so that in every
  -- second one it shows the buffer that the driver fills, in place of the frame that came.
  pub camera_main-by_turns :
      (config : VideoConfig) (n : ℕ) (w : W)
      → queue w ≡ []
      → (a : ℕ) × (w' : W) × (camera_main video config (twice n) w
          ≡ (by_turns n a (a + 1), true, w'))
        × (queue w' ≡ a ∷ (a + 1) ∷ [])
  unfolding camera_main
  camera_main-by_turns config n w empty =
      let (a, w1, here, held) =
        capture_first-Paired (twice n) (set_up video config w)
          (set_up-Paired video queue made is_video config w empty) in
      let (w', frames, held') = capture-by_turns n a (a + 1) w1 held in
      (a, w', here ∙ frames, held')
