-- ===== src/Camera/Setup.antt =====
-- What the driver promises, and the buffers that it has behind the set-up.
use sdkz.Common.{
  ℕ, suc, ◌+◌, ◌≡◌, refl, sym, ap, ap₂, subst, ◌∙◌, Bool, true, false, not, ◌&&◌, ◌||◌, Option,
  none, some, List, [], ◌∷◌, ◌++◌, ◌==◌, if◌then◌else◌, Bool-cases, inl, inr,
}
use sdkz.Common.Int.{ℤ, pos, eq_ℤ}
use sdkz.Camera.{
  ◌>>◌, Rect, Format, Target, Control, VideoConfig, Video, Part, crop, compose, hflip, vflip,
  refused, crop_source, compose_format, read_crop, choose_format, alloc_all, on_part, wanted, guard,
  call, check, flips, set_up, pure, guard_enosys, ignore,
}

-- A driver that works: its calls succeed, it gives back its buffers in the order that it was given
-- them, and a buffer is the number of those allocated before it. What it does not have, a
-- selection or the blanking, it may answer with ENOSYS.
pub record IsVideo {W : Type 0} (video : Video W) (queue : W → List ℕ) (made : W → ℕ) : Type 0 where
  pub display_ready : video.display_ready ≡ true
  pub video_ready : video.video_ready ≡ true
  pub caps_ok : (w : W) → (video.get_caps w).0 ≡ pos 0
  pub format_ok : (w : W) → (video.get_format w).0 ≡ pos 0
  pub set_format_ok : (fmt : Format) (w : W) → (video.set_format fmt w).0 ≡ pos 0
  pub get_selection_ok :
      (t : Target) (r : Rect) (w : W) → refused (video.get_selection t r w).0 ≡ false
  pub crop_ok : (r : Rect) (w : W) → (video.set_selection crop r w).0 ≡ pos 0
  pub compose_ok : (r : Rect) (w : W) → refused (video.set_selection compose r w).0 ≡ false
  pub stream_ok : (w : W) → (video.stream_start w).0 ≡ pos 0
  pub blanking_ok : (w : W) → refused (video.blanking_off w).0 ≡ false
  pub alloc_ok : (size : ℕ) (w : W) → (video.buffer_alloc size w).0 ≡ some (made w)
  pub enqueue_ok : (b : ℕ) (w : W) → (video.enqueue b w).0 ≡ pos 0
  pub dequeue_ok :
      (b : ℕ) (rest : List ℕ) (w : W)
      → queue w ≡ b ∷ rest
      → ((video.dequeue w).0 ≡ pos 0)
        × ((video.dequeue w).1 ≡ b)
        × (queue (video.dequeue w).2 ≡ rest)
  pub alloc_made : (size : ℕ) (w : W) → made (video.buffer_alloc size w).1 ≡ made w + 1
  pub enqueue_made : (b : ℕ) (w : W) → made (video.enqueue b w).1 ≡ made w
  pub caps_queue : (w : W) → queue (video.get_caps w).1 ≡ queue w
  pub format_queue : (w : W) → queue (video.get_format w).2 ≡ queue w
  pub set_format_queue : (fmt : Format) (w : W) → queue (video.set_format fmt w).2 ≡ queue w
  pub get_selection_queue :
      (t : Target) (r : Rect) (w : W) → queue (video.get_selection t r w).2 ≡ queue w
  pub set_selection_queue :
      (t : Target) (r : Rect) (w : W) → queue (video.set_selection t r w).1 ≡ queue w
  pub alloc_queue : (size : ℕ) (w : W) → queue (video.buffer_alloc size w).1 ≡ queue w
  pub enqueue_queue : (b : ℕ) (w : W) → queue (video.enqueue b w).1 ≡ queue w ++ (b ∷ [])
  pub ctrl_queue : (c : Control) (v : ℕ) (w : W) → queue (video.set_ctrl c v w).1 ≡ queue w
  pub stream_queue : (w : W) → queue (video.stream_start w).1 ≡ queue w
  pub blanking_queue : (w : W) → queue (video.blanking_off w).1 ≡ queue w
  pub draw_queue : (b : ℕ) (w : W) → queue (video.draw b w) ≡ queue w

-- A part that goes on, with a value and a state that `Q` holds of.
abbrev pub Goes : {A W : Type 0} → (A → W → Type 0) → Option A × W → Type 0
Goes Q (none, w) = ⊥
Goes Q (some a, w) = Q a w

on_part-Goes :
    {A B W : Type 0} (Q : A → W → Type 0) (R : B → W → Type 0) (f : A → Part B W) (r : Option A × W)
    → Goes Q r
    → ((a : A) (w : W) → Q a w → Goes R (f a w))
    → Goes R (on_part f r)
on_part-Goes Q R f (none, w) q k = absurd q
on_part-Goes Q R f (some a, w) q k = k a w q

module _ {W : Type 0} (video : Video W) (queue : W → List ℕ) (made : W → ℕ)
    (is_video : IsVideo video queue made) where
  -- The queue is as it was.
  abbrev pub Queued : {A : Type 0} → List ℕ → A → W → Type 0
  Queued q a w = queue w ≡ q

  guard-Queued :
      (f : W → ℤ × W) (q : List ℕ) (w : W)
      → (f w).0 ≡ pos 0
      → queue (f w).1 ≡ queue w
      → queue w ≡ q
      → Goes (Queued q) (guard f w)
  guard-Queued f q w ok kept held = rw ok (kept ∙ held)

  guard_enosys-Queued :
      (f : W → ℤ × W) (q : List ℕ) (w : W)
      → refused (f w).0 ≡ false
      → queue (f w).1 ≡ queue w
      → queue w ≡ q
      → Goes (Queued q) (guard_enosys f w)
  guard_enosys-Queued f q w ok kept held = rw ok (kept ∙ held)

  call-Queued :
      {A : Type 0} (f : W → ℤ × A × W) (q : List ℕ) (w : W)
      → (f w).0 ≡ pos 0
      → queue (f w).2 ≡ queue w
      → queue w ≡ q
      → Goes (Queued q) (call f w)
  call-Queued f q w ok kept held = rw ok (kept ∙ held)

  crop_source-Queued :
      (config : VideoConfig) (q : List ℕ) (w : W)
      → queue w ≡ q
      → Goes (Queued q) (crop_source video config w)
  crop_source-Queued config q w held =
      let r = config.source_crop in
      elim (Bool-cases (not (r.width == 0) && not (r.height == 0))) [
        | inl given ↦ rw given (
            on_part-Goes (Queued q) (Queued q) (λ _. pure r) _
              (guard-Queued (video.set_selection crop r) q w (is_video.crop_ok r w)
                (is_video.set_selection_queue crop r w) held)
              (λ a w held. held))
        | inr none_given ↦ rw none_given held
      ]

  read_crop-Queued :
      (config : VideoConfig) (r : Rect) (q : List ℕ) (w : W)
      → queue w ≡ q
      → Goes (Queued q) (read_crop video config r w)
  read_crop-Queued config r q w held =
      rw (is_video.get_selection_ok crop r w) (is_video.get_selection_queue crop r w ∙ held)

  compose_format-Queued :
      (config : VideoConfig) (fmt : Format) (selected : ℤ × Rect) (q : List ℕ) (w : W)
      → queue w ≡ q
      → Goes (Queued q) (compose_format video config fmt selected w)
  compose_format-Queued config fmt (err, r) q w held =
      elim (Bool-cases
        (eq_ℤ err (pos 0) && (not (r.width == fmt.width) || not (r.height == fmt.height)))) [
          | inr same ↦ rw same held
          | inl other ↦ rw other (
              guard_enosys-Queued (video.set_selection compose _) q w (is_video.compose_ok _ w)
                (is_video.set_selection_queue compose _ w) held)
        ]

  choose_format-Queued :
      (config : VideoConfig) (q : List ℕ) (w : W)
      → queue w ≡ q
      → Goes (Queued q) (choose_format video config w)
  choose_format-Queued config q w held =
      on_part-Goes (Queued q) (Queued q) _ _
        (call-Queued video.get_format q w (is_video.format_ok w) (is_video.format_queue w) held)
        (λ fmt w held.
          on_part-Goes (Queued q) (Queued q) _ _ (crop_source-Queued config q w held) (λ r w held.
            on_part-Goes (Queued q) (Queued q) _ _ (read_crop-Queued config r q w held)
              (λ selected w held.
                on_part-Goes (Queued q) (Queued q) _ _
                  (compose_format-Queued config (wanted video config fmt) selected q w held)
                  (λ a w held.
                    call-Queued (video.set_format (wanted video config fmt)) q w
                      (is_video.set_format_ok _ w) (is_video.set_format_queue _ w) held))))

  -- Two buffers, numbered in the order in which they were allocated, are the driver's.
  abbrev pub Paired : List ℕ → W → Type 0
  Paired bs w = (a : ℕ) × (bs ≡ a ∷ (a + 1) ∷ []) × (queue w ≡ a ∷ (a + 1) ∷ [])

  alloc_step :
      (config : VideoConfig) (size n : ℕ) (w : W)
      → (w' : W) × (alloc_all video config size (suc n) w
          ≡ on_part (λ bs. pure (made w ∷ bs)) (alloc_all video config size n w'))
        × (queue w' ≡ queue w ++ (made w ∷ []))
        × (made w' ≡ made w + 1)
  alloc_step config size n w =
      let w1 = (video.buffer_alloc size w).1 in
      (
        (video.enqueue (made w) w1).1,
        rw (is_video.alloc_ok size w) refl,
        is_video.enqueue_queue (made w) w1
            ∙ ap (λ q. q ++ (made w ∷ [])) (is_video.alloc_queue size w),
        is_video.enqueue_made (made w) w1 ∙ is_video.alloc_made size w,
      )

  alloc_all-Paired :
      (config : VideoConfig) (size : ℕ) (w : W)
      → queue w ≡ []
      → Goes Paired (alloc_all video config size 2 w)
  alloc_all-Paired config size w empty =
      let (w1, first, held1, next) = alloc_step config size 1 w in
      let (w2, second, held2, _) = alloc_step config size 0 w1 in
      let both = first ∙ ap (on_part (λ bs. pure (made w ∷ bs))) second in
      subst (λ r. Goes Paired r) (sym both)
        (
          made w,
          ap (λ m. made w ∷ m ∷ []) next,
          held2 ∙ ap₂ (λ q m. q ++ (m ∷ [])) (held1 ∙ ap (λ q. q ++ (made w ∷ [])) empty) next,
        )

  flips-Queued :
      (config : VideoConfig) (q : List ℕ) (w : W)
      → queue w ≡ q
      → Goes (Queued q) (flips video config w)
  flips-Queued config q w held =
      on_part-Goes (Queued q) (Queued q) _ _ (flip hflip config.video_hflip w held)
        (λ a w held. flip vflip config.video_vflip w held)
    where
      flip :
          (c : Control) (b : Bool) (w : W)
          → queue w ≡ q
          → Goes (Queued q) ((if b then ignore (video.set_ctrl c 1) else pure 0) w)
      flip c true w held = is_video.ctrl_queue c 1 w ∙ held
      flip c false w held = held

  -- From the buffers on, to the loop.
  started-Paired :
      (config : VideoConfig) (buffers : List ℕ) (w : W)
      → Paired buffers w
      → Goes Paired (
          (flips video config
              >> (guard video.stream_start >> (guard_enosys video.blanking_off >> pure buffers)))
            w)
  started-Paired config buffers w (a, same, held) =
      let q = a ∷ (a + 1) ∷ [] in
      on_part-Goes (Queued q) Paired _ _ (flips-Queued config q w held) (λ _ w held.
        on_part-Goes (Queued q) Paired _ _
          (guard-Queued video.stream_start q w (is_video.stream_ok w) (is_video.stream_queue w)
            held)
          (λ _ w held.
            on_part-Goes (Queued q) Paired _ _
              (guard_enosys-Queued video.blanking_off q w (is_video.blanking_ok w)
                (is_video.blanking_queue w) held)
              (λ _ w held. (a, same, held))))

  checked : (ready : Bool) (w : W) → ready ≡ true → queue w ≡ [] → Goes (Queued []) (check ready w)
  checked true w is_ready empty = empty
  checked false w is_ready empty = absurd (cc is_ready)

  pub set_up-Paired :
      (config : VideoConfig) (w : W) → queue w ≡ [] → Goes Paired (set_up video config w)
  unfolding set_up
  set_up-Paired config w empty =
      on_part-Goes (Queued []) Paired _ (check video.display_ready w)
        (checked video.display_ready w is_video.display_ready empty)
        (λ _ w empty.
          on_part-Goes (Queued []) Paired _ (check video.video_ready w)
            (checked video.video_ready w is_video.video_ready empty)
            (λ _ w empty.
              on_part-Goes (Queued []) Paired _ _
                (guard-Queued video.get_caps [] w (is_video.caps_ok w) (is_video.caps_queue w)
                  empty)
                (λ _ w empty.
                  on_part-Goes (Queued []) Paired _ _ (choose_format-Queued config [] w empty)
                    (λ fmt w empty.
                      on_part-Goes Paired Paired _ _ (alloc_all-Paired config fmt.size w empty)
                        (λ buffers w paired. started-Paired config buffers w paired)))))
