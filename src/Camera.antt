-- ===== src/Camera.antt =====
-- app/src/camera.c: the set-up of a camera and the loop that shows what it captures. Video,
-- display and graphics are parameters over a state `W`.
pub mod Setup
pub mod Frames
mod Runs
use sdkz.Common.{
  ℕ, zero, suc, Bool, true, false, not, ◌&&◌, ◌||◌, Option, none, some, List, [], ◌∷◌, ◌==◌,
  if◌then◌else◌,
}
use sdkz.Common.Int.{ℤ, pos, neg, ltb_ℤ, eq_ℤ}

-- ENOSYS of <errno.h>.
abbrev pub enosys : ℕ
enosys = 88

-- `struct video_rect`, and what is used of `struct video_format`.
pub record Rect : Type 0 where
  pub left : ℕ
  pub top : ℕ
  pub width : ℕ
  pub height : ℕ

pub record Format : Type 0 where
  pub pixelformat : ℕ
  pub width : ℕ
  pub height : ℕ
  pub size : ℕ

pub data Target : Type 0 where
  crop : Target
  compose : Target

pub data Control : Type 0 where
  hflip : Control
  vflip : Control

-- CONFIG_VIDEO_*, and VIDEO_PIX_FMT_RGB565.
pub record VideoConfig : Type 0 where
  pub source_crop : Rect
  pub video_width : ℕ
  pub video_height : ℕ
  pub video_hflip : Bool
  pub video_vflip : Bool
  pub rgb565 : ℕ

-- <zephyr/drivers/video.h> and <zephyr/drivers/display.h>; a buffer is a number, and NULL is
-- `none`. `draw` puts a buffer on the screen.
pub record Video (W : Type 0) : Type 0 where
  pub display_ready : Bool
  pub video_ready : Bool
  pub get_caps : W → ℤ × W
  pub get_format : W → ℤ × Format × W
  pub set_format : Format → W → ℤ × Format × W
  pub get_selection : Target → Rect → W → ℤ × Rect × W
  pub set_selection : Target → Rect → W → ℤ × W
  pub buffer_alloc : ℕ → W → Option ℕ × W
  pub enqueue : ℕ → W → ℤ × W
  pub dequeue : W → ℤ × ℕ × W
  pub set_ctrl : Control → ℕ → W → ℤ × W
  pub stream_start : W → ℤ × W
  pub blanking_off : W → ℤ × W
  pub draw : ℕ → W → W

-- A part of `_main`; `none` is that it returned.
abbrev pub Part : Type 0 → Type 0 → Type 0
Part A W = W → Option A × W

module _ {A W : Type 0} where
  abbrev pub pure : A → Part A W
  pure a w = (some a, w)

  -- A call that gives a value: any result but 0 ends `_main`.
  abbrev pub call : (W → ℤ × A × W) → Part A W
  call f w = let (rc, a, w') = f w in (if eq_ℤ rc (pos 0) then some a else none, w')

abbrev pub on_part : {A B W : Type 0} → (A → Part B W) → Option A × W → Option B × W
on_part f (none, w) = (none, w)
on_part f (some a, w) = f a w

infixl 5 ◌>>=◌ ◌>>◌
abbrev pub ◌>>=◌ : {A B W : Type 0} → Part A W → (A → Part B W) → Part B W
◌>>=◌ m f w = on_part f (m w)

abbrev pub ◌>>◌ : {A B W : Type 0} → Part A W → Part B W → Part B W
m >> k = m >>= λ _. k

-- Where the driver does not have the function, `_main` goes on.
abbrev pub refused : ℤ → Bool
refused rc = ltb_ℤ rc (pos 0) && not (eq_ℤ rc (neg (pos enosys)))

module _ {W : Type 0} where
  abbrev pub check : Bool → Part ℕ W
  check ready w = (if ready then some 0 else none, w)

  abbrev pub guard : (W → ℤ × W) → Part ℕ W
  guard f w = let (rc, w') = f w in (if eq_ℤ rc (pos 0) then some 0 else none, w')

  abbrev pub guard_enosys : (W → ℤ × W) → Part ℕ W
  guard_enosys f w = let (rc, w') = f w in (if refused rc then none else some 0, w')

  abbrev pub ignore : (W → ℤ × W) → Part ℕ W
  ignore f w = (some 0, (f w).1)

module _ {W : Type 0} (video : Video W) (config : VideoConfig) where
  abbrev pub crop_source : Part Rect W
  crop_source =
      let rect = config.source_crop in
      if not (rect.width == 0) && not (rect.height == 0)
      then (guard (video.set_selection crop rect) >> pure rect)
      else pure (record { left = 0; top = 0; width = 0; height = 0 })

  abbrev pub compose_format : Format → ℤ × Rect → Part ℕ W
  compose_format fmt (err, rect) =
      if eq_ℤ err (pos 0) && (not (rect.width == fmt.width) || not (rect.height == fmt.height))
      then guard_enosys (
          video.set_selection compose
            (record { left = 0; top = 0; width = fmt.width; height = fmt.height }))
      else pure 0

  -- The crop is read; ENOSYS is passed on.
  abbrev pub read_crop : Rect → Part (ℤ × Rect) W
  read_crop rect w =
      let (err, rect', w') = video.get_selection crop rect w in
      (if refused err then none else some (err, rect'), w')

  abbrev pub wanted : Format → Format
  wanted fmt = record fmt {
    width = config.video_width;
    height = config.video_height;
    pixelformat = config.rgb565;
  }

  abbrev pub choose_format : Part Format W
  choose_format = do
    fmt ← call video.get_format
    rect ← crop_source
    selected ← read_crop rect
    compose_format (wanted fmt) selected
    call (video.set_format (wanted fmt))

  -- One round for each element of `buffers`; the result of `video_enqueue` is not looked at.
  abbrev pub alloc_all : ℕ → ℕ → Part (List ℕ) W
  alloc_all size zero = pure []
  alloc_all size (suc n) = do
    buffer ← λ w. video.buffer_alloc size w
    ignore (video.enqueue buffer)
    buffers ← alloc_all size n
    pure (buffer ∷ buffers)

  abbrev pub flips : Part ℕ W
  flips = do
    if config.video_hflip then ignore (video.set_ctrl hflip 1) else pure 0
    if config.video_vflip then ignore (video.set_ctrl vflip 1) else pure 0

  -- From the start of `_main` to its loop, with the two buffers.
  unfoldable pub set_up : Part (List ℕ) W
  set_up = do
    check video.display_ready
    check video.video_ready
    guard video.get_caps
    fmt ← choose_format
    buffers ← alloc_all fmt.size 2
    flips
    guard video.stream_start
    guard_enosys video.blanking_off
    pure buffers

-- A frame that was shown: the buffer that was dequeued, and the one on the screen.
pub record Frame : Type 0 where
  pub dequeued : ℕ
  pub shown : ℕ

-- The loop over so many frames: those that were shown, and whether `_main` still runs.
abbrev pub add_frame : {W : Type 0} → Frame → List Frame × Bool × W → List Frame × Bool × W
add_frame frame (frames, runs, w) = (frame ∷ frames, runs, w)

module _ {W : Type 0} (video : Video W) where
  -- `video_img` has the data of `buffers[0]` in every round.
  unfoldable pub capture : ℕ → ℕ → W → List Frame × Bool × W
  capture zero shown w = ([], true, w)
  capture (suc n) shown w =
      let (err, vbuf, w1) = video.dequeue w in
      let w2 = video.draw shown w1 in
      let (err', w3) = video.enqueue vbuf w2 in
      let rest = capture n shown w3 in
      if not (eq_ℤ err (pos 0))
      then ([], false, w1)
      else if not (eq_ℤ err' (pos 0))
      then (record { dequeued = vbuf; shown = shown } ∷ [], false, w3)
      else add_frame (record { dequeued = vbuf; shown = shown }) rest

  abbrev pub capture_first : ℕ → Option (List ℕ) × W → List Frame × Bool × W
  capture_first n (none, w) = ([], false, w)
  capture_first n (some [], w) = ([], false, w)
  capture_first n (some (first ∷ _), w) = capture n first w

  unfoldable pub camera_main : VideoConfig → ℕ → W → List Frame × Bool × W
  unfolding set_up capture
  camera_main config n w = capture_first n (set_up video config w)
