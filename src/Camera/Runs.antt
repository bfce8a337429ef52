-- ===== src/Camera/Runs.antt =====
-- A driver with a queue of buffers, which has no selection and no blanking.
use sdkz.Common.{ℕ, ◌+◌, ◌≡◌, refl, true, false, some, List, [], ◌∷◌, ◌++◌, drop}
use sdkz.Common.Int.{pos, neg}
use sdkz.Camera.{VideoConfig, Video, camera_main, enosys}
use sdkz.Camera.Setup.{IsVideo}
use sdkz.Camera.Frames.{by_turns, camera_main-by_turns}

record Buffers : Type 0 where
  queue : List ℕ
  made : ℕ

abbrev queue_of : Buffers → List ℕ
queue_of w = w.queue

abbrev made_of : Buffers → ℕ
made_of w = w.made

abbrev front : List ℕ → ℕ
front [] = 0
front (b ∷ rest) = b

abbrev video : Video Buffers
video = record {
  display_ready = true;
  video_ready = true;
  get_caps = λ w. (pos 0, w);
  get_format = λ w. (pos 0, record { pixelformat = 1; width = 640; height = 480; size = 0 }, w);
  set_format = λ fmt w. (pos 0, record fmt { size = 614400 }, w);
  get_selection = λ t r w. (neg (pos enosys), r, w);
  set_selection = λ t r w. (pos 0, w);
  buffer_alloc = λ size w. (some w.made, record w { made = w.made + 1 });
  enqueue = λ b w. (pos 0, record w { queue = w.queue ++ (b ∷ []) });
  dequeue = λ w. (pos 0, front w.queue, record w { queue = drop 1 w.queue });
  set_ctrl = λ c v w. (pos 0, w);
  stream_start = λ w. (pos 0, w);
  blanking_off = λ w. (neg (pos enosys), w);
  draw = λ b w. w;
}

video-IsVideo : IsVideo video queue_of made_of
video-IsVideo = record {
  display_ready = refl;
  video_ready = refl;
  caps_ok = λ w. refl;
  format_ok = λ w. refl;
  set_format_ok = λ fmt w. refl;
  get_selection_ok = λ t r w. refl;
  crop_ok = λ r w. refl;
  compose_ok = λ r w. refl;
  stream_ok = λ w. refl;
  blanking_ok = λ w. refl;
  alloc_ok = λ size w. refl;
  enqueue_ok = λ b w. refl;
  dequeue_ok = λ b rest w held. rw held (refl, refl, refl);
  alloc_made = λ size w. refl;
  enqueue_made = λ b w. refl;
  caps_queue = λ w. refl;
  format_queue = λ w. refl;
  set_format_queue = λ fmt w. refl;
  get_selection_queue = λ t r w. refl;
  set_selection_queue = λ t r w. refl;
  alloc_queue = λ size w. refl;
  enqueue_queue = λ b w. refl;
  ctrl_queue = λ c v w. refl;
  stream_queue = λ w. refl;
  blanking_queue = λ w. refl;
  draw_queue = λ b w. refl;
}

abbrev config : VideoConfig
config = record {
  source_crop = record { left = 0; top = 0; width = 320; height = 240 };
  video_width = 640;
  video_height = 480;
  video_hflip = true;
  video_vflip = false;
  rgb565 = 7;
}

camera_main-by_turns_example :
    (a : ℕ) × (w' : Buffers) × (camera_main video config 6 (record { queue = []; made = 3 })
      ≡ (by_turns 3 a (a + 1), true, w'))
    × (w'.queue ≡ a ∷ (a + 1) ∷ [])
camera_main-by_turns_example =
    camera_main-by_turns video queue_of made_of video-IsVideo config 3
      (record { queue = []; made = 3 }) refl
