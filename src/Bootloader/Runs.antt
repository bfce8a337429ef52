-- ===== src/Bootloader/Runs.antt =====
-- A lookup that reads two bytes.
use sdkz.Common.{ℕ, ◌≡◌, refl}
use sdkz.Common.Int.{pos, negsuc}
use sdkz.Bootloader.{Lookup, active_slot, settings}

abbrev two_bytes : Lookup ℕ
two_bytes slot w = (pos 2, 1, w)

two_bytes_refused : (active_slot two_bytes settings 7 0).0 ≡ negsuc 4
unfolding active_slot
two_bytes_refused = refl
