-- ===== src/Palloc/Libc.antt =====
-- lib/hu/palloc.c without CONFIG_HU_PALLOC, or without the memory for it: the six functions over those of <stdlib.h>, which are
-- parameters over a state `W`.
use sdkz.Common.{ℕ}

-- NULL is 0.
pub record Libc (W : Type 0) : Type 0 where
  pub malloc : ℕ → W → ℕ × W
  pub free : ℕ → W → W
  pub calloc : ℕ → ℕ → W → ℕ × W
  pub realloc : ℕ → ℕ → W → ℕ × W

module _ {W : Type 0} (libc : Libc W) where
  unfoldable pub libc_palloc : ℕ → W → ℕ × W
  libc_palloc size w = libc.malloc size w

  unfoldable pub libc_pfree : ℕ → W → W
  libc_pfree p w = libc.free p w

  unfoldable pub libc_pcalloc : ℕ → ℕ → W → ℕ × W
  libc_pcalloc num size w = libc.calloc num size w

  unfoldable pub libc_prealloc : ℕ → ℕ → W → ℕ × W
  libc_prealloc ap nbytes w = libc.realloc ap nbytes w

-- The three sizes stay as the caller has them.
unfoldable pub libc_palloc_stats : (largest smallest links : ℕ) → ℕ × ℕ × ℕ × ℕ
libc_palloc_stats largest smallest links = (largest, smallest, links, 0)

unfoldable pub libc_palloc_init : {W : Type 0} → (pstart pend : ℕ) → W → W
libc_palloc_init pstart pend w = w
