-- ===== src/Bbram.antt =====
-- lib/app/bbram.c: the count of boots in the battery-backed RAM, whose driver is a parameter over
-- a state `W`.
mod Runs
use sdkz.Common.{
  ℕ, zero, suc, ◌+◌, ◌%◌, ◌^◌, ◌<◌, ◌≡◌, refl, sym, ap, ◌∙◌, Bool, true, false, List, [], ◌∷◌,
  if◌then◌else◌, arith,
}
use sdkz.Common.Int.{ℤ, pos, neg, eq_ℤ}

-- ENODEV of <errno.h>.
abbrev enodev : ℕ
enodev = 19

-- One byte is read or written at an offset; the read gives what is in the byte then, which was
-- the third argument before.
pub record Driver (W : Type 0) : Type 0 where
  pub read : ℕ → W → ℕ → ℤ × ℕ × W
  pub write : ℕ → ℕ → W → ℤ × W

module _ {W : Type 0} (driver : Driver W) where
  -- `boot_counter` is a uint32_t, of which the first byte, its lowest, is read and written.
  abbrev write_count : ℤ × ℕ × W → ℤ × W
  write_count (ret, count, w) =
      if eq_ℤ ret (pos 0) then driver.write 0 ((count + 1) % 2 ^ 32 % 256) w else (ret, w)

  unfoldable pub init_bbram : Bool → W → ℤ × W
  init_bbram ready w = if ready then write_count (driver.read 0 w 0) else (neg (pos enodev), w)

-- <zephyr/drivers/bbram.h>, of a device that works: `cell` is the byte at offset 0.
pub record IsBbram {W : Type 0} (driver : Driver W) (cell : W → ℕ) : Type 0 where
  pub cell_byte : (w : W) → cell w < 256
  pub read_cell : (w : W) (before : ℕ) → driver.read 0 w before ≡ (pos 0, cell w, w)
  pub write_ok : (b : ℕ) (w : W) → (driver.write 0 b w).0 ≡ pos 0
  pub write_cell : (b : ℕ) (w : W) → b < 256 → cell (driver.write 0 b w).1 ≡ b

module _ {W : Type 0} (driver : Driver W) (cell : W → ℕ) (is_bbram : IsBbram driver cell) where
  init_bbram-cell :
      (w : W)
      → ((init_bbram driver true w).0 ≡ pos 0)
        × (cell (init_bbram driver true w).1 ≡ (cell w + 1) % 256)
  unfolding init_bbram
  init_bbram-cell w = rw (is_bbram.read_cell w 0) (
    is_bbram.write_ok _ w,
    is_bbram.write_cell _ w (omega arith) ∙ omega (arith, is_bbram.cell_byte w),
  )

  -- So many boots, one after another, and the result of the last.
  abbrev pub boots : ℕ → W → ℤ × W
  boots zero w = (pos 0, w)
  boots (suc n) w = boots n (init_bbram driver true w).1

  -- On a device that works, the byte counts the boots modulo 256, so that the count which the code
  -- keeps in 32 bits is 0 again after 256 of them.
  pub init_bbram-boots : (n : ℕ) (w : W) → cell (boots n w).1 ≡ (cell w + n) % 256
  init_bbram-boots zero w = omega (arith, is_bbram.cell_byte w)
  init_bbram-boots (suc n) w =
      omega (arith, init_bbram-boots n (init_bbram driver true w).1, (init_bbram-cell w).1)
