-- ===== src/Bbram/Runs.antt =====
-- A memory of one byte.
use sdkz.Common.{ℕ, ◌%◌, ◌≡◌, refl, arith}
use sdkz.Common.Int.{pos}
use sdkz.Bbram.{Driver, IsBbram, boots, init_bbram-boots}

abbrev memory : Driver ℕ
memory = record { read = λ offset w before. (pos 0, w % 256, w); write = λ offset b w. (pos 0, b) }

memory-IsBbram : IsBbram memory (λ w. w % 256)
memory-IsBbram = record {
  cell_byte = λ w. omega arith;
  read_cell = λ w before. refl;
  write_ok = λ b w. refl;
  write_cell = λ b w h. omega arith;
}

init_bbram-boots_example : (boots memory (λ w. w % 256) memory-IsBbram 300 7).1 % 256 ≡ 51
init_bbram-boots_example = init_bbram-boots memory (λ w. w % 256) memory-IsBbram 300 7
