-- ===== src/Huflash/Runs.antt =====
-- The flash commands and their theorems at concrete inputs.
use sdkz.Common.{
  ℕ, ◌≡◌, refl, true, none, some, List, [], ◌∷◌, ◌++◌, arith, ◌+◌, ◌-◌, length, replicate,
}
use sdkz.Common.Int.{ℤ, pos, negsuc}
use sdkz.Ascii85.Text.{encoding}
use sdkz.Hupacket.{Hup, Env}
use sdkz.Huflash.{FlashEnv, slot0, slot1, open_flash_partition}
use sdkz.Huflash.Commands.{run_flash, flash_cmd, erase, wrprt}
use sdkz.Huflash.Chunks.{run_flash-encoding, run_flash-no_z}
use sdkz.Huflash.Closes.{Counts, Ensures, commands-Holds}

-- slot0 has the id 1 and slot1 the id 2; slot 0 runs, and every area can be opened.
abbrev flash_with : ℕ → FlashEnv ℤ ℕ
flash_with first = record {
  partitions = (slot0, first) ∷ (slot1, 2) ∷ [];
  active_slot = (pos 0, 0);
  area_open = λ id w. (pos 0, some id, w + 1);
  area_close = λ fa w. w - 1;
  area_size = λ fa. 4096;
  area_erase = λ fa offset size w. (pos 0, w);
  area_write = λ fa offset bytes w. (pos (length bytes), w);
}

abbrev env : Env ℕ
env = record {
  crc16 = λ s. 0;
  itoa = λ v base. some (48 ∷ []);
  send = λ packet w. (pos (length packet), w);
  elasterror = 2000;
}

-- The records "slot0", "10" and the two given ones.
abbrev handle : List ℕ → List ℕ → Hup
handle size text = record {
  argc = 5;
  argv = some 0 ∷ some 2 ∷ some 8 ∷ some 11 ∷ some (12 + length size) ∷ [];
  state = none;
  buffer = b'f' ∷ 0 ∷ (slot0 ++ (0 ∷ b'1' ∷ b'0' ∷ 0 ∷ (size ++ (0 ∷ (text ++ (0 ∷ []))))));
  response = true;
  crc_match = true;
  id = none;
  sequence = none;
  crc16 = none;
  tx_buffer = replicate 1530 0;
}

abbrev size_260 : List ℕ
size_260 = b'1' ∷ b'0' ∷ b'4' ∷ []

-- 260 bytes of 0 are 65 times 'z'.
run_flash-encoding_example :
    (tx : List ℕ) × (run_flash env (flash_with 0) (handle size_260 (replicate 65 b'z')) 3
      ≡ some (
        pos 260,
        some (pos 0),
        record (handle size_260 (replicate 65 b'z')) { tx_buffer = tx },
        4,
      ))
unfolding encoding open_flash_partition
run_flash-encoding_example =
    run_flash-encoding env (flash_with 0) (handle size_260 (replicate 65 b'z')) 3 4 slot0
      (replicate 260 0) (pos 16) (pos 0)
      record {
        counted = omega arith;
        partition = refl;
        offset_text = b'1' ∷ b'0' ∷ [];
        offset_arg = refl;
        offset_value = refl;
        size_text = size_260;
        size_arg = refl;
        size_value = refl;
        start = 15;
        start_arg = refl;
        data_text = refl;
      }
      refl (omega arith) (omega arith) (omega arith) (omega arith)

abbrev few : List ℕ
few = b'8' ∷ b'7' ∷ b'c' ∷ b'U' ∷ b'R' ∷ []

run_flash-no_z_example :
    (e : ℕ) × (tx : List ℕ) × (run_flash env (flash_with 0) (handle size_260 few) 3
      ≡ some (negsuc e, some (pos 0), record (handle size_260 few) { tx_buffer = tx }, 4))
unfolding open_flash_partition
run_flash-no_z_example =
    run_flash-no_z env (flash_with 0) (handle size_260 few) 3 4 slot0 few (pos 16) 260 (pos 0)
      record {
        counted = omega arith;
        partition = refl;
        offset_text = b'1' ∷ b'0' ∷ [];
        offset_arg = refl;
        offset_value = refl;
        size_text = size_260;
        size_arg = refl;
        size_value = refl;
        start = 15;
        start_arg = refl;
        data_text = refl;
      }
      refl refl (omega arith)

counts : Counts env (flash_with 0) (λ w. w)
counts = record {
  opens = λ id w. omega arith;
  closes = λ fa w. refl;
  erases = λ fa offset size w. refl;
  writes = λ fa offset s w. refl;
  sends = λ packet w. refl;
}

commands-Holds_example :
    Ensures (λ r. r.1 ≡ 3) (flash_cmd env (flash_with 0) (handle size_260 few) 3)
    × Ensures (λ r. r.1 ≡ 3) (erase env (flash_with 0) (handle size_260 few) 3)
    × Ensures (λ r. r.1 ≡ 3) (wrprt env (flash_with 0) (handle size_260 few) 3)
commands-Holds_example = commands-Holds env (flash_with 0) (λ w. w) counts (handle size_260 few) 3
