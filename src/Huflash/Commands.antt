-- ===== src/Huflash/Commands.antt =====
-- The commands of huflash.c: erase, wrprt and flash, with the response that each of them sends.
-- `last_size`, which only decides what is logged, is left out. A NULL argument or a string that
-- does not end is a fault, `none`.
use sdkz.Common.{
  ℕ, zero, suc, ◌+◌, ◌-◌, Option, none, some, List, [], leb, if◌then◌else◌, length, take, drop,
  ◌>>=◌, not, ◌*◌,
}
use sdkz.Common.Int.{ℤ, pos, neg, ◌+ℤ◌, ltb_ℤ, eq_ℤ, leb_ℤ}
use sdkz.Common.Strings.{string_at, strtol}
use sdkz.Ascii85.{Outcome, fault, returned, decode_ascii85}
use sdkz.Hupacket.{Hup, Env, arg}
use sdkz.Hupacket.Respond.{record_str, ack_response, nak_response, send_buffer}
use sdkz.Huflash.{FlashEnv, einval, open_flash_partition}

abbrev pub ascii85_error_code_start : ℕ
ascii85_error_code_start = 255

abbrev pub ascii85_max_chunk_size : ℕ
ascii85_max_chunk_size = 256

-- The places of the arguments, and how many of them a command wants.
abbrev pub arg_flash_partition : ℕ
arg_flash_partition = 1

abbrev pub arg_erase_max : ℕ
arg_erase_max = 2

abbrev pub arg_flash_write_protect : ℕ
arg_flash_write_protect = 2

abbrev pub arg_wrprt_max : ℕ
arg_wrprt_max = 3

abbrev pub arg_flash_offset : ℕ
arg_flash_offset = 2

abbrev pub arg_flash_length : ℕ
arg_flash_length = 3

abbrev pub arg_flash_ascii85_data : ℕ
arg_flash_ascii85_data = 4

abbrev pub arg_flash_max : ℕ
arg_flash_max = 5

abbrev pub arg_string : Hup → ℕ → Option (List ℕ)
arg_string h i = string_at h.buffer (arg h i)

-- The records of `_set_done`: `n` arguments from `i` on.
abbrev pub record_args : ℕ → ℕ → Hup → Option Hup
record_args i zero h = some h
record_args i (suc n) h = do str ← arg_string h i; h ← record_str h str; record_args (i + 1) n h

-- The result of a decoded chunk: the decoder's error, a wrong size, or 0.
abbrev pub decode_status : ℕ → ℤ → ℤ → ℤ
decode_status elasterror bin_len size =
    if ltb_ℤ bin_len (pos 0)
    then neg (bin_len +ℤ pos (ascii85_error_code_start + (elasterror + 3)))
    else if eq_ℤ bin_len size
    then pos 0
    else neg (pos (elasterror + 2))

-- The bytes of the buffer from a pointer on.
abbrev pub bytes_from : Hup → Option ℕ → List ℕ
bytes_from h none = []
bytes_from h (some p) = drop p h.buffer

module _ {A W : Type 0} (env : Env W) (flash : FlashEnv A W) where
  abbrev pub close_flash_partition : Option A → W → W
  close_flash_partition none w = w
  close_flash_partition (some fa) w = flash.area_close fa w

  abbrev pub set_status : Hup → ℤ → Option Hup
  set_status h rc = if eq_ℤ rc (pos 0) then ack_response env h else nak_response env h rc

  abbrev pub set_done : Hup → ℕ → ℕ → W → Option (Hup × W)
  set_done h from to w = do
    h ← record_args from ((if leb h.argc to then h.argc - 1 else to) + 1 - from) h
    (_, h, w) ← send_buffer env h w
    some (h, w)

  -- The end of every command, with the result and the area that it has come to.
  abbrev pub answer : ℕ → ℕ → ℤ × Option A × Hup × W → Option (Hup × W)
  answer from to (rc, fa, h, w) = do
    h ← set_status h rc
    set_done h from to (close_flash_partition fa w)

  -- Each command up to its error label.
  abbrev pub run_wrprt : Hup → W → Option (ℤ × Option A × Hup × W)
  run_wrprt h w =
      if leb arg_wrprt_max h.argc
      then (do
        _ ← arg_string h arg_flash_write_protect
        name ← arg_string h arg_flash_partition
        let (rc, fa, w) = open_flash_partition flash name w
        some (rc, fa, h, w))
      else some (einval, none, h, w)

  abbrev pub erase_area : ℤ × Option A × W → Hup → Option (ℤ × Option A × Hup × W)
  erase_area (rc, none, w) h = if eq_ℤ rc (pos 0) then none else some (rc, none, h, w)
  erase_area (rc, some fa, w) h =
      let (done, w') = flash.area_erase fa 0 (flash.area_size fa) w in
      if eq_ℤ rc (pos 0) then some (done, some fa, h, w') else some (rc, some fa, h, w)

  abbrev pub run_erase : Hup → W → Option (ℤ × Option A × Hup × W)
  run_erase h w =
      if leb arg_erase_max h.argc
      then (do
        name ← arg_string h arg_flash_partition
        erase_area (open_flash_partition flash name w) h)
      else some (einval, none, h, w)

  abbrev pub write_area : ℤ → Option A → ℤ → ℤ → Hup → W → Option (ℤ × Option A × Hup × W)
  write_area (pos zero) none offset size h w = none
  write_area (pos zero) (some fa) offset (pos size) h w =
      let (done, w') = flash.area_write fa offset (take size h.tx_buffer) w in
      some (done, some fa, h, w')
  write_area rc fa offset size h w = some (rc, fa, h, w)

  -- The data is decoded into the buffer of the response, which is not in use yet.
  abbrev pub decode_area : Outcome → Option A → ℤ → ℤ → Hup → W → Option (ℤ × Option A × Hup × W)
  decode_area fault fa offset size h w = none
  decode_area (returned bin_len tx) fa offset size h w =
      write_area (decode_status env.elasterror bin_len size) fa offset size
        (record h { tx_buffer = tx }) w

  abbrev pub flash_chunk : ℤ × Option A × W → Hup → Option (ℤ × Option A × Hup × W)
  flash_chunk (rc, fa, w) h = if not (eq_ℤ rc (pos 0)) then some (rc, fa, h, w) else (do
    length_arg ← arg_string h arg_flash_length
    let size = strtol length_arg 16
    if leb_ℤ size (pos ascii85_max_chunk_size) then some (einval, fa, h, w) else (do
      offset_arg ← arg_string h arg_flash_offset
      text ← arg_string h arg_flash_ascii85_data
      let p = arg h arg_flash_ascii85_data
      decode_area
          (decode_ascii85 (bytes_from h p) (pos (length text)) h.tx_buffer
            (pos (ascii85_max_chunk_size * 5)))
          fa (strtol offset_arg 16) size h w))

  abbrev pub run_flash : Hup → W → Option (ℤ × Option A × Hup × W)
  run_flash h w =
      if leb arg_flash_max h.argc
      then (do
        name ← arg_string h arg_flash_partition
        flash_chunk (open_flash_partition flash name w) h)
      else some (einval, none, h, w)

  unfoldable pub wrprt : Hup → W → Option (Hup × W)
  wrprt h w = run_wrprt h w >>= answer arg_flash_partition arg_flash_write_protect

  unfoldable pub erase : Hup → W → Option (Hup × W)
  erase h w = run_erase h w >>= answer arg_flash_partition arg_flash_partition

  unfoldable pub flash_cmd : Hup → W → Option (Hup × W)
  flash_cmd h w = run_flash h w >>= answer arg_flash_partition arg_flash_length
