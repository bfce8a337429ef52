-- ===== src/Huflash/Chunks.antt =====
-- The writes of the flash command.
use sdkz.Common.{
  ℕ, ◌+◌, ◌*◌, ◌≤◌, ◌<◌, ◌≡◌, refl, ap, ◌∙◌, Option, none, some, List, [], ◌∷◌, ◌++◌, ltb, length,
  take, drop, arith, take-append, length-append, All, le→leb, lt→leb_false, Bool-cases, inl, inr,
  ltb→lt, ltb_false→le,
}
use sdkz.Common.Int.{ℤ, pos, negsuc}
use sdkz.Common.Strings.{c_string, strtol}
use sdkz.Ascii85.{returned, decode_ascii85}
use sdkz.Ascii85.Bounds.{count_z}
use sdkz.Ascii85.Text.{IsByte, encoding}
use sdkz.Ascii85.RoundTrip.{decode_ascii85-encoding}
use sdkz.Hupacket.{Hup, Env, arg}
use sdkz.Huflash.{FlashEnv, open_flash_partition}
use sdkz.Huflash.Commands.{arg_string, run_flash, decode_area, write_area, decode_status}
use sdkz.Huflash.Decode.{c_string-split, no_z-Refuses}

-- The arguments of a flash command: the partition, an offset, a size and the data.
pub record IsChunk (h : Hup) (name text : List ℕ) (offset : ℤ) (size : ℕ) : Type 0 where
  pub counted : 5 ≤ h.argc
  pub partition : arg_string h 1 ≡ some name
  pub offset_text : List ℕ
  pub offset_arg : arg_string h 2 ≡ some offset_text
  pub offset_value : strtol offset_text 16 ≡ offset
  pub size_text : List ℕ
  pub size_arg : arg_string h 3 ≡ some size_text
  pub size_value : strtol size_text 16 ≡ pos size
  pub start : ℕ
  pub start_arg : arg h 4 ≡ some start
  pub data_text : c_string (drop start h.buffer) ≡ some text

module _ {A W : Type 0} (env : Env W) (flash : FlashEnv A W) where
  -- Up to the decoder.
  flash_decodes :
      (h : Hup) (w w1 : W) (name text : List ℕ) (offset : ℤ) (size : ℕ) (fa : A)
      (chunk : IsChunk h name text offset size)
      → open_flash_partition flash name w ≡ (pos 0, some fa, w1)
      → 256 < size
      → run_flash env flash h w
        ≡ decode_area env flash
            (decode_ascii85 (drop chunk.start h.buffer) (pos (length text)) h.tx_buffer (pos 1280))
            (some fa)
            offset
            (pos size)
            h
            w1
  flash_decodes h w w1 name text offset size fa chunk opened large = rw (
    le→leb 5 h.argc chunk.counted,
    chunk.partition,
    opened,
    chunk.size_arg,
    chunk.size_value,
    lt→leb_false (size + 0) 256 (omega arith),
    chunk.offset_arg,
    chunk.offset_value,
    chunk.start_arg,
    chunk.data_text,
  )

  write_area_refused :
      (e : ℕ) (fa : Option A) (offset size : ℤ) (h : Hup) (w : W)
      → write_area env flash (negsuc e) fa offset size h w ≡ some (negsuc e, fa, h, w)
  write_area_refused e none offset size h w = refl
  write_area_refused e (some fa) offset size h w = refl

  decoded_whole :
      (n m : ℕ) (tx : List ℕ) (offset : ℤ) (fa : A) (h : Hup) (w : W)
      → m ≡ n
      → decode_area env flash (returned (pos m) tx) (some fa) offset (pos n) h w
        ≡ some (
          (flash.area_write fa offset (take n tx) w).0,
          some fa,
          record h { tx_buffer = tx },
          (flash.area_write fa offset (take n tx) w).1,
        )
  decoded_whole n m tx offset fa h w e =
      let same : decode_status env.elasterror (pos m) (pos n) ≡ pos 0 = ground arith in rw same

  -- Data that decodes to the announced size, more than 256 bytes of it in at most 320 characters:
  -- exactly the bytes are written, at the offset, into the area that was opened, and the result
  -- is that of the write.
  pub run_flash-encoding :
      (h : Hup) (w w1 : W) (name src : List ℕ) (offset : ℤ) (fa : A)
      → IsChunk h name (encoding src) offset (length src)
      → open_flash_partition flash name w ≡ (pos 0, some fa, w1)
      → All IsByte src
      → 256 < length src
      → 4 * length (encoding src) ≤ 1280
      → 1280 ≤ length h.tx_buffer
      → (tx : List ℕ) × (run_flash env flash h w
          ≡ some (
            (flash.area_write fa offset src w1).0,
            some fa,
            record h { tx_buffer = tx },
            (flash.area_write fa offset src w1).1,
          ))
  run_flash-encoding h w w1 name src offset fa chunk opened bytes large short room =
      let (after, split) =
        c_string-split (drop chunk.start h.buffer) (encoding src) chunk.data_text in
      let (left, decoded, size) =
        decode_ascii85-encoding src (0 ∷ after) h.tx_buffer 1280 bytes (omega arith) short room in
      (
        src ++ left,
        flash_decodes h w w1 name (encoding src) offset (length src) fa chunk opened large
            ∙ ap
                (λ b.
                  decode_area env flash
                    (decode_ascii85 b (pos (length (encoding src))) h.tx_buffer (pos 1280))
                    (some fa) offset (pos (length src)) h w1)
                split
            ∙ ap (λ r. decode_area env flash r (some fa) offset (pos (length src)) h w1) decoded
            ∙ decoded_whole (length src) (length {A = ℕ} [] + length src) (src ++ left) offset fa h
                w1 (omega arith)
            ∙ rw take-append,
      )

  -- Data without a 'z' is never written: every such chunk is refused with an error, whatever its
  -- announced size, since more than 256 bytes do not fit in the text that the decoder is given
  -- room for. The partition has been opened, and nothing else was done to it.
  pub run_flash-no_z :
      (h : Hup) (w w1 : W) (name text : List ℕ) (offset : ℤ) (size : ℕ) (fa : A)
      → IsChunk h name text offset size
      → open_flash_partition flash name w ≡ (pos 0, some fa, w1)
      → count_z text ≡ 0
      → 1280 ≤ length h.tx_buffer
      → (e : ℕ) × (tx : List ℕ) × (run_flash env flash h w
          ≡ some (negsuc e, some fa, record h { tx_buffer = tx }, w1))
  run_flash-no_z h w w1 name text offset size fa chunk opened no_z room =
      elim (Bool-cases (ltb 256 size)) [
        | inr small ↦ (
          21,
          h.tx_buffer,
          rw (
            le→leb 5 h.argc chunk.counted,
            chunk.partition,
            opened,
            chunk.size_arg,
            chunk.size_value,
            le→leb (size + 0) 256 (omega (arith, ltb_false→le 256 size small)),
          ),
        )
        | inl large ↦
            let (after, split) = c_string-split (drop chunk.start h.buffer) text chunk.data_text in
            let (b, tx, e, r, status) =
              no_z-Refuses env.elasterror size (length text) (drop chunk.start h.buffer) h.tx_buffer
                (omega (arith, ap length split, length-append text (0 ∷ after))) room
                (ap (λ l. count_z (take (length text) l)) split ∙ rw take-append no_z)
                (ltb→lt 256 size large) in
            (
              e,
              tx,
              flash_decodes h w w1 name text offset size fa chunk opened (ltb→lt 256 size large)
                  ∙ rw (r, status),
            )
      ]
