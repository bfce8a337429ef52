-- ===== src/Hupacket/Respond.antt =====
-- The response that hupacket.c builds in `tx_buffer` and sends. Every call passes NULL or
-- `h->tx_buffer` for `buffer`, so that parameter is left out.
use sdkz.Common.{
  ltb, ◌-◌, ◌^◌, ℕ, Option, none, some, List, [], ◌∷◌, ◌==◌, if◌then◌else◌, store, drop, ◌>>=◌,
}
use sdkz.Common.Int.{ℤ, pos, negsuc}
use sdkz.Common.Strings.{string_at, c_string, strcat}
use sdkz.Hupacket.{
  Hup, Env, arg, ack_of_response, nak_of_response, end_of_packet, crc_mark, record_mark, id_mark,
  sequence_mark,
}

unfoldable pub append_str : Hup → List ℕ → Option Hup
append_str h str = do tx ← strcat h.tx_buffer str; some (record h { tx_buffer = tx })

unfoldable pub append_char : Hup → ℕ → Option Hup
unfolding append_str
append_char h ch = if ch == 0 then some h else append_str h (ch ∷ [])

unfoldable pub record_str : Hup → List ℕ → Option Hup
unfolding append_char append_str
record_str h str = do h ← append_char h record_mark; append_str h str

-- The string at a pointer of the handle, appended.
abbrev pub append_field : Hup → Option ℕ → Option Hup
append_field h p = do str ← string_at h.buffer p; append_str h str

abbrev pub append_id : Hup → Option ℕ → Option Hup
append_id h none = some h
append_id h (some p) = do h ← append_field h (some p); append_char h id_mark

abbrev pub append_sequence : Hup → Option ℕ → Option Hup
append_sequence h none = some h
append_sequence h (some p) = do h ← append_char h sequence_mark; append_field h (some p)

-- `hupacket_reset_buffer`: the kind of the packet, then `id@` where there is an id, the command,
-- and `:sequence` where there is a sequence.
unfoldable pub reset_buffer : Hup → ℕ → Option Hup
unfolding append_char append_str
reset_buffer h stx = do
  tx ← store h.tx_buffer 0 0
  h ← append_char (record h { tx_buffer = tx }) stx
  h ← append_id h h.id
  h ← append_field h (arg h 0)
  append_sequence h h.sequence

-- A `uint32_t` that is passed as an `int`.
abbrev as_int : ℕ → ℤ
as_int val = if ltb val (2 ^ 31) then pos val else negsuc (2 ^ 32 - 1 - val)

module _ {W : Type 0} (env : Env W) where
  abbrev pub append_number : Hup → ℤ → ℕ → Option Hup
  append_number h val base = elim (env.itoa val base) [
    | none ↦ some h
    | some digits ↦ append_str h digits
  ]

  unfoldable pub append_int : Hup → ℤ → Option Hup
  unfolding append_str
  append_int h val = append_number h val 10

  unfoldable pub append_hex : Hup → ℕ → Option Hup
  unfolding append_str
  append_hex h val = append_number h (as_int val) 16

  unfoldable pub record_int : Hup → ℤ → Option Hup
  unfolding append_char append_int
  record_int h val = do h ← append_char h record_mark; append_int h val

  unfoldable pub record_hex : Hup → ℕ → Option Hup
  unfolding append_char append_hex
  record_hex h val = do h ← append_char h record_mark; append_hex h val

  unfoldable pub ack_response : Hup → Option Hup
  unfolding reset_buffer record_int
  ack_response h = do h ← reset_buffer h ack_of_response; record_int h (pos 0)

  unfoldable pub nak_response : Hup → ℤ → Option Hup
  unfolding reset_buffer record_int
  nak_response h rc = do h ← reset_buffer h nak_of_response; record_int h rc

  -- The CRC of all but the first byte, in hex, where the packet received had one.
  abbrev pub append_crc : Hup → Option ℕ → Option Hup
  append_crc h none = some h
  append_crc h (some p) = do
    str ← c_string (drop 1 h.tx_buffer)
    h ← append_char h crc_mark
    append_hex h (env.crc16 str)

  unfoldable pub send_buffer : Hup → W → Option (ℤ × Hup × W)
  unfolding append_char append_hex
  send_buffer h w = do
    h ← append_crc h h.crc16
    h ← append_char h end_of_packet
    packet ← c_string h.tx_buffer
    let (sent, w') = env.send packet w
    some (sent, h, w')

  -- A record for each string.
  abbrev pub record_all : List (List ℕ) → Hup → Option Hup
  record_all [] h = some h
  record_all (str ∷ strs) h = do h ← record_str h str; record_all strs h

  -- The acknowledgement with a record for each string, sent: what a command that succeeds does.
  unfoldable pub reply : List (List ℕ) → Hup → W → Option (Hup × W)
  unfolding ack_response record_str send_buffer
  reply strs h w = do
    h ← ack_response h
    h ← record_all strs h
    (_, h, w) ← send_buffer h w
    some (h, w)
