-- ===== src/Hupacket/Receive.antt =====
-- The receiving side of hupacket.c: one byte after another into `buffer`, and the packet that
-- an END_OF_PACKET closes. A handler is a registered command or response; it reads its arguments
-- through the handle, and what else it changes is in `W`.
use mathlib.Core.Option
use sdkz.Common.{
  ℕ, suc, ◌+◌, ◌-◌, ◌%◌, ◌^◌, Bool, false, not, ◌&&◌, ◌||◌, Option, none, some, List, [], ◌∷◌, ◌==◌,
  ltb, if◌then◌else◌, length, take, drop, store, ◌>>=◌,
}
use sdkz.Common.Int.{pos, neg}
use sdkz.Common.Strings.{string_at, strchr, str_eq, strtoul}
use sdkz.Hupacket.{
  Hup, Env, arg, set_head, reset_hupacket, enq_of_command, ack_of_response, nak_of_response,
  end_of_packet, crc_mark, record_mark, id_mark, sequence_mark,
}
use sdkz.Hupacket.Respond.{nak_response, send_buffer}

-- `seperate_header`: where `ch` is in the string at argv[0], `ptr` takes the part before it and
-- `dst` the part behind it.
abbrev split_at : (ptr dst : Hup → Option ℕ → Hup) → Hup → ℕ → Option ℕ → Option Hup
split_at ptr dst h p none = some h
split_at ptr dst h p (some k) = do
  buffer ← store h.buffer (p + k) 0
  some (dst (record (ptr h (some p)) { buffer = buffer }) (some (p + k + 1)))

abbrev split_string : (ptr dst : Hup → Option ℕ → Hup) → ℕ → Hup → Option ℕ → Option Hup
split_string ptr dst ch h none = none
split_string ptr dst ch h (some p) = strchr (drop p h.buffer) ch >>= split_at ptr dst h p

unfoldable pub seperate_header : (ptr dst : Hup → Option ℕ → Hup) → ℕ → Hup → Option Hup
seperate_header ptr dst ch h = split_string ptr dst ch h (arg h 0)

abbrev pub set_id : Hup → Option ℕ → Hup
set_id h p = record h { id = p }

abbrev pub set_arg0 : Hup → Option ℕ → Hup
set_arg0 h p = record h { argv = set_head h.argv p }

abbrev pub set_sequence : Hup → Option ℕ → Hup
set_sequence h p = record h { sequence = p }

-- `*(argv[i] - 1) = '\0'` for the arguments behind the first.
abbrev pub cut_args : List (Option ℕ) → List ℕ → Option (List ℕ)
cut_args [] buffer = some buffer
cut_args (some (suc p) ∷ args) buffer = do buffer' ← store buffer p 0; cut_args args buffer'
cut_args (_ ∷ args) buffer = none

abbrev pub Handler : Type 0 → Type 0
Handler W = Hup → W → Option (Hup × W)

-- The first entry whose name is argv[0] is called, if there is one.
abbrev pub dispatch : {W : Type 0} → List (List ℕ × Handler W) → List ℕ → Hup → W → Option (Hup × W)
dispatch [] name h w = some (h, w)
dispatch ((cmd, f) ∷ rest) name h w = if str_eq cmd name then f h w else dispatch rest name h w

abbrev pub is_start : ℕ → Bool
is_start ch = ch == enq_of_command || (ch == ack_of_response || ch == nak_of_response)

-- `h->argv[h->argc ++] = &h->buffer[i]`.
abbrev push_arg : Hup → ℕ → Option Hup
push_arg h i = do
  argv ← store h.argv h.argc (some i)
  some (record h { argv = argv; argc = h.argc + 1 })

-- `h->buffer[h->state ++] = ch` where there is room, and else a reset.
abbrev put_char : Hup → ℕ → ℕ → Option Hup
put_char h i ch =
    if ltb i (length h.buffer)
    then (do
      buffer ← store h.buffer i ch
      some (record h { buffer = buffer; state = some (i + 1) }))
    else some (reset_hupacket h)

-- A start byte opens a packet, whatever came before it.
abbrev start_packet : ℕ → Hup → Option Hup
start_packet ch h =
    push_arg (record (reset_hupacket h) { state = some 0; response = not (ch == enq_of_command) }) 0

abbrev put_crc_mark : Hup → ℕ → Option Hup
put_crc_mark h i =
    if ltb i (length h.buffer)
    then (do h ← put_char h i 0; some (record h { crc16 = some (i + 1) }))
    else some (reset_hupacket h)

abbrev with_state : {W : Type 0} → W → Option Hup → Option (Hup × W)
with_state w o = Option.map (λ h. (h, w)) o

module _ {W : Type 0} (env : Env W) (cmds resps : List (List ℕ × Handler W)) where
  -- The CRC test: the handle with `crc_match` written, and whether the packet is refused.
  abbrev check_crc : Hup → Option ℕ → Option (Hup × Bool)
  check_crc h none = some (h, false)
  check_crc h (some p) = do
    received ← string_at h.buffer (some p)
    let ok = env.crc16 (take (p - 1) h.buffer) == strtoul received 16 % 2 ^ 16
    some (record h { crc_match = ok }, not ok && not h.response)

  -- Behind the CRC: the marks are cut, and the handler is called.
  unfoldable pub run_packet : Hup → W → Option (Hup × W)
  unfolding reset_hupacket seperate_header
  run_packet h w = do
    buffer ← cut_args (drop 1 (take h.argc h.argv)) h.buffer
    h ← seperate_header set_id set_arg0 id_mark (record h { buffer = buffer })
    h ← seperate_header set_arg0 set_sequence sequence_mark h
    name ← string_at h.buffer (arg h 0)
    (h, w) ← dispatch (if h.response then resps else cmds) name h w
    some (reset_hupacket h, w)

  unfoldable pub process_data : Hup → W → Option (Hup × W)
  unfolding run_packet nak_response send_buffer
  process_data h w = do
    (h, refused) ← check_crc h h.crc16
    if refused
        then (do
          h ← nak_response env h (neg (pos env.elasterror))
          (_, h, w) ← send_buffer env h w
          some (h, w))
        else run_packet h w

  abbrev end_packet : Hup → ℕ → W → Option (Hup × W)
  end_packet h i w = do buffer ← store h.buffer i 0; process_data (record h { buffer = buffer }) w

  -- One round of the loop of `process_hupacket`.
  unfoldable pub process_byte : ℕ → Hup → W → Option (Hup × W)
  unfolding process_data
  process_byte ch h w = if is_start ch then with_state w (start_packet ch h) else elim h.state [
    | none ↦ some (h, w)
    | some i ↦
        if ch == end_of_packet
        then end_packet h i w
        else if ch == crc_mark
        then with_state w (put_crc_mark h i)
        else if ch == record_mark
        then with_state w (push_arg h (i + 1) >>= λ h. put_char h i ch)
        else with_state w (put_char h i ch)
  ]

  unfoldable pub process_hupacket : List ℕ → Hup → W → Option (Hup × W)
  unfolding process_byte
  process_hupacket [] h w = some (h, w)
  process_hupacket (ch ∷ chars) h w = process_byte ch h w >>= λ (h, w). process_hupacket chars h w
