-- ===== src/Hupacket/Checked.antt =====
-- Packets with a CRC: the mark and the text of the CRC behind the body.
use sdkz.Common.{
  ℕ, suc, ◌+◌, ◌≤◌, ◌<◌, ◌≡◌, refl, ap, ◌∙◌, not, true, false, none, some, List, [], ◌∷◌, ◌++◌,
  arith, ◌==◌, if◌then◌else◌, ◌>>=◌, length, length-append, drop, All,
}
use sdkz.Common.Int.{pos, neg}
use sdkz.Common.Strings.{string_at}
use sdkz.Common.StringLaws.{NotNul, c_string-append}
use sdkz.Hupacket.{
  Hup, Env, arg, max_args, record_mark, crc_mark, enq_of_command, end_of_packet, reset_hupacket,
}
use sdkz.Hupacket.Respond.{nak_response, send_buffer}
use sdkz.Hupacket.Receive.{Handler, dispatch, process_hupacket, is_start}
use sdkz.Hupacket.Packet.{Request, IsRequest, IsText, header, body, records}
use sdkz.Hupacket.Split.{All-append, All-mono, IsText-NotNul}
use sdkz.Hupacket.Parse.{pointers, sized, parsed}
use sdkz.Hupacket.Deliver.{header-IsText, opened, body_bytes}
use sdkz.Hupacket.Crc.{
  arrived, checked_handle, checked_body, in_state, matches, crc_bytes, process_data-accepted,
  process_data-refused,
}
use sdkz.Hupacket.Delivered.{Delivers, parsed-Delivers}

records-NotNul : (fs : List (List ℕ)) → All (All IsText) fs → All NotNul (records record_mark fs)
records-NotNul [] text = tt
records-NotNul (f ∷ fs) (hf, hfs) = (
  refl,
  All-append NotNul f (records record_mark fs) (All-mono IsText-NotNul f hf)
      (records-NotNul fs hfs),
)

body-NotNul : (r : Request) → IsRequest r → All NotNul (body r)
body-NotNul r is =
    All-append NotNul (header r) (records record_mark r.fields)
      (All-mono IsText-NotNul (header r) (header-IsText r is))
      (records-NotNul r.fields is.fields_text)

module _ {W : Type 0} (env : Env W) (cmds resps : List (List ℕ × Handler W)) where
  -- A request behind a start byte, with a CRC that is the body's: it is delivered as it is without
  -- one, and the handler sees that the CRC matched.
  pub process_hupacket-accepts :
      (r : Request) (kind : ℕ) (crc : List ℕ) (h : Hup) (w : W)
      → IsRequest r
      → is_start kind ≡ true
      → All IsText crc
      → matches env r crc ≡ true
      → length h.argv ≡ max_args
      → suc (length r.fields) ≤ max_args
      → length (body r) + suc (length crc) < length h.buffer
      → (given : Hup) × Delivers r (not (kind == enq_of_command)) (record given { crc16 = none })
        × (given.crc_match ≡ true)
        × (process_hupacket env cmds resps (kind ∷ checked_body r crc) h w ≡ (
            dispatch (if not (kind == enq_of_command) then resps else cmds) r.command given w
            >>= λ (h, w). some (reset_hupacket h, w)))
  unfolding reset_hupacket
  process_hupacket-accepts r kind crc h w is start text same args count fits =
      let (arg_room, room, left, ran) =
        body_bytes env cmds resps r kind (crc_mark ∷ (crc ++ (end_of_packet ∷ []))) h w is start
          args count (omega arith) in
      let base = in_state (opened h kind) r crc in
      let room' = drop 1 (drop (length crc) (drop 1 room)) in
      (
        parsed (sized (checked_handle base r) r) r (pointers r ++ arg_room) (crc ++ (0 ∷ room')),
        parsed-Delivers r (record base { crc_match = true }) arg_room (crc ++ (0 ∷ room')) is,
        refl,
        ran
            ∙ crc_bytes env cmds resps (opened h kind) r arg_room crc room w text (omega arith)
            ∙ process_data-accepted env cmds resps base r arg_room crc room' w is text same,
      )

  -- A command with a CRC that is not its body's: no handler is called, and the answer is a NAK of
  -- that error. The handle is not reset, and the name in the answer is the whole body, since the
  -- header is not split yet.
  pub process_hupacket-refuses :
      (r : Request) (crc : List ℕ) (h : Hup) (w : W)
      → IsRequest r
      → All IsText crc
      → matches env r crc ≡ false
      → length h.argv ≡ max_args
      → suc (length r.fields) ≤ max_args
      → length (body r) + suc (length crc) < length h.buffer
      → (given : Hup) × (string_at given.buffer (arg given 0) ≡ some (body r))
        × (given.id ≡ none)
        × (given.state ≡ some (length (body r) + suc (length crc)))
        × (given.tx_buffer ≡ h.tx_buffer)
        × (process_hupacket env cmds resps (enq_of_command ∷ checked_body r crc) h w ≡ (
            nak_response env given (neg (pos env.elasterror)) >>= λ h.
            send_buffer env h w >>= λ (_, h, w). some (h, w)))
  unfolding reset_hupacket
  process_hupacket-refuses r crc h w is text other args count fits =
      let (arg_room, room, left, ran) =
        body_bytes env cmds resps r enq_of_command (crc_mark ∷ (crc ++ (end_of_packet ∷ []))) h w is
          refl args count (omega arith) in
      let base = in_state (opened h enq_of_command) r crc in
      let room' = drop 1 (drop (length crc) (drop 1 room)) in
      (
        record (arrived base r arg_room crc room') { crc_match = false },
        c_string-append (body r) (crc ++ (0 ∷ room')) (body-NotNul r is),
        refl,
        ap some (
            omega (arith, length-append (body r ++ (0 ∷ [])) crc, length-append (body r) (0 ∷ []))),
        refl,
        ran
            ∙ crc_bytes env cmds resps (opened h enq_of_command) r arg_room crc room w text
                (omega arith)
            ∙ process_data-refused env cmds resps base r arg_room crc room' w text other refl,
      )
