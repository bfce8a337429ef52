-- ===== src/Hupacket/Crc.antt =====
-- The bytes of a CRC behind a packet's body, and what `process_data` makes of the two.
use sdkz.Common.{
  ℕ, suc, ◌+◌, ◌-◌, ◌%◌, ◌^◌, ◌≤◌, ◌<◌, ◌≡◌, refl, sym, ap, ◌∙◌, Bool, true, false, none, some,
  Option, List, [], ◌∷◌, ◌++◌, append_assoc, arith, ◌==◌, if◌then◌else◌, ◌>>=◌, lt→ltb, length,
  length-append, drop, take-append, length-drop, store-append_head, All,
}
use sdkz.Common.Int.{pos, neg}
use sdkz.Common.Strings.{strtoul, string_at}
use sdkz.Common.StringLaws.{string_at-append}
use sdkz.Hupacket.{Hup, Env, crc_mark, end_of_packet, reset_hupacket}
use sdkz.Hupacket.Respond.{nak_response, send_buffer}
use sdkz.Hupacket.Receive.{Handler, dispatch, process_data, process_hupacket}
use sdkz.Hupacket.Packet.{Request, IsRequest, IsText, body}
use sdkz.Hupacket.Split.{headed, All-mono, IsText-NotNul}
use sdkz.Hupacket.Collect.{receiving, text_bytes}
use sdkz.Hupacket.Parse.{pointers, sized, parsed, run_packet-parsed}

add_sub_one : (n : ℕ) → n + 1 - 1 ≡ n
add_sub_one n = omega arith

bind_some : {A B : Type 0} (o : Option (A × B)) → (o >>= λ (a, b). some (a, b)) ≡ o
bind_some none = refl
bind_some (some p) = refl

-- The handle behind the CRC's text and the NUL of the end byte.
abbrev pub arrived : Hup → Request → List (Option ℕ) → List ℕ → List ℕ → Hup
arrived h r arg_room crc room =
    headed (record h { argc = suc (length (pointers r)); crc16 = some (length (body r) + 1) })
      (pointers r ++ arg_room) 0 (body r ++ (0 ∷ (crc ++ (0 ∷ room)))) none none

crc_read :
    (r : Request) (crc room : List ℕ)
    → All IsText crc
    → string_at (body r ++ (0 ∷ (crc ++ (0 ∷ room)))) (some (length (body r) + 1)) ≡ some crc
crc_read r crc room text =
    ap (λ b. string_at b (some (length (body r) + 1)))
      (sym (append_assoc (body r) (0 ∷ []) (crc ++ (0 ∷ room))))
    ∙ ap (λ n. string_at ((body r ++ (0 ∷ [])) ++ (crc ++ (0 ∷ room))) (some n))
        (sym (length-append (body r) (0 ∷ [])))
    ∙ string_at-append (body r ++ (0 ∷ [])) crc room (All-mono IsText-NotNul crc text)

abbrev pub checked_handle : Hup → Request → Hup
checked_handle h r = record h { crc16 = some (length (body r) + 1); crc_match = true }

-- The bytes of a packet with a CRC, behind its start byte.
abbrev pub checked_body : Request → List ℕ → List ℕ
checked_body r crc = body r ++ (crc_mark ∷ (crc ++ (end_of_packet ∷ [])))

abbrev pub in_state : Hup → Request → List ℕ → Hup
in_state h r crc = record h { state = some (length ((body r ++ (0 ∷ [])) ++ crc)) }

-- Whether the CRC that was sent is that of the body.
abbrev pub matches : {W : Type 0} → Env W → Request → List ℕ → Bool
matches env r crc = env.crc16 (body r) == strtoul crc 16 % 2 ^ 16

module _ {W : Type 0} (env : Env W) (cmds resps : List (List ℕ × Handler W)) where
  crc_byte :
      (h : Hup) (args arg_room : List (Option ℕ)) (front room rest : List ℕ) (w : W)
      → 1 ≤ length room
      → process_hupacket env cmds resps (crc_mark ∷ rest) (receiving h args arg_room front room) w
        ≡ process_hupacket env cmds resps rest
            (receiving
              (record h { crc16 = some (length front + 1) })
              args
              arg_room
              (front ++ (0 ∷ []))
              (drop 1 room))
            w
  unfolding process_hupacket
  crc_byte h args arg_room front [] rest w fits = absurd (omega arith)
  crc_byte h args arg_room front (x ∷ room) rest w fits = rw (
    lt→ltb (length front) (length (front ++ (x ∷ room)))
        (omega (arith, length-append front (x ∷ room))),
    store-append_head front room x 0,
    append_assoc,
    length-append,
  )

  -- A command whose CRC is another is refused.
  pub process_data-refused :
      (h : Hup) (r : Request) (arg_room : List (Option ℕ)) (crc room : List ℕ) (w : W)
      → All IsText crc
      → matches env r crc ≡ false
      → h.response ≡ false
      → process_data env cmds resps (arrived h r arg_room crc room) w ≡ (
          nak_response env
            (record (arrived h r arg_room crc room) { crc_match = false })
            (neg (pos env.elasterror))
          >>= λ h. send_buffer env h w >>= λ (_, h, w). some (h, w))
  unfolding process_data
  process_data-refused h r arg_room crc room w text other command =
      rw
        (
          crc_read r crc room text,
          add_sub_one (length (body r)),
          take-append (body r) (0 ∷ (crc ++ (0 ∷ room))),
          other,
          command,
        )
        refl

  -- With its own CRC, a packet is parsed as it is without one.
  pub process_data-accepted :
      (h : Hup) (r : Request) (arg_room : List (Option ℕ)) (crc room : List ℕ) (w : W)
      → IsRequest r
      → All IsText crc
      → matches env r crc ≡ true
      → process_data env cmds resps (arrived h r arg_room crc room) w ≡ (
          dispatch
            (if h.response then resps else cmds)
            r.command
            (parsed (sized (checked_handle h r) r) r (pointers r ++ arg_room) (crc ++ (0 ∷ room)))
            w
          >>= λ (h, w). some (reset_hupacket h, w))
  unfolding process_data
  process_data-accepted h r arg_room crc room w is text same =
      rw
        (
          crc_read r crc room text,
          add_sub_one (length (body r)),
          take-append (body r) (0 ∷ (crc ++ (0 ∷ room))),
          same,
        )
        (run_packet-parsed r is env cmds resps (checked_handle h r) arg_room (crc ++ (0 ∷ room)) w)

  end_of_crc :
      (h : Hup) (args arg_room : List (Option ℕ)) (front room : List ℕ) (w : W)
      → 1 ≤ length room
      → process_hupacket env cmds resps
          (end_of_packet ∷ [])
          (receiving h args arg_room front room)
          w
        ≡ process_data env cmds resps
            (record (receiving h args arg_room front room) { buffer = front ++ (0 ∷ drop 1 room) })
            w
  unfolding process_hupacket
  end_of_crc h args arg_room front [] w fits = absurd (omega arith)
  end_of_crc h args arg_room front (x ∷ room) w fits =
      rw (store-append_head front room x 0) (bind_some _)

  pub crc_bytes :
      (h : Hup) (r : Request) (arg_room : List (Option ℕ)) (crc room : List ℕ) (w : W)
      → All IsText crc
      → suc (length crc) < length room
      → process_hupacket env cmds resps
          (crc_mark ∷ (crc ++ (end_of_packet ∷ [])))
          (receiving
            (record h { id = none; sequence = none })
            (some 0 ∷ pointers r)
            arg_room
            (body r)
            room)
          w
        ≡ process_data env cmds resps
            (arrived (in_state h r crc) r arg_room crc (drop 1 (drop (length crc) (drop 1 room))))
            w
  crc_bytes h r arg_room crc room w text fits =
      let base = record h { id = none; sequence = none } in
      let h' = record base { crc16 = some (length (body r) + 1) } in
      let front = body r ++ (0 ∷ []) in
      let args = some 0 ∷ pointers r in
      crc_byte base args arg_room (body r) room (crc ++ (end_of_packet ∷ [])) w (omega arith)
      ∙ text_bytes env cmds resps h' w args arg_room front (drop 1 room) crc (end_of_packet ∷ [])
          text (omega (arith, length-drop 1 room))
      ∙ end_of_crc h' args arg_room (front ++ crc) (drop (length crc) (drop 1 room)) w
          (omega (arith, length-drop (length crc) (drop 1 room), length-drop 1 room))
      ∙ ap
          (λ b.
            process_data env cmds resps
              (record (arrived (in_state h r crc) r arg_room crc []) { buffer = b }) w)
          (append_assoc front crc _ ∙ append_assoc (body r) (0 ∷ []) _)
