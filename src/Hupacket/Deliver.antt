-- ===== src/Hupacket/Deliver.antt =====
-- A whole packet given to `process_hupacket`, byte after byte.
use sdkz.Common.{
  ℕ, suc, ◌+◌, ◌≤◌, ◌<◌, ◌≡◌, refl, ap, ◌∙◌, not, true, none, some, Option, List, [], ◌∷◌, ◌++◌,
  append_assoc, arith, ◌==◌, if◌then◌else◌, ◌>>=◌, length, length-append, drop, length-drop,
  store-append_head, All,
}
use sdkz.Hupacket.{
  Hup, Env, max_args, record_mark, enq_of_command, end_of_packet, reset_hupacket, id_mark,
  sequence_mark,
}
use sdkz.Hupacket.Receive.{Handler, dispatch, process_hupacket, is_start}
use sdkz.Hupacket.Packet.{
  Request, IsRequest, IsText, IsName, header, body, records, AllOf, sequence_part, id_part,
}
use sdkz.Hupacket.Split.{All-mono, All-append, IsName-IsText}
use sdkz.Hupacket.Collect.{receiving, text_bytes, record_bytes}
use sdkz.Hupacket.Parse.{process_data-parsed, pointers, counted, parsed}
use sdkz.Hupacket.Delivered.{Delivers, parsed-Delivers}

pub header-IsText : (r : Request) → IsRequest r → All IsText (header r)
header-IsText r is = All-append IsText (id_part r.id id_mark) _ (id_text r.id is.id_names) (
    All-append IsText r.command _ (All-mono IsName-IsText r.command is.command_names)
      (sequence_text r.sequence is.sequence_names))
  where
    id_text : (id : Option (List ℕ)) → AllOf IsName id → All IsText (id_part id id_mark)
    id_text none names = tt
    id_text (some s) names =
        All-append IsText s (id_mark ∷ []) (All-mono IsName-IsText s names) (refl, tt)

    sequence_text :
        (q : Option (List ℕ)) → AllOf IsName q → All IsText (sequence_part q sequence_mark)
    sequence_text none names = tt
    sequence_text (some s) names = (refl, All-mono IsName-IsText s names)

bind_some : {A B : Type 0} (o : Option (A × B)) → (o >>= λ (a, b). some (a, b)) ≡ o
bind_some none = refl
bind_some (some p) = refl

pub head_of : {A : Type 0} (xs : List A) → 1 ≤ length xs → (x : A) × (ys : List A) × (xs ≡ x ∷ ys)
head_of [] h = absurd (omega arith)
head_of (x ∷ xs) h = (x, xs, refl)

-- The handle behind the start byte.
abbrev pub opened : Hup → ℕ → Hup
opened h kind = record (reset_hupacket h) { response = not (kind == enq_of_command) }

module _ {W : Type 0} (env : Env W) (cmds resps : List (List ℕ × Handler W)) where
  pub start_byte :
      (kind : ℕ) (bytes : List ℕ) (h : Hup) (a : Option ℕ) (more : List (Option ℕ)) (w : W)
      → is_start kind ≡ true
      → h.argv ≡ a ∷ more
      → process_hupacket env cmds resps (kind ∷ bytes) h w
        ≡ process_hupacket env cmds resps bytes
            (receiving (opened h kind) (some 0 ∷ []) more [] h.buffer)
            w
  unfolding process_hupacket reset_hupacket
  start_byte kind bytes h a more w start args = rw (start, args)

  end_byte :
      (r : Request) (h : Hup) (arg_room : List (Option ℕ)) (room : List ℕ) (w : W)
      → IsRequest r
      → 1 ≤ length room
      → process_hupacket env cmds resps
          (end_of_packet ∷ [])
          (receiving
            (record h { id = none; sequence = none; crc16 = none })
            (some 0 ∷ pointers r)
            arg_room
            (body r)
            room)
          w
        ≡ (dispatch
              (if h.response then resps else cmds)
              r.command
              (parsed
                (counted (record h { state = some (length (body r)) }) r)
                r
                (pointers r ++ arg_room)
                (drop 1 room))
              w
            >>= λ (h, w). some (reset_hupacket h, w))
  unfolding process_hupacket
  end_byte r h arg_room [] w is fits = absurd (omega arith)
  end_byte r h arg_room (x ∷ room) w is fits =
      rw
        (
          store-append_head (body r) room x 0,
          process_data-parsed r is env cmds resps (record h { state = some (length (body r)) })
              arg_room room w,
        )
        (bind_some _)

  -- The start byte and the body, whatever follows.
  pub body_bytes :
      (r : Request) (kind : ℕ) (tail : List ℕ) (h : Hup) (w : W)
      → IsRequest r
      → is_start kind ≡ true
      → length h.argv ≡ max_args
      → suc (length r.fields) ≤ max_args
      → length (body r) ≤ length h.buffer
      → (arg_room : List (Option ℕ)) × (room : List ℕ) × (length room + length (body r)
          ≡ length h.buffer)
        × (process_hupacket env cmds resps (kind ∷ (body r ++ tail)) h w
            ≡ process_hupacket env cmds resps tail
                (receiving (opened h kind) (some 0 ∷ pointers r) arg_room (body r) room)
                w)
  body_bytes r kind tail h w is start args count fits =
      let (a, more, e) = head_of h.argv (omega arith) in
      let base = opened h kind in
      let hdr = header r in
      let recs = records record_mark r.fields in
      let room = drop (length hdr) h.buffer in
      (
        drop (length r.fields) more,
        drop (length recs) room,
        omega (
          arith,
          length-append hdr recs,
          length-drop (length hdr) h.buffer,
          length-drop (length recs) room,
        ),
        start_byte kind (body r ++ tail) h a more w start e
            ∙ ap
                (λ bytes.
                  process_hupacket env cmds resps bytes
                    (receiving base (some 0 ∷ []) more [] h.buffer) w)
                (append_assoc hdr recs tail)
            ∙ text_bytes env cmds resps base w (some 0 ∷ []) more [] h.buffer hdr (recs ++ tail)
                (header-IsText r is) (omega (arith, length-append hdr recs))
            ∙ record_bytes env cmds resps base w r.fields (some 0 ∷ []) more hdr room tail
                is.fields_text
                (omega (arith, length-append hdr recs, length-drop (length hdr) h.buffer))
                (omega (arith, ap length e)),
      )

  -- The handle that the handler is given, which keeps the buffer of the response.
  pub process_hupacket-given :
      (r : Request) (kind : ℕ) (h : Hup) (w : W)
      → IsRequest r
      → is_start kind ≡ true
      → length h.argv ≡ max_args
      → suc (length r.fields) ≤ max_args
      → length (body r) < length h.buffer
      → (given : Hup) × Delivers r (not (kind == enq_of_command)) given
        × (given.tx_buffer ≡ h.tx_buffer)
        × (process_hupacket env cmds resps (kind ∷ (body r ++ (end_of_packet ∷ []))) h w ≡ (
            dispatch (if not (kind == enq_of_command) then resps else cmds) r.command given w
            >>= λ (h, w). some (reset_hupacket h, w)))
  unfolding reset_hupacket
  process_hupacket-given r kind h w is start args count fits =
      let (arg_room, room, left, ran) =
        body_bytes r kind (end_of_packet ∷ []) h w is start args count (omega arith) in
      let base = opened h kind in
      let sized = record base { state = some (length (body r)) } in
      (
        parsed (counted sized r) r (pointers r ++ arg_room) (drop 1 room),
        parsed-Delivers r sized arg_room (drop 1 room) is,
        refl,
        ran ∙ end_byte r base arg_room room w is (omega arith),
      )

  -- A request that fits the buffer and argv, given byte by byte behind a start byte: the first
  -- registered handler of its command runs on a handle through which it reads the id, the
  -- sequence, the command and every record, each where the request has it; then the handle is
  -- reset. What the handle held before does not matter.
  pub process_hupacket-Delivers :
      (r : Request) (kind : ℕ) (h : Hup) (w : W)
      → IsRequest r
      → is_start kind ≡ true
      → length h.argv ≡ max_args
      → suc (length r.fields) ≤ max_args
      → length (body r) < length h.buffer
      → (given : Hup) × Delivers r (not (kind == enq_of_command)) given
        × (process_hupacket env cmds resps (kind ∷ (body r ++ (end_of_packet ∷ []))) h w ≡ (
            dispatch (if not (kind == enq_of_command) then resps else cmds) r.command given w
            >>= λ (h, w). some (reset_hupacket h, w)))
  process_hupacket-Delivers r kind h w is start args count fits =
      let (given, delivers, same, ran) =
        process_hupacket-given r kind h w is start args count fits in
      (given, delivers, ran)
