-- ===== src/Hupacket/Collect.antt =====
-- The bytes of a packet's body as `process_hupacket` collects them.
use native.Mathlib.Numerals.{add-one}
use sdkz.Common.{
  ℕ, suc, ◌+◌, ◌≤◌, ◌≡◌, ap, ◌∙◌, false, some, Option, List, [], ◌∷◌, ◌++◌, append_assoc,
  append-nil, arith, ◌==◌, lt→ltb, length, length-append, drop, drop-drop, ap₂, length-drop, All,
  store-append_head,
}
use sdkz.Hupacket.{Hup, Env, record_mark, end_of_packet, crc_mark}
use sdkz.Hupacket.Receive.{Handler, process_hupacket, is_start}
use sdkz.Hupacket.Packet.{IsText, records, starts}

-- A handle in the middle of a packet: `args` and `front` are there, `arg_room` and `room` follow.
abbrev pub receiving : Hup → List (Option ℕ) → List (Option ℕ) → List ℕ → List ℕ → Hup
receiving h args arg_room front room = record h {
  argc = length args;
  argv = args ++ arg_room;
  buffer = front ++ room;
  state = some (length front);
}

text_tests :
    (b : ℕ)
    → IsText b
    → (is_start b ≡ false)
      × ((b == end_of_packet) ≡ false)
      × ((b == crc_mark) ≡ false)
      × ((b == record_mark) ≡ false)
text_tests b text = ground arith

module _ {W : Type 0} (env : Env W) (cmds resps : List (List ℕ × Handler W)) (h : Hup) (w : W) where
  abbrev run : List ℕ → Hup → Option (Hup × W)
  run bytes h = process_hupacket env cmds resps bytes h w

  text_byte :
      (args arg_room : List (Option ℕ)) (front room rest : List ℕ) (b : ℕ)
      → IsText b
      → 1 ≤ length room
      → run (b ∷ rest) (receiving h args arg_room front room)
        ≡ run rest (receiving h args arg_room (front ++ (b ∷ [])) (drop 1 room))
  unfolding process_hupacket
  text_byte args arg_room front [] rest b text fits = absurd (omega arith)
  text_byte args arg_room front (x ∷ room) rest b text fits =
      let (start, end, crc, mark) = text_tests b text in
      rw (
        start,
        end,
        crc,
        mark,
        lt→ltb (length front) (length (front ++ (x ∷ room)))
            (omega (arith, length-append front (x ∷ room))),
        store-append_head front room x b,
        append_assoc,
        length-append,
      )

  pub text_bytes :
      (args arg_room : List (Option ℕ)) (front room text rest : List ℕ)
      → All IsText text
      → length text ≤ length room
      → run (text ++ rest) (receiving h args arg_room front room)
        ≡ run rest (receiving h args arg_room (front ++ text) (drop (length text) room))
  text_bytes args arg_room front room [] rest h fits = rw append-nil
  text_bytes args arg_room front [] (b ∷ text) rest (hb, ht) fits = absurd (omega arith)
  text_bytes args arg_room front (x ∷ room) (b ∷ text) rest (hb, ht) fits =
      text_byte args arg_room front (x ∷ room) (text ++ rest) b hb (omega arith)
      ∙ text_bytes args arg_room (front ++ (b ∷ [])) room text rest ht (omega arith)
      ∙ rw append_assoc

  mark_byte :
      (args arg_room : List (Option ℕ)) (front room rest : List ℕ)
      → 1 ≤ length room
      → 1 ≤ length arg_room
      → run (record_mark ∷ rest) (receiving h args arg_room front room)
        ≡ run rest (
            receiving h
              (args ++ (some (suc (length front)) ∷ []))
              (drop 1 arg_room)
              (front ++ (record_mark ∷ []))
              (drop 1 room))
  unfolding process_hupacket
  mark_byte args [] front room rest fits args_fit = absurd (omega arith)
  mark_byte args (a ∷ arg_room) front [] rest fits args_fit = absurd (omega arith)
  mark_byte args (a ∷ arg_room) front (x ∷ room) rest fits args_fit = rw (
    store-append_head args arg_room a (some (length front + 1)),
    lt→ltb (length front) (length (front ++ (x ∷ room)))
        (omega (arith, length-append front (x ∷ room))),
    store-append_head front room x record_mark,
    append_assoc,
    length-append,
    append_assoc,
    length-append,
    add-one (length front),
  )

  pub record_bytes :
      (fs : List (List ℕ)) (args arg_room : List (Option ℕ)) (front room rest : List ℕ)
      → All (All IsText) fs
      → length (records record_mark fs) ≤ length room
      → length fs ≤ length arg_room
      → run (records record_mark fs ++ rest) (receiving h args arg_room front room)
        ≡ run rest (
            receiving h
              (args ++ starts (length front) fs)
              (drop (length fs) arg_room)
              (front ++ records record_mark fs)
              (drop (length (records record_mark fs)) room))
  record_bytes [] args arg_room front room rest text fits args_fit = rw (append-nil, append-nil)
  record_bytes (f ∷ fs) args [] front room rest (hf, hfs) fits args_fit = absurd (omega arith)
  record_bytes (f ∷ fs) args (a ∷ arg_room) front [] rest (hf, hfs) fits args_fit =
      absurd (omega arith)
  record_bytes (f ∷ fs) args (a ∷ arg_room) front (x ∷ room) rest (hf, hfs) fits args_fit =
      let recs = records record_mark fs in
      let args' = args ++ (some (suc (length front)) ∷ []) in
      let front' = front ++ (record_mark ∷ []) in
      let sizes = length-append f recs in
      ap (λ bytes. run (record_mark ∷ bytes) (receiving h args (a ∷ arg_room) front (x ∷ room)))
        (append_assoc f recs rest)
      ∙ mark_byte args (a ∷ arg_room) front (x ∷ room) (f ++ (recs ++ rest)) (omega arith)
          (omega arith)
      ∙ text_bytes args' arg_room front' room f (recs ++ rest) hf (omega arith)
      ∙ record_bytes fs args' arg_room (front' ++ f) (drop (length f) room) rest hfs
          (omega (arith, length-drop (length f) room)) (omega arith)
      ∙ rw (drop-drop f recs room) (
          ap₂
            (λ xs bs.
              run rest
                (receiving h xs (drop (length fs) arg_room) bs (drop (length (f ++ recs)) room)))
            (rw (append_assoc, length-append, length-append)
              (ap (λ n. args ++ (some (suc (length front)) ∷ starts n fs)) (omega arith)))
            (rw (append_assoc, append_assoc)))
