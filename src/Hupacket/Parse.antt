-- ===== src/Hupacket/Parse.antt =====
-- A packet that arrives whole: the strings that the handler finds, and its reset.
use sdkz.Common.{
  ℕ, suc, ◌+◌, ◌≡◌, refl, ap, ◌∙◌, none, some, Option, List, [], ◌∷◌, ◌++◌, append_assoc,
  if◌then◌else◌, ◌>>=◌, length, take-append, All,
}
use sdkz.Common.StringLaws.{Without, string_at-append}
use sdkz.Common.Strings.{string_at}
use sdkz.Hupacket.{Hup, Env, record_mark, id_mark, sequence_mark, reset_hupacket}
use sdkz.Hupacket.Receive.{Handler, dispatch, cut_args, run_packet, process_data}
use sdkz.Hupacket.Packet.{
  Request, IsRequest, IsName, AllOf, id_part, sequence_part, header, body, records, starts,
}
use sdkz.Hupacket.Header.{cut_args-starts}
use sdkz.Hupacket.Split.{
  headed, split_id, split_sequence, id_pointer, sequence_pointer, All-mono, All-append,
  IsName-IsText, IsText-NotNul, IsName-Without_id,
}

-- What follows the header, once the marks are NULs: a NUL first.
abbrev pub after_header : List (List ℕ) → List ℕ → List ℕ
after_header [] rest = rest
after_header (f ∷ fs) rest = (f ++ records 0 fs) ++ (0 ∷ rest)

pub records-after_header :
    (fs : List (List ℕ)) (rest : List ℕ) → records 0 fs ++ (0 ∷ rest) ≡ 0 ∷ after_header fs rest
records-after_header [] rest = refl
records-after_header (f ∷ fs) rest = refl

-- The handle that the handler of a request is given.
abbrev pub parsed : Hup → Request → List (Option ℕ) → List ℕ → Hup
parsed h r more rest =
    let front = id_part r.id 0 in
    headed h more (length front)
      (front ++ (r.command ++ (sequence_part r.sequence 0 ++ (0 ∷ after_header r.fields rest))))
      (id_pointer r.id) (sequence_pointer r.sequence (length front + length r.command + 1))

-- The pointers of the records, and the handle that `process_data` is given.
abbrev pub pointers : Request → List (Option ℕ)
pointers r = starts (length (header r)) r.fields

abbrev pub sized : Hup → Request → Hup
sized h r = record h { argc = suc (length (pointers r)) }

abbrev pub counted : Hup → Request → Hup
counted h r = sized (record h { crc16 = none }) r

pub command_string :
    (front command after : List ℕ) (sequence : Option (List ℕ))
    → All IsName command
    → string_at
        (front ++ (command ++ (sequence_part sequence 0 ++ (0 ∷ after))))
        (some (length front))
      ≡ some command
command_string front command after none names =
    string_at-append front command after
      (All-mono (λ b n. IsText-NotNul b (IsName-IsText b n)) command names)
command_string front command after (some s) names =
    string_at-append front command (s ++ (0 ∷ after))
      (All-mono (λ b n. IsText-NotNul b (IsName-IsText b n)) command names)

no_id_mark :
    (command : List ℕ) (sequence : Option (List ℕ))
    → All IsName command
    → AllOf IsName sequence
    → All (Without id_mark) (command ++ sequence_part sequence sequence_mark)
no_id_mark command none hc hs =
    All-append (Without id_mark) command [] (All-mono IsName-Without_id command hc) tt
no_id_mark command (some s) hc hs =
    All-append (Without id_mark) command (sequence_mark ∷ s) (All-mono IsName-Without_id command hc)
      ((refl, refl), All-mono IsName-Without_id s hs)

module _ (r : Request) (is : IsRequest r) where
  cut_marks :
      (rest : List ℕ)
      → cut_args (pointers r) (body r ++ (0 ∷ rest))
        ≡ some (
            id_part r.id id_mark
            ++ ((r.command ++ sequence_part r.sequence sequence_mark)
                ++ (0 ∷ after_header r.fields rest)))
  cut_marks rest =
      ap (cut_args (pointers r)) (append_assoc (header r) (records record_mark r.fields) (0 ∷ rest))
      ∙ cut_args-starts (header r) r.fields (0 ∷ rest)
      ∙ ap (λ b. some (header r ++ b)) (records-after_header r.fields rest)
      ∙ ap some (
          append_assoc (id_part r.id id_mark) (r.command ++ sequence_part r.sequence sequence_mark)
            (0 ∷ after_header r.fields rest))

  module _ {W : Type 0} (env : Env W) (cmds resps : List (List ℕ × Handler W)) where
    pub run_packet-parsed :
        (h : Hup) (arg_room : List (Option ℕ)) (rest : List ℕ) (w : W)
        → run_packet env cmds resps
            (headed (sized h r) (pointers r ++ arg_room) 0 (body r ++ (0 ∷ rest)) none none)
            w
          ≡ (dispatch
                (if h.response then resps else cmds)
                r.command
                (parsed (sized h r) r (pointers r ++ arg_room) rest)
                w
              >>= λ (h, w). some (reset_hupacket h, w))
    unfolding run_packet
    run_packet-parsed h arg_room rest w = rw (
      take-append (pointers r) arg_room,
      cut_marks rest,
      split_id (sized h r) (pointers r ++ arg_room) (after_header r.fields rest) r.id
          (r.command ++ sequence_part r.sequence sequence_mark) is.id_names
          (λ _. no_id_mark r.command r.sequence is.command_names is.sequence_names),
      split_sequence (sized h r) (pointers r ++ arg_room) (after_header r.fields rest)
          (id_pointer r.id) (id_part r.id 0) r.command r.sequence is.command_names,
      command_string (id_part r.id 0) r.command (after_header r.fields rest) r.sequence
          is.command_names,
    )

    pub process_data-parsed :
        (h : Hup) (arg_room : List (Option ℕ)) (rest : List ℕ) (w : W)
        → process_data env cmds resps
            (headed (counted h r) (pointers r ++ arg_room) 0 (body r ++ (0 ∷ rest)) none none)
            w
          ≡ (dispatch
                (if h.response then resps else cmds)
                r.command
                (parsed (counted h r) r (pointers r ++ arg_room) rest)
                w
              >>= λ (h, w). some (reset_hupacket h, w))
    unfolding process_data
    process_data-parsed h arg_room rest w =
        run_packet-parsed (record h { crc16 = none }) arg_room rest w
