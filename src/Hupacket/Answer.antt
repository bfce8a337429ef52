-- ===== src/Hupacket/Answer.antt =====
-- A command's answer as it is sent, and as the other side receives it.
use sdkz.Common.{
  ℕ, Bool, ◌+◌, ◌≤◌, ◌≡◌, refl, sym, ap, ◌∙◌, Option, none, some, List, [], ◌∷◌, ◌++◌, arith, ◌>>=◌,
  store, length, All,
}
use mathlib.Core.Option.{none-ne-some}
use sdkz.Common.Int.{ℤ, pos}
use sdkz.Common.Strings.{string_at, c_string}
use sdkz.Common.StringLaws.{NotNul, c_string-append}
use sdkz.Hupacket.{
  Hup, Env, arg, ack_of_response, end_of_packet, record_mark, id_mark, sequence_mark,
}
use sdkz.Hupacket.Respond.{
  append_str, append_char, append_field, append_id, append_sequence, append_number, append_crc,
  reset_buffer, append_int, record_int, record_str, ack_response, send_buffer, record_all,
}
use sdkz.Hupacket.Packet.{
  Request, IsRequest, IsText, IsName, AllOf, id_part, sequence_part, header, records, body,
}
use sdkz.Hupacket.Split.{All-mono, IsName-IsText, IsText-NotNul}
use sdkz.Hupacket.Delivered.{Points, Delivers}
use sdkz.Hupacket.Buffer.{
  HasString, Appends, append_str-Appends, append_char-Appends, keep-Appends, bind-Appends,
  less_room,
}

names-NotNul : (s : List ℕ) → All IsName s → All NotNul s
names-NotNul s names = All-mono (λ b h. IsText-NotNul b (IsName-IsText b h)) s names

text-NotNul : (s : List ℕ) → All IsText s → All NotNul s
text-NotNul s text = All-mono IsText-NotNul s text

append_field-Appends :
    (h : Hup) (p : Option ℕ) (s : List ℕ)
    → string_at h.buffer p ≡ some s
    → All NotNul s
    → Appends h (λ h. append_field h p) s
append_field-Appends h p s found clean tx str room has =
    rw found (append_str-Appends h s clean tx str room has)

append_id-Appends :
    (h : Hup) (p : Option ℕ) (id : Option (List ℕ))
    → Points h.buffer p id
    → AllOf IsName id
    → Appends h (λ h. append_id h p) (id_part id id_mark)
append_id-Appends h none none points names = keep-Appends h
append_id-Appends h (some p) none points names = absurd (none-ne-some p (sym points))
append_id-Appends h none (some s) points names = absurd (none-ne-some s points)
append_id-Appends h (some p) (some s) points names =
    bind-Appends h (λ h. append_field h (some p)) (λ h. append_char h id_mark) s (id_mark ∷ [])
      (append_field-Appends h (some p) s points (names-NotNul s names))
      (append_char-Appends h id_mark refl)

append_sequence-Appends :
    (h : Hup) (p : Option ℕ) (sequence : Option (List ℕ))
    → Points h.buffer p sequence
    → AllOf IsName sequence
    → Appends h (λ h. append_sequence h p) (sequence_part sequence sequence_mark)
append_sequence-Appends h none none points names = keep-Appends h
append_sequence-Appends h (some p) none points names = absurd (none-ne-some p (sym points))
append_sequence-Appends h none (some s) points names = absurd (none-ne-some s points)
append_sequence-Appends h (some p) (some s) points names =
    bind-Appends h (λ h. append_char h sequence_mark) (λ h. append_field h (some p))
      (sequence_mark ∷ []) s (append_char-Appends h sequence_mark refl)
      (append_field-Appends h (some p) s points (names-NotNul s names))

record_str-Appends :
    (h : Hup) (str : List ℕ)
    → All IsText str
    → Appends h (λ h. record_str h str) (record_mark ∷ str)
unfolding record_str
record_str-Appends h str text =
    bind-Appends h (λ h. append_char h record_mark) (λ h. append_str h str) (record_mark ∷ []) str
      (append_char-Appends h record_mark refl) (append_str-Appends h str (text-NotNul str text))

-- The parts of the header, from each of them on.
abbrev from_command : Hup → Option Hup
from_command h = append_field h (arg h 0) >>= λ h. append_sequence h h.sequence

abbrev from_id : Hup → Option Hup
from_id h = append_id h h.id >>= from_command

abbrev from_kind : Hup → Option Hup
from_kind h = append_char h ack_of_response >>= from_id

pub record_all-Appends :
    {W : Type 0} (env : Env W) (h : Hup) (strs : List (List ℕ))
    → All (All IsText) strs
    → Appends h (record_all env strs) (records record_mark strs)
record_all-Appends env h [] text = keep-Appends h
record_all-Appends env h (str ∷ strs) (text, texts) =
    bind-Appends h (λ h. record_str h str) (record_all env strs) (record_mark ∷ str)
      (records record_mark strs) (record_str-Appends h str text)
      (record_all-Appends env h strs texts)

-- The answer to a request: its id, command and sequence, and the result before the strings.
abbrev pub answer : Request → List ℕ → List (List ℕ) → Request
answer r digits strs = record r { fields = digits ∷ strs }

abbrev pub packet_of : ℕ → Request → List ℕ
packet_of kind r = kind ∷ (body r ++ (end_of_packet ∷ []))

-- An answer to the request `r`, which the handle `h` delivers.
module _ {W : Type 0} (env : Env W) (r : Request) (response : Bool) (h : Hup) (is : IsRequest r)
    (delivers : Delivers r response h) where
  from_kind-Appends : Appends h from_kind (ack_of_response ∷ header r)
  from_kind-Appends =
      bind-Appends h (λ h. append_char h ack_of_response) from_id (ack_of_response ∷ []) (header r)
        (append_char-Appends h ack_of_response refl)
        (bind-Appends h (λ h. append_id h h.id) from_command (id_part r.id id_mark)
          (r.command ++ sequence_part r.sequence sequence_mark)
          (append_id-Appends h h.id r.id delivers.id is.id_names)
          (bind-Appends h (λ h. append_field h (arg h 0)) (λ h. append_sequence h h.sequence)
            r.command (sequence_part r.sequence sequence_mark)
            (append_field-Appends h (arg h 0) r.command delivers.command
              (names-NotNul r.command is.command_names))
            (append_sequence-Appends h h.sequence r.sequence delivers.sequence is.sequence_names)))

  record_int-Appends :
      (digits : List ℕ)
      → env.itoa (pos 0) 10 ≡ some digits
      → All IsText digits
      → Appends h (λ h. record_int env h (pos 0)) (record_mark ∷ digits)
  unfolding record_int append_int
  record_int-Appends digits prints text =
      bind-Appends h (λ h. append_char h record_mark) (λ h. append_number env h (pos 0) 10)
        (record_mark ∷ []) digits (append_char-Appends h record_mark refl)
        (λ tx s room has.
          rw (prints, append_number)
            (append_str-Appends h digits (text-NotNul digits text) tx s room has))

  -- The buffer is emptied by the NUL in its first byte.
  pub ack_response_lem :
      (digits : List ℕ) (room x : ℕ) (tx : List ℕ)
      → env.itoa (pos 0) 10 ≡ some digits
      → All IsText digits
      → h.tx_buffer ≡ x ∷ tx
      → length ((ack_of_response ∷ header r) ++ (record_mark ∷ digits)) + room ≤ length tx
      → (tx' : List ℕ) × (ack_response env h ≡ some (record h { tx_buffer = tx' }))
        × HasString tx' ((ack_of_response ∷ header r) ++ (record_mark ∷ digits)) room
  unfolding ack_response reset_buffer
  ack_response_lem digits room x tx prints text e fits =
      let (tx', ran, has) =
        bind-Appends h from_kind (λ h. record_int env h (pos 0)) (ack_of_response ∷ header r)
          (record_mark ∷ digits) from_kind-Appends (record_int-Appends digits prints text) (0 ∷ tx)
          [] room (record { rest = tx; split = refl; free = fits; clean = tt }) in
      let emptied =
        ap
          (λ t. (store t 0 0 >>= λ t. from_kind (record h { tx_buffer = t })) >>= λ h.
            record_int env h (pos 0))
          e in
      (tx', emptied ∙ ran, has)

  abbrev sent : W → Hup → List ℕ → Option (ℤ × Hup × W)
  sent w h packet = some ((env.send packet w).0, h, (env.send packet w).1)

  abbrev from_packet : W → Hup → Option (ℤ × Hup × W)
  from_packet w h = c_string h.tx_buffer >>= sent w h

  abbrev from_end : W → Hup → Option (ℤ × Hup × W)
  from_end w h = append_char h end_of_packet >>= from_packet w

  pub send_buffer_lem :
      (tx s : List ℕ) (w : W)
      → HasString tx s 1
      → (tx' : List ℕ) × (send_buffer env (record h { tx_buffer = tx }) w
          ≡ some (
            (env.send (s ++ (end_of_packet ∷ [])) w).0,
            record h { tx_buffer = tx' },
            (env.send (s ++ (end_of_packet ∷ [])) w).1,
          ))
  unfolding send_buffer
  send_buffer_lem tx s w has =
      let (tx', ran, has') =
        append_char-Appends h end_of_packet refl tx s 0 (less_room 1 _ has refl (omega arith)) in
      let reads : c_string tx' ≡ some (s ++ (end_of_packet ∷ [])) =
        ap c_string has'.split ∙ c_string-append _ has'.rest has'.clean in
      (
        tx',
        ap (λ crc. append_crc env (record h { tx_buffer = tx }) crc >>= from_end w) delivers.no_crc
            ∙ (ap (λ o. o >>= from_packet w) ran
                ∙ ap (λ o. o >>= sent w (record h { tx_buffer = tx' })) reads),
      )
