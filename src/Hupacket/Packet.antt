-- ===== src/Hupacket/Packet.antt =====
-- Packets as hupacket.c's header describes them: a kind, a header `id@command:sequence` whose id
-- and sequence may be left out, and records. What a NUL in place of each mark leaves of them.
use sdkz.Common.{
  ℕ, suc, ◌+◌, ◌≡◌, Bool, true, not, ◌&&◌, ◌||◌, Option, none, some, List, [], ◌∷◌, ◌++◌, ◌==◌,
  length, All,
}
use sdkz.Hupacket.{end_of_packet, crc_mark, record_mark, id_mark, sequence_mark}
use sdkz.Hupacket.Receive.{is_start}

-- A byte that is neither NUL nor a mark of the framing.
abbrev pub is_text : ℕ → Bool
is_text b =
    not (is_start b || (b == 0 || (b == end_of_packet || (b == crc_mark || b == record_mark))))

abbrev pub IsText : ℕ → Type 0
IsText b = is_text b ≡ true

-- A byte of the header's parts.
abbrev pub IsName : ℕ → Type 0
IsName b = (is_text b && not (b == id_mark || b == sequence_mark)) ≡ true

abbrev pub AllOf : (ℕ → Type 0) → Option (List ℕ) → Type 0
AllOf P none = Unit
AllOf P (some s) = All P s

abbrev pub id_part : Option (List ℕ) → ℕ → List ℕ
id_part none mark = []
id_part (some id) mark = id ++ (mark ∷ [])

abbrev pub sequence_part : Option (List ℕ) → ℕ → List ℕ
sequence_part none mark = []
sequence_part (some sequence) mark = mark ∷ sequence

abbrev pub records : ℕ → List (List ℕ) → List ℕ
records mark [] = []
records mark (f ∷ fs) = mark ∷ (f ++ records mark fs)

pub record Request : Type 0 where
  pub id : Option (List ℕ)
  pub command : List ℕ
  pub sequence : Option (List ℕ)
  pub fields : List (List ℕ)

abbrev pub header : Request → List ℕ
header r = id_part r.id id_mark ++ (r.command ++ sequence_part r.sequence sequence_mark)

-- The bytes between the start byte and the end byte.
abbrev pub body : Request → List ℕ
body r = header r ++ records record_mark r.fields

pub record IsRequest (r : Request) : Type 0 where
  pub id_names : AllOf IsName r.id
  pub command_names : All IsName r.command
  pub sequence_names : AllOf IsName r.sequence
  pub fields_text : All (All IsText) r.fields

-- The pointers that RECORD_MARKs leave in argv, for records that begin at index `k`.
abbrev pub starts : ℕ → List (List ℕ) → List (Option ℕ)
starts k [] = []
starts k (f ∷ fs) = some (suc k) ∷ starts (suc (k + length f)) fs
