-- ===== src/Hupacket/Delivered.antt =====
-- What a handler reads through the handle of a request that was parsed.
use sdkz.Common.{
  ℕ, zero, suc, ◌+◌, ◌<◌, ◌≡◌, refl, ap, ap₂, ◌∙◌, Bool, none, some, Option, List, [], ◌∷◌, ◌++◌,
  append_assoc, arith, length, length-append, get_elem?, All, sym,
}
use sdkz.Common.StringLaws.{NotNul, string_at-append, c_string-append}
use sdkz.Common.Strings.{string_at, c_string}
use sdkz.Hupacket.{Hup, arg, id_mark, sequence_mark}
use sdkz.Hupacket.Packet.{
  Request, IsRequest, IsText, IsName, AllOf, id_part, sequence_part, header, records, starts,
}
use sdkz.Hupacket.Split.{id_pointer, sequence_pointer, All-mono, IsName-IsText, IsText-NotNul}
use sdkz.Hupacket.Parse.{
  parsed, counted, pointers, after_header, records-after_header, command_string,
}

-- NULL where there is no string, and else a pointer to it.
abbrev pub Points : List ℕ → Option ℕ → Option (List ℕ) → Type 0
Points buffer p none = p ≡ none
Points buffer p (some s) = string_at buffer p ≡ some s

pub record Delivers (r : Request) (response : Bool) (h : Hup) : Type 0 where
  pub id : Points h.buffer h.id r.id
  pub command : string_at h.buffer (arg h 0) ≡ some r.command
  pub sequence : Points h.buffer h.sequence r.sequence
  pub count : h.argc ≡ suc (length r.fields)
  pub fields :
      (i : ℕ) → i < length r.fields → string_at h.buffer (arg h (suc i)) ≡ get_elem? r.fields i
  pub kind : h.response ≡ response
  pub no_crc : h.crc16 ≡ none

length-starts : (k : ℕ) (fs : List (List ℕ)) → length (starts k fs) ≡ length fs
length-starts k [] = refl
length-starts k (f ∷ fs) = ap suc (length-starts (suc (k + length f)) fs)

abbrev pointer_at : List (Option ℕ) → ℕ → Option ℕ
pointer_at ps i = elim (get_elem? ps i) [ none ↦ none | some p ↦ p ]

string_here :
    (b : List ℕ) (n : ℕ) (front s after : List ℕ)
    → b ≡ front ++ (s ++ (0 ∷ after))
    → n ≡ length front
    → All NotNul s
    → string_at b (some n) ≡ some s
string_here b n front s after e f clean = rw (e, f) (string_at-append front s after clean)

record_string :
    (front : List ℕ) (fs : List (List ℕ)) (more : List (Option ℕ)) (rest : List ℕ) (i : ℕ)
    → All (All IsText) fs
    → i < length fs
    → string_at
        (front ++ (records 0 fs ++ (0 ∷ rest)))
        (pointer_at (starts (length front) fs ++ more) i)
      ≡ get_elem? fs i
record_string front [] more rest i text h = absurd (omega arith)
record_string front (f ∷ fs) more rest zero (hf, hfs) h =
    string_here (front ++ (records 0 (f ∷ fs) ++ (0 ∷ rest))) (suc (length front))
      (front ++ (0 ∷ [])) f (after_header fs rest) (simp (append_assoc, records-after_header))
      (omega (arith, length-append front (0 ∷ []))) (All-mono IsText-NotNul f hf)
record_string front (f ∷ fs) more rest (suc i) (hf, hfs) h =
    ap₂ (λ b n. string_at b (pointer_at (starts n fs ++ more) i)) (simp append_assoc)
      (omega (arith, length-append front (0 ∷ f)))
    ∙ record_string (front ++ (0 ∷ f)) fs more rest i hfs (omega arith)

text_of_names : (s : List ℕ) → All IsName s → All NotNul s
text_of_names = All-mono (λ b n. IsText-NotNul b (IsName-IsText b n))

length-id_part : (id : Option (List ℕ)) (m n : ℕ) → length (id_part id m) ≡ length (id_part id n)
length-id_part none m n = refl
length-id_part (some s) m n = omega (arith, length-append s (m ∷ []), length-append s (n ∷ []))

length-sequence_part :
    (q : Option (List ℕ)) (m n : ℕ) → length (sequence_part q m) ≡ length (sequence_part q n)
length-sequence_part none m n = refl
length-sequence_part (some s) m n = refl

module _ (command after : List ℕ) where
  id_string :
      (id : Option (List ℕ)) (rest : List ℕ)
      → AllOf IsName id
      → Points (id_part id 0 ++ rest) (id_pointer id) id
  id_string none rest names = refl
  id_string (some s) rest names =
      ap c_string (append_assoc s (0 ∷ []) rest) ∙ c_string-append s rest (text_of_names s names)

  sequence_string :
      (front : List ℕ) (q : Option (List ℕ))
      → AllOf IsName q
      → Points
          (front ++ (command ++ (sequence_part q 0 ++ (0 ∷ after))))
          (sequence_pointer q (length front + length command + 1))
          q
  sequence_string front none names = refl
  sequence_string front (some s) names =
      string_here (front ++ (command ++ (sequence_part (some s) 0 ++ (0 ∷ after))))
        (length front + length command + 1) (front ++ (command ++ (0 ∷ []))) s after
        (simp append_assoc)
        (omega (arith, length-append front (command ++ (0 ∷ [])), length-append command (0 ∷ [])))
        (text_of_names s names)

-- The header with NULs for its marks is as long as the header.
length-zero_header :
    (r : Request)
    → length (id_part r.id 0 ++ (r.command ++ sequence_part r.sequence 0)) ≡ length (header r)
length-zero_header r =
    simp length-append (
      omega (arith, length-id_part r.id 0 id_mark, length-sequence_part r.sequence 0 sequence_mark))

pub parsed-Delivers :
    (r : Request) (h : Hup) (more : List (Option ℕ)) (rest : List ℕ)
    → IsRequest r
    → Delivers r h.response (parsed (counted h r) r (pointers r ++ more) rest)
parsed-Delivers r h more rest is = record {
  id = id_string r.command rest r.id _ is.id_names;
  command =
      command_string (id_part r.id 0) r.command (after_header r.fields rest) r.sequence
        is.command_names;
  sequence =
      sequence_string r.command (after_header r.fields rest) (id_part r.id 0) r.sequence
        is.sequence_names;
  count = ap suc (length-starts (length (header r)) r.fields);
  fields = λ i below.
      ap₂ (λ b n. string_at b (pointer_at (starts n r.fields ++ more) i))
        (simp (append_assoc, records-after_header)) (sym (length-zero_header r))
      ∙ record_string (id_part r.id 0 ++ (r.command ++ sequence_part r.sequence 0)) r.fields more
          rest i is.fields_text below;
  kind = refl;
  no_crc = refl;
}
