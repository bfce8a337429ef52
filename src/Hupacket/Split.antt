-- ===== src/Hupacket/Split.antt =====
-- The header of a packet, split by the two calls of `seperate_header` in `process_data`.
use sdkz.Common.{
  ℕ, ◌+◌, ◌≡◌, refl, ap, ap₂, ◌∙◌, none, some, Option, List, [], ◌∷◌, ◌++◌, append_assoc,
  append-nil, arith, length, length-append, All,
}
use sdkz.Common.StringLaws.{Without, NotNul}
use sdkz.Hupacket.{Hup, id_mark, sequence_mark}
use sdkz.Hupacket.Receive.{seperate_header, set_id, set_arg0, set_sequence}
use sdkz.Hupacket.Packet.{IsText, IsName, AllOf, id_part, sequence_part}
use sdkz.Hupacket.Header.{seperate_header_found, seperate_header_missing}

pub All-mono : {P Q : ℕ → Type 0} → ((b : ℕ) → P b → Q b) → (xs : List ℕ) → All P xs → All Q xs
All-mono imp [] h = tt
All-mono imp (x ∷ xs) (hx, hs) = (imp x hx, All-mono imp xs hs)

pub All-append : (P : ℕ → Type 0) (xs ys : List ℕ) → All P xs → All P ys → All P (xs ++ ys)
All-append P [] ys h k = k
All-append P (x ∷ xs) ys (hx, hs) k = (hx, All-append P xs ys hs k)

pub IsName-Without_id : (b : ℕ) → IsName b → Without id_mark b
IsName-Without_id b h = ground arith

pub IsName-Without_sequence : (b : ℕ) → IsName b → Without sequence_mark b
IsName-Without_sequence b h = ground arith

pub IsName-IsText : (b : ℕ) → IsName b → IsText b
IsName-IsText b h = ground arith

pub IsText-NotNul : (b : ℕ) → IsText b → NotNul b
IsText-NotNul b h = ground arith

abbrev pub id_pointer : Option (List ℕ) → Option ℕ
id_pointer none = none
id_pointer (some id) = some 0

abbrev pub sequence_pointer : Option (List ℕ) → ℕ → Option ℕ
sequence_pointer none i = none
sequence_pointer (some s) i = some i

-- The handle before and after each call: `more` are the pointers of the records.
abbrev pub headed : Hup → List (Option ℕ) → ℕ → List ℕ → Option ℕ → Option ℕ → Hup
headed h more p buffer id sequence = record h {
  argv = some p ∷ more;
  buffer = buffer;
  id = id;
  sequence = sequence;
}

module _ (h : Hup) (more : List (Option ℕ)) (after : List ℕ) where
  pub split_id :
      (id : Option (List ℕ)) (rest : List ℕ)
      → AllOf IsName id
      → (id ≡ none → All (Without id_mark) rest)
      → seperate_header set_id set_arg0 id_mark
          (headed h more 0 (id_part id id_mark ++ (rest ++ (0 ∷ after))) none none)
        ≡ some (
            headed h more
              (length (id_part id 0))
              (id_part id 0 ++ (rest ++ (0 ∷ after)))
              (id_pointer id)
              none)
  split_id none rest names clean =
      seperate_header_missing set_id set_arg0 id_mark
        (headed h more 0 (rest ++ (0 ∷ after)) none none) [] rest after refl refl refl (clean refl)
  split_id (some id) rest names clean =
      seperate_header_found set_id set_arg0 id_mark
        (headed h more 0 ((id ++ (id_mark ∷ [])) ++ (rest ++ (0 ∷ after))) none none) [] id
        (rest ++ (0 ∷ after)) refl (append_assoc id (id_mark ∷ []) (rest ++ (0 ∷ after)))
        (All-mono IsName-Without_id id names)
      ∙ ap some (cong_headed (omega (arith, length-append id (0 ∷ []))) (rw append_assoc))
    where
      cong_headed :
          {p q : ℕ} {b c : List ℕ}
          → p ≡ q
          → b ≡ c
          → headed h more p b (some 0) none ≡ headed h more q c (some 0) none
      cong_headed e f = ap₂ (λ x y. headed h more x y (some 0) none) e f

  pub split_sequence :
      (id : Option ℕ) (front command : List ℕ) (sequence : Option (List ℕ))
      → All IsName command
      → seperate_header set_arg0 set_sequence sequence_mark (
          headed h more
            (length front)
            (front ++ ((command ++ sequence_part sequence sequence_mark) ++ (0 ∷ after)))
            id
            none)
        ≡ some (
            headed h more
              (length front)
              (front ++ (command ++ (sequence_part sequence 0 ++ (0 ∷ after))))
              id
              (sequence_pointer sequence (length front + length command + 1)))
  split_sequence id front command none names = rw (append-nil command) (
      seperate_header_missing set_arg0 set_sequence sequence_mark
        (headed h more (length front) (front ++ (command ++ (0 ∷ after))) id none) front command
        after refl refl refl (All-mono IsName-Without_sequence command names))
  split_sequence id front command (some s) names =
      seperate_header_found set_arg0 set_sequence sequence_mark
        (headed h more (length front) (front ++ ((command ++ (sequence_mark ∷ s)) ++ (0 ∷ after)))
          id none)
        front command (s ++ (0 ∷ after)) refl
        (ap (λ b. front ++ b) (append_assoc command (sequence_mark ∷ s) (0 ∷ after)))
        (All-mono IsName-Without_sequence command names)
