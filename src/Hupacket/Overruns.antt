-- ===== src/Hupacket/Overruns.antt =====
-- The two places where `process_hupacket` stores outside of its arrays.
use sdkz.Common.{
  ℕ, suc, ◌+◌, ◌≤◌, ◌≡◌, refl, ap, ◌∙◌, true, none, some, Option, List, [], ◌∷◌, ◌++◌, append_assoc,
  arith, length, length-append, length-drop, drop, store,
}
use sdkz.Hupacket.{Hup, Env, max_args, record_mark, end_of_packet}
use sdkz.Hupacket.Receive.{Handler, process_hupacket, is_start}
use sdkz.Hupacket.Packet.{Request, IsRequest, header, body, records}
use sdkz.Hupacket.Collect.{receiving, text_bytes, record_bytes}
use sdkz.Hupacket.Parse.{pointers}
use sdkz.Hupacket.Deliver.{header-IsText, head_of, start_byte, opened}

store_full {ℓ} : {A : Type ℓ} (xs : List A) (v : A) → store (xs ++ []) (length xs) v ≡ none
store_full [] v = refl
store_full (x ∷ xs) v = rw (store_full xs v)

empty_of_length {ℓ} : {A : Type ℓ} (xs : List A) → length xs ≡ 0 → xs ≡ []
empty_of_length [] h = refl
empty_of_length (x ∷ xs) h = absurd (omega arith)

module _ {W : Type 0} (env : Env W) (cmds resps : List (List ℕ × Handler W)) where
  -- The bytes of a body up to where the next one is read.
  body_bytes :
      (r : Request) (kind : ℕ) (rest : List ℕ) (h : Hup) (w : W)
      → IsRequest r
      → is_start kind ≡ true
      → length h.argv ≡ max_args
      → suc (length r.fields) ≤ max_args
      → length (body r) ≤ length h.buffer
      → (more : List (Option ℕ)) × (left : List ℕ) × (suc (length r.fields) + length more
          ≡ max_args)
        × (length (body r) + length left ≡ length h.buffer)
        × (process_hupacket env cmds resps (kind ∷ (body r ++ rest)) h w
            ≡ process_hupacket env cmds resps rest
                (receiving (opened h kind) (some 0 ∷ pointers r) more (body r) left)
                w)
  body_bytes r kind rest h w is start args count fits =
      let (a, more, e) = head_of h.argv (omega arith) in
      let hdr = header r in
      let recs = records record_mark r.fields in
      let room = drop (length hdr) h.buffer in
      let base = opened h kind in
      (
        drop (length r.fields) more,
        drop (length recs) room,
        omega (arith, length-drop (length r.fields) more, ap length e),
        omega (
          arith,
          length-append hdr recs,
          length-drop (length hdr) h.buffer,
          length-drop (length recs) room,
        ),
        start_byte env cmds resps kind (body r ++ rest) h a more w start e
            ∙ ap
                (λ bytes.
                  process_hupacket env cmds resps bytes
                    (receiving base (some 0 ∷ []) more [] h.buffer) w)
                (append_assoc hdr recs rest)
            ∙ text_bytes env cmds resps base w (some 0 ∷ []) more [] h.buffer hdr (recs ++ rest)
                (header-IsText r is) (omega (arith, length-append hdr recs))
            ∙ record_bytes env cmds resps base w r.fields (some 0 ∷ []) more hdr room rest
                is.fields_text
                (omega (arith, length-append hdr recs, length-drop (length hdr) h.buffer))
                (omega (arith, ap length e)),
      )

  mark_full :
      (h : Hup) (args : List (Option ℕ)) (front left rest : List ℕ) (w : W)
      → process_hupacket env cmds resps (record_mark ∷ rest) (receiving h args [] front left) w
        ≡ none
  unfolding process_hupacket
  mark_full h args front left rest w = rw (store_full args (some (length front + 1)))

  end_full :
      (h : Hup) (args more : List (Option ℕ)) (front rest : List ℕ) (w : W)
      → process_hupacket env cmds resps (end_of_packet ∷ rest) (receiving h args more front []) w
        ≡ none
  unfolding process_hupacket
  end_full h args more front rest w = rw (store_full front 0)

  -- A 64th record overruns `argv`: its RECORD_MARK stores a pointer behind the 64 entries,
  -- whatever the handle held and whatever follows.
  pub process_hupacket_too_many :
      (r : Request) (kind : ℕ) (rest : List ℕ) (h : Hup) (w : W)
      → IsRequest r
      → is_start kind ≡ true
      → length h.argv ≡ max_args
      → suc (length r.fields) ≡ max_args
      → length (body r) ≤ length h.buffer
      → process_hupacket env cmds resps (kind ∷ (body r ++ (record_mark ∷ rest))) h w ≡ none
  process_hupacket_too_many r kind rest h w is start args count fits =
      let (more, left, size, _, e) =
        body_bytes r kind (record_mark ∷ rest) h w is start args (omega arith) fits in
      e
      ∙ ap
          (λ m.
            process_hupacket env cmds resps (record_mark ∷ rest)
              (receiving (opened h kind) (some 0 ∷ pointers r) m (body r) left) w)
          (empty_of_length more (omega arith))
      ∙ mark_full (opened h kind) (some 0 ∷ pointers r) (body r) left rest w

  -- A body that fills `buffer` exactly overruns it: the end byte stores a NUL behind the last byte.
  pub process_hupacket_exact_fit :
      (r : Request) (kind : ℕ) (rest : List ℕ) (h : Hup) (w : W)
      → IsRequest r
      → is_start kind ≡ true
      → length h.argv ≡ max_args
      → suc (length r.fields) ≤ max_args
      → length (body r) ≡ length h.buffer
      → process_hupacket env cmds resps (kind ∷ (body r ++ (end_of_packet ∷ rest))) h w ≡ none
  process_hupacket_exact_fit r kind rest h w is start args count fits =
      let (more, left, _, size, e) =
        body_bytes r kind (end_of_packet ∷ rest) h w is start args count (omega arith) in
      e
      ∙ ap
          (λ l.
            process_hupacket env cmds resps (end_of_packet ∷ rest)
              (receiving (opened h kind) (some 0 ∷ pointers r) more (body r) l) w)
          (empty_of_length left (omega arith))
      ∙ end_full (opened h kind) (some 0 ∷ pointers r) more (body r) rest w
