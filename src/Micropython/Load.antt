-- ===== src/Micropython/Load.antt =====
-- What a file that is imported comes to, and what is left of it.
use sdkz.Common.{
  ℕ, zero, suc, ◌≡◌, refl, ap, ◌∙◌, false, Option, none, some, List, [], ◌∷◌, length, Option-cases,
  inl, inr,
}
use sdkz.Common.Int.{ℤ, pos, eq_ℤ}
use sdkz.Micropython.{
  FileSystem, Outcome, returned, raised, mp_eio, mp_enoent, file_readbyte, file_close, opened,
  lexer_new_from_file,
}

-- The calls as <zephyr/fs/fs.h> and the interpreter have them: `objects` are the file objects that
-- exist, the last one first, `files` those that are open, and `rest` is what is still to be read
-- of an open file. `contents` is what a name stands for.
pub record IsFs {W : Type 0} (fs : FileSystem W) (objects files : W → List ℕ)
    (rest : ℕ → W → List ℕ) (contents : List ℕ → W → Option (List ℕ)) : Type 0 where
  pub new_objects : (w : W) → objects (fs.new_obj w).1 ≡ (fs.new_obj w).0 ∷ objects w
  pub new_files : (w : W) → files (fs.new_obj w).1 ≡ files w
  pub new_contents : (n : List ℕ) (w : W) → contents n (fs.new_obj w).1 ≡ contents n w
  pub del_objects : (f : ℕ) (l : List ℕ) (w : W) → objects w ≡ f ∷ l → objects (fs.del_obj f w) ≡ l
  pub del_files : (f : ℕ) (w : W) → files (fs.del_obj f w) ≡ files w
  pub init_objects : (f : ℕ) (w : W) → objects (fs.init f w) ≡ objects w
  pub init_files : (f : ℕ) (w : W) → files (fs.init f w) ≡ files w
  pub init_contents : (f : ℕ) (n : List ℕ) (w : W) → contents n (fs.init f w) ≡ contents n w
  pub open_objects : (f : ℕ) (n : List ℕ) (w : W) → objects (fs.open_read f n w).1 ≡ objects w
  pub open_missing :
      (f : ℕ) (n : List ℕ) (w : W)
      → contents n w ≡ none
      → (eq_ℤ (fs.open_read f n w).0 (pos 0) ≡ false) × (files (fs.open_read f n w).1 ≡ files w)
  pub open_found :
      (f : ℕ) (n bytes : List ℕ) (w : W)
      → contents n w ≡ some bytes
      → ((fs.open_read f n w).0 ≡ pos 0)
        × (files (fs.open_read f n w).1 ≡ f ∷ files w)
        × (rest f (fs.open_read f n w).1 ≡ bytes)
  pub read_end :
      (f : ℕ) (w : W)
      → rest f w ≡ []
      → ((fs.read f 1 w).0 ≡ pos 0)
        × (objects (fs.read f 1 w).2 ≡ objects w)
        × (files (fs.read f 1 w).2 ≡ files w)
  pub read_byte :
      (f b : ℕ) (l : List ℕ) (w : W)
      → rest f w ≡ b ∷ l
      → ((fs.read f 1 w).0 ≡ pos 1)
        × ((fs.read f 1 w).1 ≡ b)
        × (rest f (fs.read f 1 w).2 ≡ l)
        × (objects (fs.read f 1 w).2 ≡ objects w)
        × (files (fs.read f 1 w).2 ≡ files w)
  pub close_objects : (f : ℕ) (w : W) → objects (fs.close f w).1 ≡ objects w
  pub close_files :
      (f : ℕ) (l : List ℕ) (w : W)
      → files w ≡ f ∷ l
      → ((fs.close f w).0 ≡ pos 0) × (files (fs.close f w).1 ≡ l)

-- What the interpreter does with a reader: it reads bytes up to the end, and closes it. The fuel
-- is a call for each byte and one for the end.
abbrev pub consed : {W : Type 0} → ℕ → Outcome (List ℕ) × W → Outcome (List ℕ) × W
consed b (returned bytes, w) = (returned (b ∷ bytes), w)
consed b (raised e, w) = (raised e, w)

module _ {W : Type 0} (fs : FileSystem W) where
  abbrev pub read_next :
      (ℕ → W → Outcome (List ℕ) × W) → Outcome (Option ℕ) × W → Outcome (List ℕ) × W
  read_next more (returned none, w) = (returned [], w)
  read_next more (returned (some b), w) = more b w
  read_next more (raised e, w) = (raised e, w)

  abbrev pub read_all : ℕ → ℕ → W → Outcome (List ℕ) × W
  read_all zero file w = (raised mp_eio, w)
  read_all (suc fuel) file w =
      read_next (λ b w. consed b (read_all fuel file w)) (file_readbyte fs file w)

  abbrev pub close_read : ℕ → Outcome (List ℕ) × W → Outcome (List ℕ) × W
  close_read file (bytes, w) = let (closed, w') = file_close fs file w in (bytes, w')

  abbrev pub read_lexer : ℕ → Outcome ℕ × W → Outcome (List ℕ) × W
  read_lexer fuel (returned file, w) = close_read file (read_all fuel file w)
  read_lexer fuel (raised e, w) = (raised e, w)

-- `none` is a name that stands for nothing.
abbrev pub outcome_of : Option (List ℕ) → Outcome (List ℕ)
outcome_of none = raised mp_enoent
outcome_of (some bytes) = returned bytes

abbrev pub fuel_of : Option (List ℕ) → ℕ
fuel_of none = 0
fuel_of (some bytes) = suc (length bytes)

module _ {W : Type 0} (fs : FileSystem W) (objects files : W → List ℕ) (rest : ℕ → W → List ℕ)
    (contents : List ℕ → W → Option (List ℕ)) (is_fs : IsFs fs objects files rest contents) where
  -- With the file open and its object the last one, it is read to the end.
  read_all-rest :
      (file : ℕ) (bytes : List ℕ) (w : W)
      → rest file w ≡ bytes
      → (w' : W) × (read_all fs (suc (length bytes)) file w ≡ (returned bytes, w'))
        × (objects w' ≡ objects w)
        × (files w' ≡ files w)
  unfolding file_readbyte
  read_all-rest file [] w left =
      let (ended, o, f) = is_fs.read_end file w left in
      ((fs.read file 1 w).2, rw (file_readbyte, ended) refl, o, f)
  read_all-rest file (b ∷ bytes) w left =
      let (ok, same, left', o, f) = is_fs.read_byte file b bytes w left in
      let (w', all, o', f') = read_all-rest file bytes (fs.read file 1 w).2 left' in
      (w', rw (file_readbyte, ok, same, all) refl, o' ∙ o, f' ∙ f)

  -- What is left of a file that was there, and the bytes of it.
  abbrev pub Leaves : List ℕ → List ℕ → Outcome (List ℕ) → Outcome (List ℕ) × W → Type 0
  Leaves os fs' outcome r = (r.0 ≡ outcome) × (objects r.1 ≡ os) × (files r.1 ≡ fs')

  close_read-Leaves :
      (file : ℕ) (os fs' bytes : List ℕ) (w : W)
      → objects w ≡ file ∷ os
      → files w ≡ file ∷ fs'
      → Leaves os fs' (returned bytes) (close_read fs file (returned bytes, w))
  unfolding file_close
  close_read-Leaves file os fs' bytes w held open_file =
      let (ok, closed) = is_fs.close_files file fs' w open_file in
      let w1 = (fs.close file w).1 in
      (
        refl,
        is_fs.del_objects file os w1 (is_fs.close_objects file w ∙ held),
        is_fs.del_files file w1 ∙ closed,
      )

  found-Leaves :
      (file : ℕ) (os fs' bytes : List ℕ) (r : ℤ × W)
      → r.0 ≡ pos 0
      → rest file r.1 ≡ bytes
      → objects r.1 ≡ file ∷ os
      → files r.1 ≡ file ∷ fs'
      → Leaves os fs' (returned bytes) (read_lexer fs (suc (length bytes)) (opened fs file r))
  found-Leaves file os fs' bytes (ret, w) ok left held open_file =
      let (w', all, o, f) = read_all-rest file bytes w left in
      rw (ok, all) (close_read-Leaves file os fs' bytes w' (o ∙ held) (f ∙ open_file))

  missing-Leaves :
      (file : ℕ) (os fs' : List ℕ) (r : ℤ × W)
      → eq_ℤ r.0 (pos 0) ≡ false
      → objects r.1 ≡ file ∷ os
      → files r.1 ≡ fs'
      → Leaves os fs' (raised mp_enoent) (read_lexer fs 0 (opened fs file r))
  missing-Leaves file os fs' (ret, w) failed held no_file =
      rw failed (refl, is_fs.del_objects file os w held, is_fs.del_files file w ∙ no_file)

  -- A name that stands for a file is opened, read to its end and closed: the bytes are the file's,
  -- and one that stands for nothing raises ENOENT. In both cases no file object and no open file
  -- is left.
  pub read_lexer-Leaves :
      (name : List ℕ) (w : W)
      → Leaves
          (objects w)
          (files w)
          (outcome_of (contents name w))
          (read_lexer fs (fuel_of (contents name w)) (lexer_new_from_file fs name w))
  unfolding lexer_new_from_file
  read_lexer-Leaves name w =
      let (file, w1) = fs.new_obj w in
      let w2 = fs.init file w1 in
      let same = is_fs.init_contents file name w1 ∙ is_fs.new_contents name w in
      let held =
        is_fs.open_objects file name w2 ∙ (is_fs.init_objects file w1 ∙ is_fs.new_objects w) in
      let none_open = is_fs.init_files file w1 ∙ is_fs.new_files w in
      elim (Option-cases (contents name w)) [
        | inl missing ↦
            let (failed, kept) = is_fs.open_missing file name w2 (same ∙ missing) in
            rw missing (
              missing-Leaves file (objects w) (files w) (fs.open_read file name w2) failed held
                (kept ∙ none_open))
        | inr (bytes, found) ↦
            let (ok, open_file, left) = is_fs.open_found file name bytes w2 (same ∙ found) in
            rw found (
              found-Leaves file (objects w) (files w) bytes (fs.open_read file name w2) ok left held
                (open_file ∙ ap (◌∷◌ file) none_open))
      ]
