-- ===== src/Micropython/Runs.antt =====
-- A file system in which every name of one byte is a file.
use sdkz.Common.{ℕ, ◌≡◌, refl, ap, Option, none, some, List, [], ◌∷◌, length, drop}
use sdkz.Common.Int.{ℤ, pos, negsuc}
use sdkz.Micropython.{FileSystem, entry_file, stat_file, import_stat, lexer_new_from_file}
use sdkz.Micropython.Load.{IsFs, Leaves, read_lexer, outcome_of, read_lexer-Leaves}

record Files : Type 0 where
  objects : List ℕ
  files : List ℕ
  left : List ℕ

abbrev book : List ℕ → Option (List ℕ)
book [] = none
book (x ∷ []) = some (x ∷ 2 ∷ [])
book (x ∷ y ∷ name) = none

abbrev open_at : ℕ → Option (List ℕ) → Files → ℤ × Files
open_at f none w = (negsuc 1, w)
open_at f (some bytes) w = (pos 0, record w { files = f ∷ w.files; left = bytes })

abbrev read_at : List ℕ → Files → ℤ × ℕ × Files
read_at [] w = (pos 0, 0, w)
read_at (b ∷ left) w = (pos 1, b, record w { left = left })

abbrev disk : FileSystem Files
disk = record {
  stat = λ path w. (pos 0, entry_file, w);
  new_obj = λ w. (length w.objects, record w { objects = length w.objects ∷ w.objects });
  del_obj = λ f w. record w { objects = drop 1 w.objects };
  init = λ f w. w;
  open_read = λ f name w. open_at f (book name) w;
  read = λ f n w. read_at w.left w;
  close = λ f w. (pos 0, record w { files = drop 1 w.files });
}

abbrev objects_of : Files → List ℕ
objects_of w = w.objects

abbrev files_of : Files → List ℕ
files_of w = w.files

abbrev rest_of : ℕ → Files → List ℕ
rest_of f w = w.left

abbrev contents_of : List ℕ → Files → Option (List ℕ)
contents_of name w = book name

open_objects : (f : ℕ) (o : Option (List ℕ)) (w : Files) → (open_at f o w).1.objects ≡ w.objects
open_objects f none w = refl
open_objects f (some bytes) w = refl

disk-IsFs : IsFs disk objects_of files_of rest_of contents_of
disk-IsFs = record {
  new_objects = λ w. refl;
  new_files = λ w. refl;
  new_contents = λ n w. refl;
  del_objects = λ f l w held. ap (drop 1) held;
  del_files = λ f w. refl;
  init_objects = λ f w. refl;
  init_files = λ f w. refl;
  init_contents = λ f n w. refl;
  open_objects = λ f n w. open_objects f (book n) w;
  open_missing = λ f n w missing. rw missing (refl, refl);
  open_found = λ f n bytes w found. rw found (refl, refl, refl);
  read_end = λ f w left. rw left (refl, refl, refl);
  read_byte = λ f b l w left. rw left (refl, refl, refl, refl, refl);
  close_objects = λ f w. refl;
  close_files = λ f l w held. (refl, ap (drop 1) held);
}

abbrev start : Files
start = record { objects = 8 ∷ []; files = 9 ∷ []; left = [] }

read_lexer-Leaves_example :
    Leaves disk objects_of files_of rest_of contents_of disk-IsFs
      (8 ∷ [])
      (9 ∷ [])
      (outcome_of (some (7 ∷ 2 ∷ [])))
      (read_lexer disk 3 (lexer_new_from_file disk (7 ∷ []) start))
read_lexer-Leaves_example =
    read_lexer-Leaves disk objects_of files_of rest_of contents_of disk-IsFs (7 ∷ []) start

import_stat_result : (import_stat disk (7 ∷ []) start).0 ≡ stat_file
unfolding import_stat
import_stat_result = refl
