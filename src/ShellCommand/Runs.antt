-- ===== src/ShellCommand/Runs.antt =====
-- A ring buffer of four bytes, a shell that follows a script, and an interpreter that prints.
use sdkz.Common.{
  ℕ, ◌-◌, ◌≡◌, refl, ap, true, false, Option, none, some, List, [], ◌∷◌, ◌++◌, length, take, drop,
  arith, take_le,
}
use sdkz.Common.Int.{pos}
use sdkz.ShellCommand.{
  RxOps, Session, Call, SharedHeap, python, run_interpreter, python_static, stdout_tx_strn,
  stdio_poll,
}
use sdkz.ShellCommand.Stdin.{IsRxRing, silent, typed}
use sdkz.ShellCommand.Typed.{read_chars, read_chars-Types}

abbrev rx : RxOps (List ℕ)
rx = record {
  init = λ capacity. [];
  put = λ r bytes. (length (take (4 - length r) bytes), r ++ take (4 - length r) bytes);
  get = λ r n. (take n r, drop n r);
}

abbrev contents : List ℕ → List ℕ
contents r = r

rx-IsRxRing : IsRxRing rx contents 4
rx-IsRxRing = record {
  put_fits = λ r bytes fits. ap length (take_le (4 - length r) bytes (omega arith));
  put_contents = λ r bytes fits. ap (λ x. r ++ x) (take_le (4 - length r) bytes (omega arith));
  get_empty = λ r empty. rw empty (refl, refl);
  get_front = λ r c rest front. rw front (refl, refl);
}

abbrev session : {W : Type 0} → List ℕ → W → Session (List ℕ) W
session ring w = record {
  heap = none;
  rx_rb = none;
  ring = ring;
  active_sh = some 1;
  bypass = true;
  unlocked = true;
  printed = [];
  world = w;
}

-- What each call of `shell_process` hands out.
abbrev next_pieces : List (List (List ℕ)) → List (List ℕ) × List (List (List ℕ))
next_pieces [] = ([], [])
next_pieces (pieces ∷ script) = (pieces, script)

abbrev asleep : List (List (List ℕ)) → List (List (List ℕ))
asleep w = w

abbrev script : List (List (List ℕ))
script = [] ∷ ((6 ∷ 7 ∷ []) ∷ (8 ∷ []) ∷ []) ∷ []

read_chars-Types_example :
    (s' : Session (List ℕ) (List (List (List ℕ)))) × (read_chars rx [] contents 4 rx-IsRxRing
        next_pieces asleep 3 4
        (session (5 ∷ []) script)
      ≡ some (5 ∷ 6 ∷ 7 ∷ 8 ∷ [], s'))
read_chars-Types_example =
    read_chars-Types rx [] contents 4 rx-IsRxRing next_pieces asleep 3 2 (5 ∷ 6 ∷ 7 ∷ 8 ∷ [])
      (session (5 ∷ []) script) (omega arith)
      (
        2,
        6 ∷ 7 ∷ 8 ∷ [],
        omega arith,
        typed 1 script (6 ∷ 7 ∷ 8 ∷ []) (omega arith)
            (typed 0 (((6 ∷ 7 ∷ []) ∷ (8 ∷ []) ∷ []) ∷ []) [] (omega arith) (silent [])),
        refl,
        refl,
      )

-- The blocks that are allocated; there is room for three.
abbrev next_block : List ℕ → Option ℕ × List ℕ
next_block [] = (some 7, 7 ∷ [])
next_block (a ∷ []) = (some 8, 8 ∷ a ∷ [])
next_block (a ∷ b ∷ []) = (some 9, 9 ∷ a ∷ b ∷ [])
next_block (a ∷ b ∷ c ∷ w) = (none, a ∷ b ∷ c ∷ w)

abbrev shared : SharedHeap (List ℕ)
shared = record { aligned_alloc = λ n w. next_block w; free = λ p w. drop 1 w }

abbrev prompt : Call → Session (List ℕ) (List ℕ) → Session (List ℕ) (List ℕ)
prompt c s = record s { printed = (b'>' ∷ []) ∷ s.printed }

abbrev stopped : List ℕ → Session (List ℕ) (List ℕ)
stopped w = record (session [] w) { bypass = false }

-- With no block in use, the interpreter runs, all thirteen calls of it.
python_result : (python rx shared prompt 100 50 40 [] 1 ((b'p' ∷ []) ∷ []) (stopped [])).0 ≡ pos 0
unfolding python run_interpreter
python_result = refl

python_static_result :
    (python_static rx shared prompt 100 50 40 [] 1 ((b'p' ∷ []) ∷ []) (stopped [])).0 ≡ pos 0
unfolding python_static
python_static_result = refl

stdout_tx_strn_result : (stdout_tx_strn (3 ∷ 4 ∷ []) (stopped [])).0 ≡ 2
unfolding stdout_tx_strn
stdout_tx_strn_result = refl

-- MP_STREAM_POLL_RD is 1, and MP_STREAM_POLL_WR 4.
stdio_poll_result : stdio_poll 1 4 15 ≡ 5
unfolding stdio_poll
stdio_poll_result = refl
