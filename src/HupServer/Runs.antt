-- ===== src/HupServer/Runs.antt =====
-- A server over a list of pieces.
mod Incoming
use sdkz.Common.{
  ℕ, ◌≡◌, refl, true, false, none, some, List, [], ◌∷◌, ◌++◌, length, replicate, arith, ◌>>=◌,
}
use sdkz.Common.Int.{ℤ, pos, negsuc}
use sdkz.Hupacket.{Hup, Env, max_args}
use sdkz.Hupacket.Respond.{ack_response, send_buffer}
use sdkz.Hupacket.Receive.{Handler, process_hupacket}
use sdkz.HupServer.{hup_server}
use sdkz.HupServer.Serve.{closed, idle, piece, served, hup_server-Feeds}

abbrev env : Env (List (List ℕ))
env = record {
  crc16 = λ s. 0;
  itoa = λ v base. none;
  send = λ packet sent. (pos (length packet), packet ∷ sent);
  elasterror = 2000;
}

abbrev handle : Hup
handle = record {
  argc = 0;
  argv = replicate max_args none;
  state = none;
  buffer = replicate 8 0;
  response = false;
  crc_match = false;
  id = none;
  sequence = none;
  crc16 = none;
  tx_buffer = replicate 8 0;
}

abbrev ping : Handler (List (List ℕ))
ping h w = do h ← ack_response env h; (_, h, w) ← send_buffer env h w; some (h, w)

abbrev cmds : List (List ℕ × Handler (List (List ℕ)))
cmds = ((b'p' ∷ []), ping) ∷ []

-- A transport that gives one piece after another, and then an error; its buffer keeps a byte of
-- what was there before.
abbrev next_piece : List (List ℕ) → ℤ × List ℕ × List (List ℕ)
next_piece [] = (negsuc 0, [], [])
next_piece (bytes ∷ rest) = (pos (length bytes), bytes ++ (0 ∷ []), rest)

-- The request "p", whose byte comes in the second piece, after an empty one.
abbrev pieces : List (List ℕ)
pieces = (5 ∷ []) ∷ [] ∷ (b'p' ∷ 4 ∷ []) ∷ []

hup_server-Feeds_example :
    hup_server next_piece env cmds [] 5 handle pieces []
    ≡ served env cmds [] [] (process_hupacket env cmds [] (5 ∷ b'p' ∷ 4 ∷ []) handle [])
hup_server-Feeds_example =
    hup_server-Feeds env cmds [] next_piece 5 3 pieces [] (5 ∷ b'p' ∷ 4 ∷ []) handle []
      (piece 2 0 pieces [] (b'p' ∷ 4 ∷ []) refl (
        idle 1 ([] ∷ (b'p' ∷ 4 ∷ []) ∷ []) [] (b'p' ∷ 4 ∷ []) refl
          (piece 0 1 ((b'p' ∷ 4 ∷ []) ∷ []) [] [] refl (closed [] 0 refl))))
      (omega arith)
