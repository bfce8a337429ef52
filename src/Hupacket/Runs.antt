-- ===== src/Hupacket/Runs.antt =====
-- Runs of the packet functions, and the theorems at concrete inputs.
mod WithCrc
use sdkz.Common.{
  ℕ, ◌≡◌, refl, true, false, none, some, Option, List, [], ◌∷◌, ◌++◌, arith, ◌>>=◌, length,
  replicate,
}
use sdkz.Common.Int.{pos}
use sdkz.Hupacket.{
  Hup, Env, max_args, record_mark, end_of_packet, reset_hupacket, enq_of_command, ack_of_response,
}
use sdkz.Hupacket.Respond.{ack_response, send_buffer, reply}
use sdkz.Hupacket.Receive.{Handler, dispatch, process_hupacket}
use sdkz.Hupacket.Packet.{Request, body}
use sdkz.Hupacket.Delivered.{Delivers}
use sdkz.Hupacket.Deliver.{process_hupacket-Delivers}
use sdkz.Hupacket.RoundTrip.{process_hupacket-reply}
use sdkz.Hupacket.Answer.{answer, packet_of}
use sdkz.Hupacket.Overruns.{process_hupacket_too_many, process_hupacket_exact_fit}

-- An environment that keeps what is sent, and prints every number as "0".
abbrev env : Env (List (List ℕ))
env = record {
  crc16 = λ s. 0;
  itoa = λ v base. some (48 ∷ []);
  send = λ packet sent. (pos (length packet), packet ∷ sent);
  elasterror = 2000;
}

abbrev handle : ℕ → Hup
handle size = record {
  argc = 0;
  argv = replicate max_args none;
  state = none;
  buffer = replicate size 7;
  response = true;
  crc_match = true;
  id = none;
  sequence = none;
  crc16 = none;
  tx_buffer = replicate size 0;
}

-- "ping" answers with an acknowledgement.
abbrev ping_handler : Handler (List (List ℕ))
ping_handler h w = do h ← ack_response env h; (_, h, w) ← send_buffer env h w; some (h, w)

abbrev cmds : List (List ℕ × Handler (List (List ℕ)))
cmds = ((b'p' ∷ b'i' ∷ []), ping_handler) ∷ []

-- `7@pi:31`, with the records "a" and "".
abbrev ping : Request
ping = record {
  id = some (b'7' ∷ []);
  command = b'p' ∷ b'i' ∷ [];
  sequence = some (b'3' ∷ b'1' ∷ []);
  fields = (b'a' ∷ []) ∷ [] ∷ [];
}

sent_of : Option (Hup × List (List ℕ)) → List (List ℕ)
sent_of none = []
sent_of (some (h, w)) = w

-- The answer is the ACK byte, `7@pi:31`, a record "0" and the end byte.
ping_answer :
    sent_of (
      process_hupacket env cmds []
        (enq_of_command ∷ (body ping ++ (end_of_packet ∷ [])))
        (handle 20)
        [])
    ≡ (6 ∷ b'7' ∷ b'@' ∷ b'p' ∷ b'i' ∷ b':' ∷ b'3' ∷ b'1' ∷ 30 ∷ b'0' ∷ 4 ∷ []) ∷ []
unfolding sent_of process_hupacket ack_response send_buffer
ping_answer = refl

process_hupacket-Delivers_example :
    (given : Hup) × Delivers ping true given
    × (process_hupacket env [] cmds (6 ∷ (body ping ++ (end_of_packet ∷ []))) (handle 20) []
        ≡ (dispatch cmds (b'p' ∷ b'i' ∷ []) given [] >>= λ (h, w). some (reset_hupacket h, w)))
process_hupacket-Delivers_example =
    process_hupacket-Delivers env [] cmds ping 6 (handle 20) []
      (record {
        id_names = (refl, tt);
        command_names = (refl, (refl, tt));
        sequence_names = (refl, (refl, tt));
        fields_text = ((refl, tt), (tt, tt));
      })
      refl refl (omega arith) (omega arith)

abbrev many : Request
many = record { id = none; command = b'x' ∷ []; sequence = none; fields = replicate 63 [] }

abbrev exact : Request
exact = record { id = none; command = b'x' ∷ b'y' ∷ []; sequence = none; fields = [] }

process_hupacket_too_many_example :
    process_hupacket env cmds [] (5 ∷ (body many ++ (record_mark ∷ []))) (handle 80) [] ≡ none
process_hupacket_too_many_example =
    process_hupacket_too_many env cmds [] many 5 [] (handle 80) []
      (record {
        id_names = tt;
        command_names = (refl, tt);
        sequence_names = tt;
        fields_text = omega arith;
      })
      refl refl refl (omega arith)

process_hupacket_exact_fit_example :
    process_hupacket env cmds [] (5 ∷ (body exact ++ (end_of_packet ∷ []))) (handle 2) [] ≡ none
process_hupacket_exact_fit_example =
    process_hupacket_exact_fit env cmds [] exact 5 [] (handle 2) []
      (record {
        id_names = tt;
        command_names = (refl, (refl, tt));
        sequence_names = tt;
        fields_text = tt;
      })
      refl refl (omega arith) refl

-- A handle that delivers the request "p", without id or sequence.
abbrev plain : Request
plain = record { id = none; command = b'p' ∷ []; sequence = none; fields = [] }

abbrev asked : Hup
asked = record {
  argc = 1;
  argv = some 0 ∷ replicate 63 none;
  state = some 1;
  buffer = b'p' ∷ 0 ∷ [];
  response = false;
  crc_match = false;
  id = none;
  sequence = none;
  crc16 = none;
  tx_buffer = replicate 12 1;
}

asked-Delivers : Delivers plain false asked
asked-Delivers = record {
  id = refl;
  command = refl;
  sequence = refl;
  count = refl;
  fields = λ i h. absurd (omega arith);
  kind = refl;
  no_crc = refl;
}

process_hupacket-reply_example :
    (tx : List ℕ) × (given : Hup) × (reply env ((b'v' ∷ b'1' ∷ []) ∷ []) asked []
      ≡ some (
        record asked { tx_buffer = tx },
        (env.send
            (packet_of ack_of_response (answer plain (b'0' ∷ []) ((b'v' ∷ b'1' ∷ []) ∷ [])))
            []).1,
      ))
    × Delivers (answer plain (b'0' ∷ []) ((b'v' ∷ b'1' ∷ []) ∷ [])) true given
    × (process_hupacket env [] cmds
          (packet_of ack_of_response (answer plain (b'0' ∷ []) ((b'v' ∷ b'1' ∷ []) ∷ [])))
          (handle 20)
          []
        ≡ dispatch cmds (b'p' ∷ []) given [] >>= λ (h, w). some (reset_hupacket h, w))
process_hupacket-reply_example =
    process_hupacket-reply env (b'0' ∷ []) refl (refl, tt) env [] cmds plain false
      ((b'v' ∷ b'1' ∷ []) ∷ []) asked (handle 20) [] []
      (record { id_names = tt; command_names = (refl, tt); sequence_names = tt; fields_text = tt })
      asked-Delivers ((refl, (refl, tt)), tt) (omega arith) refl (omega arith) (omega arith)
