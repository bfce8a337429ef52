-- ===== src/Hupacket/Runs/WithCrc.antt =====
-- A CRC that is the number of bytes.
use sdkz.Common.{
  ℕ, suc, ◌≡◌, refl, true, false, none, some, List, [], ◌∷◌, arith, ◌>>=◌, length, replicate,
}
use sdkz.Common.Int.{pos, neg}
use sdkz.Common.Strings.{string_at}
use sdkz.Hupacket.{Hup, Env, arg, max_args, reset_hupacket, enq_of_command, deinit_hupacket}
use sdkz.Hupacket.Respond.{nak_response, send_buffer}
use sdkz.Hupacket.Receive.{Handler, dispatch, process_hupacket}
use sdkz.Hupacket.Packet.{Request, IsRequest, body}
use sdkz.Hupacket.Delivered.{Delivers}
use sdkz.Hupacket.Crc.{checked_body}
use sdkz.Hupacket.Checked.{process_hupacket-accepts, process_hupacket-refuses}

abbrev env : Env (List (List ℕ))
env = record {
  crc16 = λ s. length s;
  itoa = λ v base. some (48 ∷ []);
  send = λ packet sent. (pos (length packet), packet ∷ sent);
  elasterror = 2000;
}

abbrev handle : Hup
handle = record {
  argc = 0;
  argv = replicate max_args none;
  state = none;
  buffer = replicate 20 7;
  response = true;
  crc_match = false;
  id = none;
  sequence = none;
  crc16 = none;
  tx_buffer = replicate 20 0;
}

-- "ping" answers nothing.
abbrev cmds : List (List ℕ × Handler (List (List ℕ)))
cmds = ((b'p' ∷ b'i' ∷ []), λ h w. some (h, w)) ∷ []

-- `7@pi:31` and the record "ab": ten bytes, which is "a" as a number.
abbrev ping : Request
ping = record {
  id = some (b'7' ∷ []);
  command = b'p' ∷ b'i' ∷ [];
  sequence = some (b'3' ∷ b'1' ∷ []);
  fields = (b'a' ∷ b'b' ∷ []) ∷ [];
}

ping-IsRequest : IsRequest ping
ping-IsRequest = record {
  id_names = (refl, tt);
  command_names = (refl, (refl, tt));
  sequence_names = (refl, (refl, tt));
  fields_text = ((refl, (refl, tt)), tt);
}

process_hupacket-accepts_example :
    (given : Hup) × Delivers ping false (record given { crc16 = none })
    × (given.crc_match ≡ true)
    × (process_hupacket env cmds [] (5 ∷ checked_body ping (b'a' ∷ [])) handle []
        ≡ (dispatch cmds (b'p' ∷ b'i' ∷ []) given [] >>= λ (h, w). some (reset_hupacket h, w)))
process_hupacket-accepts_example =
    process_hupacket-accepts env cmds [] ping 5 (b'a' ∷ []) handle [] ping-IsRequest refl (refl, tt)
      refl refl (omega arith) (omega arith)

process_hupacket-refuses_example :
    (given : Hup) × (string_at given.buffer (arg given 0) ≡ some (body ping))
    × (given.id ≡ none)
    × (given.state ≡ some 12)
    × (given.tx_buffer ≡ replicate 20 0)
    × (process_hupacket env cmds [] (enq_of_command ∷ checked_body ping (b'b' ∷ [])) handle [] ≡ (
        nak_response env given (neg (pos 2000)) >>= λ h.
        send_buffer env h [] >>= λ (_, h, w). some (h, w)))
process_hupacket-refuses_example =
    process_hupacket-refuses env cmds [] ping (b'b' ∷ []) handle [] ping-IsRequest (refl, tt) refl
      refl (omega arith) (omega arith)

-- A NULL is not given back.
deinit_hupacket_null : deinit_hupacket suc false 3 ≡ 3
unfolding deinit_hupacket
deinit_hupacket_null = refl
