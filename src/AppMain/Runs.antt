-- ===== src/AppMain/Runs.antt =====
-- Two events, and a request.
mod Boot
use sdkz.Common.{
  ◌++◌, ℕ, ◌+◌, ◌≡◌, refl, true, false, none, some, List, [], ◌∷◌, length, replicate, arith,
}
use sdkz.Hupacket.{Hup, Env}
use sdkz.Hupacket.Receive.{Handler, process_hupacket}
use sdkz.Hupacket.Packet.{Request}
use sdkz.Hupacket.Answer.{answer, packet_of}
use sdkz.AppMain.Commands.{ver}
use sdkz.AppMain.Answers.{ver_name, ver-packet}
use sdkz.Common.Int.{pos}
use sdkz.AppMain.Network.{handle_events, event_handler-last_said}
use sdkz.AppMain.Led.{Gpio}

event_handler-last_said_example : handle_events 17 18 (17 ∷ 4 ∷ 18 ∷ 17 ∷ 19 ∷ []) false ≡ true
event_handler-last_said_example =
    event_handler-last_said 17 18 refl refl (17 ∷ 4 ∷ 18 ∷ 17 ∷ 19 ∷ []) false

abbrev env : Env (List (List ℕ))
env = record {
  crc16 = λ s. 0;
  itoa = λ v base. some (b'0' ∷ []);
  send = λ packet sent. (pos (length packet), packet ∷ sent);
  elasterror = 2000;
}

abbrev handle : Hup
handle = record {
  argc = 0;
  argv = replicate 64 none;
  state = none;
  buffer = replicate 10 7;
  response = true;
  crc_match = true;
  id = none;
  sequence = none;
  crc16 = none;
  tx_buffer = replicate 20 1;
}

-- `2@ver:9`, and strings of one byte each.
abbrev ver_request : Request
ver_request = record {
  id = some (b'2' ∷ []);
  command = ver_name;
  sequence = some (b'9' ∷ []);
  fields = [];
}

-- The other commands, in the order of the linker's section.
abbrev leave_be : Handler (List (List ℕ))
leave_be h w = some (h, w)

abbrev before : List (List ℕ × Handler (List (List ℕ)))
before =
    (b'e' ∷ b'r' ∷ b'a' ∷ b's' ∷ b'e' ∷ [], leave_be)
    ∷ (b'f' ∷ b'l' ∷ b'a' ∷ b's' ∷ b'h' ∷ [], leave_be)
    ∷ (b'r' ∷ b'e' ∷ b'b' ∷ b'o' ∷ b'o' ∷ b't' ∷ [], leave_be)
    ∷ []

abbrev behind : List (List ℕ × Handler (List (List ℕ)))
behind = (b'w' ∷ b'r' ∷ b'p' ∷ b'r' ∷ b't' ∷ [], leave_be) ∷ []

ver-packet_example :
    (h' : Hup) × (process_hupacket env
        (before ++ ((ver_name, ver env (b'1' ∷ []) (b'4' ∷ []) (b'd' ∷ [])) ∷ behind))
        []
        (packet_of 5 ver_request)
        handle
        []
      ≡ some (
        h',
        packet_of 6 (answer ver_request (b'0' ∷ []) ((b'1' ∷ []) ∷ (b'4' ∷ []) ∷ (b'd' ∷ []) ∷ []))
            ∷ [],
      ))
ver-packet_example =
    ver-packet env (b'0' ∷ []) refl (refl, tt) (b'1' ∷ []) (b'4' ∷ []) (b'd' ∷ [])
      ((refl, tt), ((refl, tt), ((refl, tt), tt))) ver_request handle [] before behind []
      (refl, (refl, (refl, tt)))
      (record {
        id_names = (refl, tt);
        command_names = (refl, (refl, (refl, tt)));
        sequence_names = (refl, tt);
        fields_text = tt;
      })
      refl refl (omega arith) (omega arith) (omega arith)
