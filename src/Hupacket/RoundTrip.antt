-- ===== src/Hupacket/RoundTrip.antt =====
-- A command's answer, and the other side that receives it.
use sdkz.Common.{
  ℕ, ◌+◌, ◌≤◌, ◌<◌, ◌≡◌, refl, ap, ◌∙◌, Bool, true, Option, some, List, [], ◌∷◌, ◌++◌, append_assoc,
  arith, ◌>>=◌, length, length-append, All,
}
use sdkz.Common.Int.{ℤ, pos}
use sdkz.Hupacket.{Hup, Env, reset_hupacket, ack_of_response, end_of_packet, record_mark, max_args}
use sdkz.Hupacket.Respond.{send_buffer, record_all, reply}
use sdkz.Hupacket.Receive.{Handler, dispatch, process_hupacket}
use sdkz.Hupacket.Packet.{Request, IsRequest, IsText, header, records, body}
use sdkz.Hupacket.Delivered.{Delivers}
use sdkz.Hupacket.Deliver.{head_of, process_hupacket-Delivers}
use sdkz.Hupacket.Answer.{answer, packet_of, ack_response_lem, send_buffer_lem, record_all-Appends}

answer-packet :
    (r : Request) (digits : List ℕ) (strs : List (List ℕ))
    → (((ack_of_response ∷ header r) ++ (record_mark ∷ digits)) ++ records record_mark strs)
        ++ (end_of_packet ∷ [])
      ≡ packet_of ack_of_response (answer r digits strs)
answer-packet r digits strs = simp append_assoc

module _ {W : Type 0} (env : Env W) (digits : List ℕ) (prints : env.itoa (pos 0) 10 ≡ some digits)
    (digits_text : All IsText digits) where
  abbrev finished : ℤ × Hup × W → Option (Hup × W)
  finished (rc, h, w) = some (h, w)

  abbrev from_send : W → Hup → Option (Hup × W)
  from_send w h = send_buffer env h w >>= finished

  abbrev from_records : List (List ℕ) → W → Hup → Option (Hup × W)
  from_records strs w h = record_all env strs h >>= from_send w

  -- A handle that delivers a request answers it with one packet, the request's id, command and
  -- sequence behind an acknowledgement, and a record for the result and for each string.
  pub reply-packet :
      (r : Request) (response : Bool) (strs : List (List ℕ)) (h : Hup) (w : W)
      → IsRequest r
      → Delivers r response h
      → All (All IsText) strs
      → length (body (answer r digits strs)) + 3 ≤ length h.tx_buffer
      → (tx : List ℕ) × (reply env strs h w
          ≡ some (
            record h { tx_buffer = tx },
            (env.send (packet_of ack_of_response (answer r digits strs)) w).1,
          ))
  unfolding reply
  reply-packet r response strs h w is delivers texts fits =
      let (x, tail, e) = head_of h.tx_buffer (omega arith) in
      let (tx1, acked, has1) =
        ack_response_lem env r response h is delivers digits (length (records record_mark strs) + 1)
          x tail prints digits_text e
          (omega (
            arith,
            ap length e,
            length-append (header r) (records record_mark (digits ∷ strs)),
            length-append digits (records record_mark strs),
            length-append (header r) (record_mark ∷ digits),
          )) in
      let (tx2, recorded, has2) = record_all-Appends env h strs texts tx1 _ 1 has1 in
      let (tx3, done) = send_buffer_lem env r response h is delivers tx2 _ w has2 in
      (
        tx3,
        ap (λ o. o >>= from_records strs w) acked
            ∙ (ap (λ o. o >>= from_send w) recorded
                ∙ (ap (λ o. o >>= finished) done
                    ∙ ap (λ packet. some (record h { tx_buffer = tx3 }, (env.send packet w).1))
                        (answer-packet r digits strs))),
      )

  -- The answer of a command that got the request `r`, with a record for the result and one for
  -- each string, is one packet, where it fits the sender's buffer; and a receiver whose buffers
  -- are large enough calls its handler for the responses to that command on a handle that has the
  -- request's id, command and sequence, the result and every string.
  pub process_hupacket-reply :
      {V : Type 0} (other : Env V) (cmds resps : List (List ℕ × Handler V)) (r : Request)
      (response : Bool) (strs : List (List ℕ)) (h h' : Hup) (w : W) (v : V)
      → IsRequest r
      → Delivers r response h
      → All (All IsText) strs
      → length (body (answer r digits strs)) + 3 ≤ length h.tx_buffer
      → length h'.argv ≡ max_args
      → length strs + 2 ≤ max_args
      → length (body (answer r digits strs)) < length h'.buffer
      → let packet = packet_of ack_of_response (answer r digits strs) in
        (tx : List ℕ) × (given : Hup) × (reply env strs h w
          ≡ some (record h { tx_buffer = tx }, (env.send packet w).1))
        × Delivers (answer r digits strs) true given
        × (process_hupacket other cmds resps packet h' v
            ≡ dispatch resps r.command given v >>= λ (h, v). some (reset_hupacket h, v))
  process_hupacket-reply other cmds resps r response strs h h' w v is delivers texts fits args few
        room =
      let (tx, replied) = reply-packet r response strs h w is delivers texts fits in
      let (given, got, ran) =
        process_hupacket-Delivers other cmds resps (answer r digits strs) ack_of_response h' v
          (record {
            id_names = is.id_names;
            command_names = is.command_names;
            sequence_names = is.sequence_names;
            fields_text = (digits_text, texts);
          })
          refl args (omega arith) room in
      (tx, given, replied, got, ran)
