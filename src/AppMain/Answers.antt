-- ===== src/AppMain/Answers.antt =====
-- The command "ver" from the packet that asks to the packet that answers.
use sdkz.Common.{
  ℕ, suc, ◌+◌, ◌≤◌, ◌<◌, ◌≡◌, refl, ap, ◌∙◌, Option, some, List, [], ◌∷◌, ◌++◌, ◌>>=◌, false,
  length, All, arith,
}
use sdkz.Common.Int.{pos}
use sdkz.Common.Strings.{str_eq}
use sdkz.Hupacket.{Hup, Env, enq_of_command, ack_of_response, max_args, reset_hupacket}
use sdkz.Hupacket.Receive.{Handler, dispatch, process_hupacket}
use sdkz.Hupacket.Packet.{Request, IsRequest, IsText, body}
use sdkz.Hupacket.Deliver.{process_hupacket-given}
use sdkz.Hupacket.Answer.{answer, packet_of}
use sdkz.Hupacket.RoundTrip.{reply-packet}
use sdkz.AppMain.Commands.{ver}

abbrev pub ver_name : List ℕ
ver_name = b'v' ∷ b'e' ∷ b'r' ∷ []

-- Names that are not the one that is looked for make no difference.
dispatch-others :
    {W : Type 0} (before rest : List (List ℕ × Handler W)) (name : List ℕ) (h : Hup) (w : W)
    → All (λ cmd. str_eq cmd.0 name ≡ false) before
    → dispatch (before ++ rest) name h w ≡ dispatch rest name h w
dispatch-others [] rest name h w others = refl
dispatch-others ((cmd, f) ∷ before) rest name h w (other, others) =
    rw other (dispatch-others before rest name h w others)

module _ {W : Type 0} (env : Env W) (digits : List ℕ) (prints : env.itoa (pos 0) 10 ≡ some digits)
    (digits_text : All IsText digits) (a b c : List ℕ)
    (texts : All (All IsText) (a ∷ b ∷ c ∷ [])) where
  abbrev leave : Hup × W → Option (Hup × W)
  leave (h, w) = some (reset_hupacket h, w)

  -- Whatever other names are registered before and behind it, the packet of a "ver" request is answered with
  -- one packet, which has the request's id, command and sequence behind an acknowledgement, and
  -- records for the result and the three strings of the build; where the request fits the
  -- receiver's buffer and argv, and the answer the buffer for it.
  pub ver-packet :
      (r : Request) (h : Hup) (w : W) (before rest : List (List ℕ × Handler W))
      (resps : List (List ℕ × Handler W))
      → All (λ cmd. str_eq cmd.0 ver_name ≡ false) before
      → IsRequest r
      → r.command ≡ ver_name
      → length h.argv ≡ max_args
      → suc (length r.fields) ≤ max_args
      → length (body r) < length h.buffer
      → length (body (answer r digits (a ∷ b ∷ c ∷ []))) + 3 ≤ length h.tx_buffer
      → (h' : Hup) × (process_hupacket env
            (before ++ ((ver_name, ver env a b c) ∷ rest))
            resps
            (packet_of enq_of_command r)
            h
            w
          ≡ some
              (h', (env.send (packet_of ack_of_response (answer r digits (a ∷ b ∷ c ∷ []))) w).1))
  unfolding ver
  ver-packet r h w before rest resps others is named args count fits room =
      let (given, delivers, same, ran) =
        process_hupacket-given env (before ++ ((ver_name, ver env a b c) ∷ rest)) resps r
          enq_of_command h w is refl args count fits in
      let (tx, replied) =
        reply-packet env digits prints digits_text r _ (a ∷ b ∷ c ∷ []) given w is delivers texts
          (omega (arith, ap length same)) in
      (
        reset_hupacket (record given { tx_buffer = tx }),
        ran
            ∙ (ap
                  (λ name.
                    dispatch (before ++ ((ver_name, ver env a b c) ∷ rest)) name given w >>= leave)
                  named
                ∙ ap (λ o. o >>= leave)
                    (dispatch-others before ((ver_name, ver env a b c) ∷ rest) ver_name given w
                      others)
                ∙ ap (λ o. o >>= leave) replied),
      )
