-- ===== src/HupServer/Serve.antt =====
-- What the server makes of a stream of bytes, however the transport cuts it into pieces.
use sdkz.Common.{
  ℕ, zero, suc, ◌≡◌, ◌<◌, refl, Option, List, [], ◌∷◌, ◌++◌, ◌>>=◌, take, Option-cases, inl, inr,
  arith,
}
use sdkz.Common.Int.{ℤ, pos, negsuc}
use sdkz.Hupacket.{Hup, Env}
use sdkz.Hupacket.Receive.{Handler, process_byte, process_hupacket}
use sdkz.HupServer.{Served, stopped, fault, on_packet, hup_server}

-- From the first state on, the transport gives the bytes in so many rounds, and then an error.
pub data Feeds {T : Type 0} (recv : T → ℤ × List ℕ × T) : ℕ → T → List ℕ → T → Type 0 where
  closed : (t : T) (e : ℕ) → (recv t).0 ≡ negsuc e → Feeds recv 0 t [] (recv t).2
  idle :
      (rounds : ℕ) (t t' : T) (bytes : List ℕ)
      → (recv t).0 ≡ pos 0
      → Feeds recv rounds (recv t).2 bytes t'
      → Feeds recv (suc rounds) t bytes t'
  piece :
      (rounds n : ℕ) (t t' : T) (bytes : List ℕ)
      → (recv t).0 ≡ pos (suc n)
      → Feeds recv rounds (recv t).2 bytes t'
      → Feeds recv (suc rounds) t (take (suc n) (recv t).1 ++ bytes) t'

module _ {W : Type 0} (env : Env W) (cmds resps : List (List ℕ × Handler W)) where
  -- Where a piece ends makes no difference to what is done with the bytes.
  pub process_hupacket-append :
      (front back : List ℕ) (h : Hup) (w : W)
      → process_hupacket env cmds resps (front ++ back) h w
        ≡ process_hupacket env cmds resps front h w >>= λ (h, w).
            process_hupacket env cmds resps back h w
  unfolding process_hupacket
  process_hupacket-append [] back h w = refl
  process_hupacket-append (ch ∷ front) back h w =
      elim (Option-cases (process_byte env cmds resps ch h w)) [
        | inl failed ↦ rw failed
        | inr ((h', w'), done) ↦ rw done (process_hupacket-append front back h' w')
      ]

  -- What the server comes to when the transport has given `bytes`.
  abbrev pub served : {T : Type 0} → T → Option (Hup × W) → Served T W
  served t r = on_packet fault (λ h w. stopped h t w) r

  -- A server whose transport gives the bytes in some rounds, cut into pieces of any sizes, with
  -- empty receptions in between, and then an error, stops within one more round, and has done with
  -- the handle and the handlers' state what one call of `process_hupacket` on all bytes does.
  pub hup_server-Feeds :
      {T : Type 0} (recv : T → ℤ × List ℕ × T) (fuel rounds : ℕ) (t t' : T) (bytes : List ℕ)
      (h : Hup) (w : W)
      → Feeds recv rounds t bytes t'
      → rounds < fuel
      → hup_server recv env cmds resps fuel h t w
        ≡ served t' (process_hupacket env cmds resps bytes h w)
  unfolding hup_server process_hupacket
  hup_server-Feeds recv zero rounds t t' bytes h w feeds enough = absurd (omega arith)
  hup_server-Feeds recv (suc fuel) _ _ _ _ h w (closed t e failed) enough = rw failed
  hup_server-Feeds recv (suc fuel) _ _ _ _ h w (idle rounds t t' bytes none_yet feeds) enough =
      rw none_yet (hup_server-Feeds recv fuel rounds (recv t).2 t' bytes h w feeds (omega arith))
  hup_server-Feeds recv (suc fuel) _ _ _ _ h w (piece rounds n t t' bytes got feeds) enough =
      rw (got, process_hupacket-append (take (suc n) (recv t).1) bytes h w)
        (elim (Option-cases (process_hupacket env cmds resps (take (suc n) (recv t).1) h w)) [
          | inl failed ↦ rw failed
          | inr ((h', w'), done) ↦
              rw done
                (hup_server-Feeds recv fuel rounds (recv t).2 t' bytes h' w' feeds (omega arith))
        ])
