-- ===== src/Hupacket/Header.antt =====
-- The marks of a packet turned into NULs: the records, and the header's id and sequence.
use sdkz.Common.{
  ℕ, ◌+◌, ◌≡◌, refl, ap, ap₂, ◌∙◌, false, some, Option, List, [], ◌∷◌, ◌++◌, append_assoc, arith,
  ◌==◌, length, length-append, All, store-append, store-append_head,
}
use sdkz.Common.StringLaws.{Without, drop-append, strchr_found, strchr_missing}
use sdkz.Hupacket.{Hup, arg, record_mark}
use sdkz.Hupacket.Receive.{cut_args, seperate_header}
use sdkz.Hupacket.Packet.{records, starts}

pub cut_args-starts :
    (front : List ℕ) (fs : List (List ℕ)) (after : List ℕ)
    → cut_args (starts (length front) fs) (front ++ (records record_mark fs ++ after))
      ≡ some (front ++ (records 0 fs ++ after))
cut_args-starts front [] after = refl
cut_args-starts front (f ∷ fs) after =
    rw (store-append_head front ((f ++ records record_mark fs) ++ after) record_mark 0) (
      ap₂ (λ n b. cut_args (starts n fs) b) (omega (arith, length-append front (0 ∷ f)))
        (simp append_assoc)
      ∙ cut_args-starts (front ++ (0 ∷ f)) fs after
      ∙ ap some (simp append_assoc))

module _ (ptr dst : Hup → Option ℕ → Hup) (ch : ℕ) (h : Hup) (front s after : List ℕ) where
  pub seperate_header_found :
      arg h 0 ≡ some (length front)
      → h.buffer ≡ front ++ (s ++ (ch ∷ after))
      → All (Without ch) s
      → seperate_header ptr dst ch h
        ≡ some (
            dst
              (record (ptr h (some (length front))) { buffer = front ++ (s ++ (0 ∷ after)) })
              (some (length front + length s + 1)))
  unfolding seperate_header
  seperate_header_found at here clean = rw (
    at,
    here,
    drop-append front (s ++ (ch ∷ after)),
    strchr_found ch s after clean,
    store-append front (s ++ (ch ∷ after)) (length s) 0,
    store-append_head s after ch 0,
  )

  pub seperate_header_missing :
      arg h 0 ≡ some (length front)
      → h.buffer ≡ front ++ (s ++ (0 ∷ after))
      → (0 == ch) ≡ false
      → All (Without ch) s
      → seperate_header ptr dst ch h ≡ some h
  unfolding seperate_header
  seperate_header_missing at here ne clean =
      rw (at, here, drop-append front (s ++ (0 ∷ after)), strchr_missing ch s after ne clean)
