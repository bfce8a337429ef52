-- ===== src/Huflash/Closes.antt =====
-- The areas that the commands open and close.
use sdkz.Common.{
  ℕ, zero, suc, ◌+◌, ◌-◌, ◌≡◌, refl, ◌∙◌, Option, none, some, List, leb, not, if◌then◌else◌, length,
  take, ◌>>=◌, arith, Bool-cases, inl, inr,
}
use sdkz.Common.Int.{ℤ, pos, negsuc, leb_ℤ, eq_ℤ}
use sdkz.Common.Strings.{strtol, c_string}
use sdkz.Ascii85.{Outcome, fault, returned, decode_ascii85}
use sdkz.Hupacket.{Hup, Env, arg}
use sdkz.Hupacket.Respond.{send_buffer, append_crc, append_char}
use sdkz.Huflash.{FlashEnv, open_flash_partition, partition_of}
use sdkz.Huflash.Commands.{
  arg_string, bytes_from, run_wrprt, run_erase, run_flash, erase_area, write_area, decode_area,
  flash_chunk, close_flash_partition, answer, set_status, record_args, wrprt, erase, flash_cmd,
}

-- What holds of the result, if there is one.
abbrev pub Ensures : {B : Type 0} → (B → Type 0) → Option B → Type 0
Ensures P none = Unit
Ensures P (some b) = P b

Ensures-bind :
    {A B : Type 0} (P : B → Type 0) (o : Option A) (f : A → Option B)
    → ((a : A) → Ensures P (f a))
    → Ensures P (o >>= f)
Ensures-bind P none f h = tt
Ensures-bind P (some a) f h = h a

Ensures-then :
    {A B : Type 0} (P : A → Type 0) (Q : B → Type 0) (o : Option A) (f : A → Option B)
    → Ensures P o
    → ((a : A) → P a → Ensures Q (f a))
    → Ensures Q (o >>= f)
Ensures-then P Q none f g h = tt
Ensures-then P Q (some a) f g h = h a g

-- How many areas are held after a call, if an area came out of it.
abbrev pub more : {A : Type 0} → Option A → ℕ → ℕ
more none n = n
more (some fa) n = suc n

-- What the flash driver and the transport do to the number of areas that are held open.
pub record Counts {A W : Type 0} (env : Env W) (flash : FlashEnv A W) (held : W → ℕ) : Type 0 where
  pub opens :
      (id : ℤ) (w : W) → held (flash.area_open id w).2 ≡ more (flash.area_open id w).1 (held w)
  pub closes : (fa : A) (w : W) → held (flash.area_close fa w) ≡ held w - 1
  pub erases :
      (fa : A) (offset size : ℕ) (w : W) → held (flash.area_erase fa offset size w).1 ≡ held w
  pub writes :
      (fa : A) (offset : ℤ) (s : List ℕ) (w : W) → held (flash.area_write fa offset s w).1 ≡ held w
  pub sends : (packet : List ℕ) (w : W) → held (env.send packet w).1 ≡ held w

module _ {A W : Type 0} (env : Env W) (flash : FlashEnv A W) (held : W → ℕ)
    (counts : Counts env flash held) where
  -- The state of a command at its end holds one area more exactly where it has one.
  abbrev Balanced : ℕ → ℤ × Option A × Hup × W → Type 0
  Balanced n (rc, fa, h, w) = held w ≡ more fa n

  open-held :
      (name : List ℕ) (w : W)
      → held (open_flash_partition flash name w).2
        ≡ more (open_flash_partition flash name w).1 (held w)
  unfolding open_flash_partition
  open-held name w = elim (Bool-cases (eq_ℤ (partition_of flash name) (pos 0))) [
    | inl zero_id ↦ rw zero_id (counts.opens _ w)
    | inr other ↦ rw other
  ]

  erase_area-Balanced :
      (rc : ℤ) (fa : Option A) (h : Hup) (w : W) (n : ℕ)
      → held w ≡ more fa n
      → Ensures (Balanced n) (erase_area env flash (rc, fa, w) h)
  erase_area-Balanced rc none h w n e = elim (Bool-cases (eq_ℤ rc (pos 0))) [
    | inl z ↦ rw z tt
    | inr o ↦ rw o e
  ]
  erase_area-Balanced rc (some fa) h w n e = elim (Bool-cases (eq_ℤ rc (pos 0))) [
    | inl z ↦ rw z (counts.erases fa 0 (flash.area_size fa) w ∙ e)
    | inr o ↦ rw o e
  ]

  write_area-Balanced :
      (rc : ℤ) (fa : Option A) (offset size : ℤ) (h : Hup) (w : W) (n : ℕ)
      → held w ≡ more fa n
      → Ensures (Balanced n) (write_area env flash rc fa offset size h w)
  write_area-Balanced (pos zero) none offset size h w n e = tt
  write_area-Balanced (pos zero) (some fa) offset (pos size) h w n e =
      counts.writes fa offset (take size h.tx_buffer) w ∙ e
  write_area-Balanced (pos zero) (some fa) offset (negsuc size) h w n e = e
  write_area-Balanced (pos (suc k)) none offset size h w n e = e
  write_area-Balanced (pos (suc k)) (some fa) offset size h w n e = e
  write_area-Balanced (negsuc k) none offset size h w n e = e
  write_area-Balanced (negsuc k) (some fa) offset size h w n e = e

  decode_area-Balanced :
      (r : Outcome) (fa : Option A) (offset size : ℤ) (h : Hup) (w : W) (n : ℕ)
      → held w ≡ more fa n
      → Ensures (Balanced n) (decode_area env flash r fa offset size h w)
  decode_area-Balanced fault fa offset size h w n e = tt
  decode_area-Balanced (returned b tx) fa offset size h w n e =
      write_area-Balanced _ fa offset size _ w n e

  flash_chunk-Balanced :
      (rc : ℤ) (fa : Option A) (h : Hup) (w : W) (n : ℕ)
      → held w ≡ more fa n
      → Ensures (Balanced n) (flash_chunk env flash (rc, fa, w) h)
  flash_chunk-Balanced rc fa h w n e = elim (Bool-cases (not (eq_ℤ rc (pos 0)))) [
    | inl failed ↦ rw failed e
    | inr opened ↦ rw opened (
        Ensures-bind (Balanced n) (arg_string h 3) _ λ text.
          elim (Bool-cases (leb_ℤ (strtol text 16) (pos 256))) [
            | inl small ↦ rw small e
            | inr large ↦ rw large (
                Ensures-bind (Balanced n) (arg_string h 2) _ λ offset.
                  Ensures-bind (Balanced n) (arg_string h 4) _ λ data_text.
                    decode_area-Balanced
                      (decode_ascii85 (bytes_from h (arg h 4)) (pos (length data_text)) h.tx_buffer
                        (pos 1280))
                      fa (strtol offset 16) (strtol text 16) h w n e)
          ])
  ]

  close-held :
      (fa : Option A) (w : W) (n : ℕ)
      → held w ≡ more fa n
      → held (close_flash_partition env flash fa w) ≡ n
  close-held none w n e = e
  close-held (some fa) w n e = omega (arith, counts.closes fa w)

  abbrev Holds : ℕ → Hup × W → Type 0
  Holds n (h, w) = held w ≡ n

  send_buffer-held :
      (h : Hup) (w : W) (n : ℕ) → held w ≡ n → Ensures (λ r. held r.2 ≡ n) (send_buffer env h w)
  unfolding send_buffer
  send_buffer-held h w n e = Ensures-bind _ (append_crc env h h.crc16) _ λ h1.
      Ensures-bind _ (append_char h1 4) _
        λ h2. Ensures-bind _ (c_string h2.tx_buffer) _ λ packet. counts.sends packet w ∙ e

  answer-Holds :
      (from to : ℕ) (rc : ℤ) (fa : Option A) (h : Hup) (w : W) (n : ℕ)
      → held w ≡ more fa n
      → Ensures (Holds n) (answer env flash from to (rc, fa, h, w))
  answer-Holds from to rc fa h w n e = Ensures-bind (Holds n) (set_status env flash h rc) _ λ h1.
      Ensures-bind (Holds n)
        (record_args from ((if leb h1.argc to then h1.argc - 1 else to) + 1 - from) h1) _
        λ h2.
          Ensures-then (λ r. held r.2 ≡ n) (Holds n)
            (send_buffer env h2 (close_flash_partition env flash fa w)) _
            (send_buffer-held h2 _ n (close-held fa w n e)) (λ (rc, h3, w3) e3. e3)

  run_wrprt-Balanced : (h : Hup) (w : W) → Ensures (Balanced (held w)) (run_wrprt env flash h w)
  run_wrprt-Balanced h w = elim (Bool-cases (leb 3 h.argc)) [
    | inr few ↦ rw few refl
    | inl enough ↦ rw enough (
        Ensures-bind _ (arg_string h 2) _
          λ text. Ensures-bind _ (arg_string h 1) _ λ name. open-held name w)
  ]

  run_erase-Balanced : (h : Hup) (w : W) → Ensures (Balanced (held w)) (run_erase env flash h w)
  run_erase-Balanced h w = elim (Bool-cases (leb 2 h.argc)) [
    | inr few ↦ rw few refl
    | inl enough ↦ rw enough (
        Ensures-bind _ (arg_string h 1) _ λ name.
          erase_area-Balanced (open_flash_partition flash name w).0
            (open_flash_partition flash name w).1 h _ (held w) (open-held name w))
  ]

  run_flash-Balanced : (h : Hup) (w : W) → Ensures (Balanced (held w)) (run_flash env flash h w)
  run_flash-Balanced h w = elim (Bool-cases (leb 5 h.argc)) [
    | inr few ↦ rw few refl
    | inl enough ↦ rw enough (
        Ensures-bind _ (arg_string h 1) _ λ name.
          flash_chunk-Balanced (open_flash_partition flash name w).0
            (open_flash_partition flash name w).1 h _ (held w) (open-held name w))
  ]

  -- Where `opens`, `closes` and the others count the areas that are held open: each of the three
  -- commands, on whatever path it takes to its response, ends with as many as it began with.
  pub commands-Holds :
      (h : Hup) (w : W)
      → Ensures (Holds (held w)) (flash_cmd env flash h w)
        × Ensures (Holds (held w)) (erase env flash h w)
        × Ensures (Holds (held w)) (wrprt env flash h w)
  unfolding flash_cmd erase wrprt
  commands-Holds h w = (
    Ensures-then (Balanced (held w)) (Holds (held w)) (run_flash env flash h w)
        (answer env flash 1 3) (run_flash-Balanced h w)
        (λ (rc, fa, h1, w1) e. answer-Holds 1 3 rc fa h1 w1 (held w) e),
    Ensures-then (Balanced (held w)) (Holds (held w)) (run_erase env flash h w)
        (answer env flash 1 1) (run_erase-Balanced h w)
        (λ (rc, fa, h1, w1) e. answer-Holds 1 1 rc fa h1 w1 (held w) e),
    Ensures-then (Balanced (held w)) (Holds (held w)) (run_wrprt env flash h w)
        (answer env flash 1 2) (run_wrprt-Balanced h w)
        (λ (rc, fa, h1, w1) e. answer-Holds 1 2 rc fa h1 w1 (held w) e),
  )
