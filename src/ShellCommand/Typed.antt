-- ===== src/ShellCommand/Typed.antt =====
-- What is typed is what `mp_hal_stdin_rx_chr` returns.
use sdkz.Common.{
  ℕ, zero, suc, ◌≤◌, ◌<◌, ◌≡◌, refl, sym, ap, ◌∙◌, true, Option, some, List, [], ◌∷◌, ◌++◌, length,
  drop, arith, ◌>>=◌,
}
use sdkz.ShellCommand.{RxOps, Session, stdin_rx_chr}
use sdkz.ShellCommand.Stdin.{IsRxRing, Types, silent, typed, empty_round}

module _ {R W : Type 0} (rx : RxOps R) (failed_to_buffer : List ℕ) (contents : R → List ℕ)
    (capacity : ℕ) (is_ring : IsRxRing rx contents capacity) (shell_process : W → List (List ℕ) × W)
    (msleep : W → W) where
  -- `bytes` is what is in the ring buffer and, in so many rounds, still to come.
  abbrev pub Awaits : ℕ → List ℕ → Session R W → Type 0
  Awaits most bytes s =
      (rounds : ℕ) × (later : List ℕ) × (rounds ≤ most)
      × Types shell_process msleep capacity rounds s.world later
      × (contents s.ring ++ later ≡ bytes)
      × (s.bypass ≡ true)

  -- With so much fuel, a byte is read, and what is behind it is still awaited.
  abbrev pub Reads : ℕ → ℕ → ℕ → List ℕ → Session R W → Type 0
  Reads fuel most c rest s =
      (s' : Session R W) × (stdin_rx_chr rx failed_to_buffer shell_process msleep fuel s
        ≡ some (c, s'))
      × Awaits most rest s'

  held-Reads :
      (fuel most rounds c c' : ℕ) (rest front later : List ℕ) (s : Session R W)
      → rounds ≤ most
      → Types shell_process msleep capacity rounds s.world later
      → contents s.ring ≡ c' ∷ front
      → c' ∷ (front ++ later) ≡ c ∷ rest
      → s.bypass ≡ true
      → Reads (suc fuel) most c rest s
  unfolding stdin_rx_chr
  held-Reads fuel most rounds c c' rest front later s few types has same on =
      let (got, left) = is_ring.get_front s.ring c' front has in
      let first : c' ≡ c = cc same in
      (
        record s { ring = (rx.get s.ring 1).1 },
        rw (stdin_rx_chr, got, first) refl,
        (rounds, later, few, types, ap (λ x. x ++ later) left ∙ ap (drop 1) same, on),
      )

  waited-Reads :
      (fuel most rounds c : ℕ) (rest : List ℕ) (w : W) (later : List ℕ) (s : Session R W)
      → ((most : ℕ) (s : Session R W)
          → most < fuel
          → Awaits most (c ∷ rest) s
          → Reads fuel most c rest s)
      → rounds ≤ most
      → most < suc fuel
      → Types shell_process msleep capacity rounds w later
      → contents s.ring ≡ []
      → later ≡ c ∷ rest
      → s.bypass ≡ true
      → Reads (suc fuel) most c rest (record s { world = w })
  waited-Reads fuel most _ c rest _ _ s again few enough (silent w) empty same on = absurd (cc same)
  waited-Reads fuel most _ c rest _ _ s again few enough (typed rounds w bytes fits types) empty
        same on =
      let (r, round, whole) =
        empty_round rx failed_to_buffer contents capacity is_ring shell_process msleep fuel
          (record s { world = w }) on empty fits in
      let s' = record s { ring = r; world = msleep (shell_process w).1 } in
      let (s'', read, (rounds', later', few', types', whole', on')) =
        again rounds s' (omega arith)
          (rounds, bytes, omega arith, types, ap (λ x. x ++ bytes) whole ∙ same, on) in
      (s'', round ∙ read, (rounds', later', omega arith, types', whole', on'))

  next-Reads :
      (fuel most rounds c : ℕ) (rest later front : List ℕ) (s : Session R W)
      → ((most : ℕ) (s : Session R W)
          → most < fuel
          → Awaits most (c ∷ rest) s
          → Reads fuel most c rest s)
      → rounds ≤ most
      → most < suc fuel
      → Types shell_process msleep capacity rounds s.world later
      → contents s.ring ≡ front
      → contents s.ring ++ later ≡ c ∷ rest
      → s.bypass ≡ true
      → Reads (suc fuel) most c rest s
  next-Reads fuel most rounds c rest later (c' ∷ front) s again few enough types has whole on =
      held-Reads fuel most rounds c c' rest front later s few types has
        (ap (λ x. x ++ later) (sym has) ∙ whole) on
  next-Reads fuel most rounds c rest later [] s again few enough types has whole on =
      waited-Reads fuel most rounds c rest s.world later s again few enough types has
        (ap (λ x. x ++ later) (sym has) ∙ whole) on

  stdin_rx_chr-Awaits :
      (fuel most c : ℕ) (rest : List ℕ) (s : Session R W)
      → most < fuel
      → Awaits most (c ∷ rest) s
      → Reads fuel most c rest s
  stdin_rx_chr-Awaits zero most c rest s enough awaits = absurd (omega arith)
  stdin_rx_chr-Awaits (suc fuel) most c rest s enough (rounds, later, few, types, whole, on) =
      next-Reads fuel most rounds c rest later (contents s.ring) s
        (λ most s. stdin_rx_chr-Awaits fuel most c rest s) few enough types refl whole on

  -- One call for each of `n` characters.
  abbrev pub read_chars : ℕ → ℕ → Session R W → Option (List ℕ × Session R W)
  read_chars fuel zero s = some ([], s)
  read_chars fuel (suc n) s =
      stdin_rx_chr rx failed_to_buffer shell_process msleep fuel s >>= λ (c, s).
      read_chars fuel n s >>= λ (cs, s). some (c ∷ cs, s)

  -- With the callback set, what is in the ring buffer and what the shell then hands out in some
  -- rounds, in pieces of any sizes, is what calls of `mp_hal_stdin_rx_chr` return, in order and
  -- without a byte lost, each within one round more than the shell needs, where what one round
  -- hands out fits the ring buffer.
  pub read_chars-Types :
      (fuel most : ℕ) (bytes : List ℕ) (s : Session R W)
      → most < fuel
      → Awaits most bytes s
      → (s' : Session R W) × (read_chars fuel (length bytes) s ≡ some (bytes, s'))
  read_chars-Types fuel most [] s enough awaits = (s, refl)
  read_chars-Types fuel most (c ∷ bytes) s enough awaits =
      let (s', read, left) = stdin_rx_chr-Awaits fuel most c bytes s enough awaits in
      let (s'', all) = read_chars-Types fuel most bytes s' enough left in (s'', rw (read, all) refl)
