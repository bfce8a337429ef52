-- ===== src/ShellCommand/Stdin.antt =====
-- The way of what is typed: from the shell through the callback and the ring buffer to
-- `mp_hal_stdin_rx_chr`.
use sdkz.Common.{
  ℕ, suc, ◌+◌, ◌≤◌, ◌≡◌, refl, sym, ap, ◌∙◌, true, List, [], ◌∷◌, ◌++◌, length, if◌then◌else◌,
  le→ltb_false, length-append, append-nil, append_assoc, arith,
}
use sdkz.ShellCommand.{RxOps, Session, bypass_cb, bypass_all, process_shell, stdin_rx_chr}

-- A ring buffer holds up to `capacity` bytes in order: what fits is put in full, and a byte is
-- got from the front.
pub record IsRxRing {R : Type 0} (rx : RxOps R) (contents : R → List ℕ) (capacity : ℕ)
    : Type 0 where
  pub put_fits :
      (r : R) (bytes : List ℕ)
      → length (contents r) + length bytes ≤ capacity
      → (rx.put r bytes).0 ≡ length bytes
  pub put_contents :
      (r : R) (bytes : List ℕ)
      → length (contents r) + length bytes ≤ capacity
      → contents (rx.put r bytes).1 ≡ contents r ++ bytes
  pub get_empty : (r : R) → contents r ≡ [] → ((rx.get r 1).0 ≡ []) × (contents (rx.get r 1).1 ≡ [])
  pub get_front :
      (r : R) (c : ℕ) (rest : List ℕ)
      → contents r ≡ c ∷ rest
      → ((rx.get r 1).0 ≡ c ∷ []) × (contents (rx.get r 1).1 ≡ rest)

abbrev pub joined : List (List ℕ) → List ℕ
joined [] = []
joined (bytes ∷ pieces) = bytes ++ joined pieces

-- In so many calls of `shell_process`, with a sleep behind each, the shell hands out `bytes`, in
-- pieces of any sizes; what one call hands out fits the ring buffer.
pub data Types {W : Type 0} (shell_process : W → List (List ℕ) × W) (msleep : W → W) (capacity : ℕ)
    : ℕ → W → List ℕ → Type 0 where
  silent : (w : W) → Types shell_process msleep capacity 0 w []
  typed :
      (rounds : ℕ) (w : W) (bytes : List ℕ)
      → length (joined (shell_process w).0) ≤ capacity
      → Types shell_process msleep capacity rounds (msleep (shell_process w).1) bytes
      → Types shell_process msleep capacity (suc rounds) w (joined (shell_process w).0 ++ bytes)

module _ {R W : Type 0} (rx : RxOps R) (failed_to_buffer : List ℕ) (contents : R → List ℕ)
    (capacity : ℕ) (is_ring : IsRxRing rx contents capacity) where
  bypass_cb_fits :
      (bytes : List ℕ) (s : Session R W)
      → length (contents s.ring) + length bytes ≤ capacity
      → bypass_cb rx failed_to_buffer bytes s ≡ record s { ring = (rx.put s.ring bytes).1 }
  unfolding bypass_cb
  bypass_cb_fits bytes s fits =
      rw
        (
          is_ring.put_fits s.ring bytes fits,
          le→ltb_false (length bytes) (length bytes) (omega arith),
        )
        refl

  -- The state behind the pieces: only the ring buffer is another.
  bypass_all_fits :
      (pieces : List (List ℕ)) (s : Session R W)
      → length (contents s.ring) + length (joined pieces) ≤ capacity
      → (r : R) × (bypass_all rx failed_to_buffer pieces s ≡ record s { ring = r })
        × (contents r ≡ contents s.ring ++ joined pieces)
  bypass_all_fits [] s fits = (s.ring, refl, sym (append-nil (contents s.ring)))
  bypass_all_fits (bytes ∷ pieces) s fits =
      let here : length (contents s.ring) + length bytes ≤ capacity =
        omega (arith, length-append bytes (joined pieces)) in
      let r = (rx.put s.ring bytes).1 in
      let held = is_ring.put_contents s.ring bytes here in
      let (r', same, whole) =
        bypass_all_fits pieces (record s { ring = r })
          (omega (
            arith,
            ap length held,
            length-append (contents s.ring) bytes,
            length-append bytes (joined pieces),
          )) in
      (
        r',
        ap (bypass_all rx failed_to_buffer pieces) (bypass_cb_fits bytes s here) ∙ same,
        whole
            ∙ (ap (λ x. x ++ joined pieces) held
                ∙ append_assoc (contents s.ring) bytes (joined pieces)),
      )

  module _ (shell_process : W → List (List ℕ) × W) (msleep : W → W) where
    process_shell_fits :
        (s : Session R W)
        → s.bypass ≡ true
        → contents s.ring ≡ []
        → length (joined (shell_process s.world).0) ≤ capacity
        → (r : R) × (process_shell rx failed_to_buffer shell_process s
            ≡ record s { ring = r; world = (shell_process s.world).1 })
          × (contents r ≡ joined (shell_process s.world).0)
    process_shell_fits s on empty fits =
        let (pieces, world) = shell_process s.world in
        let s' = record s { world = world } in
        let (r, same, whole) = bypass_all_fits pieces s' (omega (arith, ap length empty, fits)) in
        (
          r,
          ap (λ b. if b then bypass_all rx failed_to_buffer pieces s' else s') on ∙ same,
          whole ∙ ap (λ x. x ++ joined pieces) empty,
        )

    -- The empty ring buffer is read, and the shell is called.
    pub empty_round :
        (fuel : ℕ) (s : Session R W)
        → s.bypass ≡ true
        → contents s.ring ≡ []
        → length (joined (shell_process s.world).0) ≤ capacity
        → (r : R) × (stdin_rx_chr rx failed_to_buffer shell_process msleep (suc fuel) s
            ≡ stdin_rx_chr rx failed_to_buffer shell_process msleep fuel
                (record s { ring = r; world = msleep (shell_process s.world).1 }))
          × (contents r ≡ joined (shell_process s.world).0)
    unfolding stdin_rx_chr
    empty_round fuel s on empty fits =
        let (got, left) = is_ring.get_empty s.ring empty in
        let (r, same, whole) =
          process_shell_fits (record s { ring = (rx.get s.ring 1).1 }) on left fits in
        (
          r,
          rw (stdin_rx_chr, got)
              (ap
                (λ x.
                  stdin_rx_chr rx failed_to_buffer shell_process msleep fuel
                    (record x { world = msleep x.world }))
                same),
          whole,
        )
