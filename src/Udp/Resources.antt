-- ===== src/Udp/Resources.antt =====
-- What the UDP transport takes and gives back.
use sdkz.Common.{
  ℕ, suc, ◌+◌, ◌-◌, ◌%◌, ◌^◌, ◌≡◌, ◌≢◌, ◌||◌, Bool, sym, ap, ◌∙◌, true, false, Option, none, some,
  if◌then◌else◌, Bool-cases, inl, inr, arith,
}
use sdkz.Common.Int.{ℤ, pos, negsuc, neg, ltb_ℤ, leb_ℤ, eq_ℤ}
use sdkz.Udp.{Handle, Sockets, bind_socket, bind_udp, keep_bound, init_udp, deinit_udp}

-- The calls as <zephyr/net/socket.h> and <stdlib.h> have them, with the descriptors that are open
-- and the count of allocated blocks: a socket gets a descriptor that was not open, a call that
-- fails takes nothing and sets errno, and closing a descriptor closes that one.
pub record IsNet {A W : Type 0} (net : Sockets A W) (is_open : W → ℤ → Bool) (blocks : W → ℕ)
    : Type 0 where
  pub malloc_open : (w : W) (s : ℤ) → is_open (net.malloc w).1 s ≡ is_open w s
  pub malloc_blocks :
      (w : W) → blocks (net.malloc w).1 ≡ (if (net.malloc w).0 then blocks w + 1 else blocks w)
  pub free_open : (w : W) (s : ℤ) → is_open (net.free w) s ≡ is_open w s
  pub free_blocks : (w : W) → blocks (net.free w) ≡ blocks w - 1
  pub socket_open :
      (w : W) (s : ℤ)
      → is_open (net.socket w).1 s ≡ (
          if ltb_ℤ (net.socket w).0 (pos 0)
          then is_open w s
          else eq_ℤ s (net.socket w).0 || is_open w s)
  pub socket_new :
      (w : W) (s : ℤ)
      → ltb_ℤ (net.socket w).0 (pos 0) ≡ false
      → eq_ℤ s (net.socket w).0 ≡ true
      → is_open w s ≡ false
  pub socket_blocks : (w : W) → blocks (net.socket w).1 ≡ blocks w
  pub socket_errno :
      (w : W) → ltb_ℤ (net.socket w).0 (pos 0) ≡ true → net.errno (net.socket w).1 ≢ 0
  pub bind_open : (t : ℤ) (port : ℕ) (w : W) (s : ℤ) → is_open (net.bind t port w).1 s ≡ is_open w s
  pub bind_blocks : (t : ℤ) (port : ℕ) (w : W) → blocks (net.bind t port w).1 ≡ blocks w
  pub bind_errno :
      (t : ℤ) (port : ℕ) (w : W)
      → ltb_ℤ (net.bind t port w).0 (pos 0) ≡ true
      → net.errno (net.bind t port w).1 ≢ 0
  pub close_open :
      (t : ℤ) (w : W) (s : ℤ)
      → is_open (net.close t w) s ≡ (if eq_ℤ s t then false else is_open w s)
  pub close_blocks : (t : ℤ) (w : W) → blocks (net.close t w) ≡ blocks w
  pub close_errno : (t : ℤ) (w : W) → net.errno (net.close t w) ≡ net.errno w
  pub shutdown_open : (t : ℤ) (w : W) (s : ℤ) → is_open (net.shutdown t w) s ≡ is_open w s
  pub shutdown_blocks : (t : ℤ) (w : W) → blocks (net.shutdown t w) ≡ blocks w

module _ {A W : Type 0} (net : Sockets A W) (is_open : W → ℤ → Bool) (blocks : W → ℕ)
    (is_net : IsNet net is_open blocks) where
  -- With so many blocks and these descriptors before: NULL leaves them. A handle has a block, and
  -- its descriptor is open and was not; all others are as they were. `_deinit_udp` gives both back.
  abbrev pub Balanced : (ℤ → Bool) → ℕ → Option (Handle A) × W → Type 0
  Balanced before m (none, w) = ((s : ℤ) → is_open w s ≡ before s) × (blocks w ≡ m)
  Balanced before m (some h, w) =
      ((s : ℤ) → is_open w s ≡ (eq_ℤ s h.sock || before s))
      × ((s : ℤ) → eq_ℤ s h.sock ≡ true → before s ≡ false)
      × (blocks w ≡ suc m)
      × ((s : ℤ) → is_open (deinit_udp net h w) s ≡ before s)
      × (blocks (deinit_udp net h w) ≡ m)

  refused-Balanced :
      (before : ℤ → Bool) (m e : ℕ) (h : Handle A) (w : W)
      → e ≢ 0
      → ((s : ℤ) → is_open w s ≡ before s)
      → blocks w ≡ suc m
      → Balanced before m (keep_bound net (neg (pos e), h, w))
  refused-Balanced before m e h w nonzero same b =
      rw (negated_nonzero e nonzero)
        (λ s. is_net.free_open w s ∙ same s, omega (arith, is_net.free_blocks w, b))
    where
      negated_nonzero : (e : ℕ) → e ≢ 0 → eq_ℤ (neg (pos e)) (pos 0) ≡ false
      negated_nonzero e nonzero = ground arith

  deinit_udp-valid :
      (h : Handle A) (w : W)
      → leb_ℤ (pos 0) h.sock ≡ true
      → deinit_udp net h w ≡ net.free (net.close h.sock (net.shutdown h.sock w))
  unfolding deinit_udp
  deinit_udp-valid h w valid = rw (valid, deinit_udp)

  -- The descriptor of the handle, and no other, is open beside those before.
  abbrev Opened : (ℤ → Bool) → ℤ → W → Type 0
  Opened before t w =
      ((s : ℤ) → is_open w s ≡ (eq_ℤ s t || before s))
      × ((s : ℤ) → eq_ℤ s t ≡ true → before s ≡ false)

  close-Opened :
      (before : ℤ → Bool) (t : ℤ) (w : W)
      → Opened before t w
      → (s : ℤ) → is_open (net.close t w) s ≡ before s
  close-Opened before t w (same, new) s = elim (Bool-cases (eq_ℤ s t)) [
    | inl this ↦ is_net.close_open t w s ∙ rw this (sym (new s this))
    | inr others ↦ is_net.close_open t w s ∙ rw others (rw others at (same s))
  ]

  bound-Balanced :
      (before : ℤ → Bool) (m : ℕ) (h : Handle A) (w : W)
      → leb_ℤ (pos 0) h.sock ≡ true
      → Opened before h.sock w
      → blocks w ≡ suc m
      → Balanced before m (keep_bound net (pos 0, h, w))
  bound-Balanced before m h w valid (same, new) b =
      let w1 = net.shutdown h.sock w in
      let w2 = net.close h.sock w1 in
      let released = deinit_udp-valid h w valid in
      let balanced : Balanced before m (some h, w) = (
        same,
        new,
        b,
        λ s.
            ap (λ x. is_open x s) released
            ∙ (is_net.free_open w2 s
                ∙ close-Opened before h.sock w1 (λ s. is_net.shutdown_open h.sock w s ∙ same s, new)
                    s),
        ap blocks released
            ∙ omega (
              arith,
              is_net.free_blocks w2,
              is_net.close_blocks h.sock w1,
              is_net.shutdown_blocks h.sock w,
              b,
            ),
      ) in
      balanced

  bind_socket-Balanced :
      (before : ℤ → Bool) (m port : ℕ) (h : Handle A) (w : W)
      → ltb_ℤ h.sock (pos 0) ≡ false
      → Opened before h.sock w
      → blocks w ≡ suc m
      → Balanced before m (keep_bound net (bind_socket net h port w))
  bind_socket-Balanced before m port h w valid (same, new) b =
      let w1 = (net.bind h.sock port w).1 in
      let bound_open : Opened before h.sock w1 =
        (λ s. is_net.bind_open h.sock port w s ∙ same s, new) in
      elim (Bool-cases (ltb_ℤ (net.bind h.sock port w).0 (pos 0))) [
        | inl failed ↦ rw failed (
            refused-Balanced before m _ h (net.close h.sock w1)
              (λ e. is_net.bind_errno h.sock port w failed (sym (is_net.close_errno h.sock w1) ∙ e))
              (close-Opened before h.sock w1 bound_open)
              (is_net.close_blocks h.sock w1 ∙ (is_net.bind_blocks h.sock port w ∙ b)))
        | inr bound ↦ rw bound (
            bound-Balanced before m h w1 (not_below h.sock valid) bound_open
              (is_net.bind_blocks h.sock port w ∙ b))
      ]
    where
      not_below : (s : ℤ) → ltb_ℤ s (pos 0) ≡ false → leb_ℤ (pos 0) s ≡ true
      not_below (pos k) h = ground arith
      not_below (negsuc k) h = ground arith

  bind_udp-Balanced :
      (m port : ℕ) (h : Handle A) (w : W)
      → blocks w ≡ suc m
      → Balanced (is_open w) m (keep_bound net (bind_udp net h port w))
  bind_udp-Balanced m port h w b =
      let (sock, w1) = net.socket w in
      elim (Bool-cases (ltb_ℤ (net.socket w).0 (pos 0))) [
        | inl failed ↦ rw failed (
            refused-Balanced (is_open w) m _ _ w1 (is_net.socket_errno w failed)
              (λ s. rw failed at (is_net.socket_open w s)) (is_net.socket_blocks w ∙ b))
        | inr made ↦ rw made (
            bind_socket-Balanced (is_open w) m port _ w1 made
              (λ s. rw made at (is_net.socket_open w s), λ s this. is_net.socket_new w s made this)
              (is_net.socket_blocks w ∙ b))
      ]

  -- Whatever fails on the way, `_init_udp` that gives NULL leaves the descriptors and the blocks as
  -- they were; a handle that it gives stands for one block and for one descriptor more, its own,
  -- and `_deinit_udp` gives back these two and closes no other.
  pub init_udp-Balanced : (port : ℕ) (w : W) → Balanced (is_open w) (blocks w) (init_udp net port w)
  unfolding init_udp
  init_udp-Balanced port w =
      let w1 = (net.malloc w).1 in
      elim (Bool-cases (net.malloc w).0) [
        | inl found ↦ rw found (
            same-Balanced (is_open w1) (is_open w) (blocks w) _ (is_net.malloc_open w) (
              bind_udp-Balanced (blocks w) (port % 2 ^ 16) (record { sock = pos 0; client = none })
                w1 (omega (arith, rw found at (is_net.malloc_blocks w)))))
        | inr full ↦ rw full (is_net.malloc_open w, rw full at (is_net.malloc_blocks w))
      ]
    where
      same-Balanced :
          (before before' : ℤ → Bool) (m : ℕ) (r : Option (Handle A) × W)
          → ((s : ℤ) → before s ≡ before' s)
          → Balanced before m r
          → Balanced before' m r
      same-Balanced before before' m (none, w) same (left, b) = (λ s. left s ∙ same s, b)
      same-Balanced before before' m (some h, w) same (opened, new, b, left, b') = (
        λ s. opened s ∙ ap (λ x. eq_ℤ s h.sock || x) (same s),
        λ s this. sym (same s) ∙ new s this,
        b,
        λ s. left s ∙ same s,
        b',
      )
