-- ===== src/Udp/Runs.antt =====
-- A network on which port 7 is taken.
use sdkz.Common.{
  ℕ, ◌+◌, ◌-◌, ◌≡◌, ◌||◌, Bool, Bool-cases, ==→eq, suc, ap, ◌∙◌, sym, inl, inr, false, refl, true,
  some, [], ◌==◌, if◌then◌else◌, length, arith,
}
use mathlib.Core.Bool.{false≢true}
use sdkz.Common.Int.{ℤ, pos, negsuc, eq_ℤ, ltb_ℤ}
use sdkz.Udp.{Sockets, init_udp}
use sdkz.Udp.Resources.{IsNet, Balanced, init_udp-Balanced}

-- The open descriptors and the allocated blocks.
record Counts : Type 0 where
  opened : ℤ → Bool
  blocks : ℕ

abbrev net : Sockets ℕ Counts
net = record {
  malloc = λ w. (true, record w { blocks = w.blocks + 1 });
  free = λ w. record w { blocks = w.blocks - 1 };
  socket = λ w.
      if w.opened (pos 3)
      then (negsuc 0, w)
      else (pos 3, record w { opened = λ s. eq_ℤ s (pos 3) || w.opened s });
  bind = λ s port w. (if port == 7 then negsuc 0 else pos 0, w);
  shutdown = λ s w. w;
  close = λ s w. record w { opened = λ t. if eq_ℤ t s then false else w.opened t };
  sendto = λ s bytes client w. (pos (length bytes), w);
  recvfrom = λ s size client w. (pos 0, [], some 1, w);
  errno = λ w. 98;
}

abbrev is_open : Counts → ℤ → Bool
is_open w s = w.opened s

abbrev blocks_of : Counts → ℕ
blocks_of w = w.blocks

eq_ℤ→eq : (a b : ℤ) → eq_ℤ a b ≡ true → a ≡ b
eq_ℤ→eq (pos a) (pos b) h = ap pos (omega (arith, ==→eq (a + 0) (b + 0) h))
eq_ℤ→eq (pos a) (negsuc b) h = absurd (omega (arith, ==→eq (a + suc b) (0 + 0) h))
eq_ℤ→eq (negsuc a) (pos b) h = absurd (omega (arith, ==→eq (0 + 0) (b + suc a) h))
eq_ℤ→eq (negsuc a) (negsuc b) h = ap negsuc (omega (arith, ==→eq (0 + suc b) (0 + suc a) h))

net-IsNet : IsNet net is_open blocks_of
net-IsNet = record {
  malloc_open = λ w s. refl;
  malloc_blocks = λ w. refl;
  free_open = λ w s. refl;
  free_blocks = λ w. refl;
  socket_open = go_open;
  socket_new = go_new;
  socket_blocks = go_blocks;
  socket_errno = λ w e. omega arith;
  bind_open = λ t port w s. refl;
  bind_blocks = λ t port w. refl;
  bind_errno = λ t port w e. omega arith;
  close_open = λ t w s. refl;
  close_blocks = λ t w. refl;
  close_errno = λ t w. refl;
  shutdown_open = λ t w s. refl;
  shutdown_blocks = λ t w. refl;
}
  where
    go_open :
        (w : Counts) (s : ℤ)
        → is_open (net.socket w).1 s ≡ (
            if ltb_ℤ (net.socket w).0 (pos 0)
            then is_open w s
            else eq_ℤ s (net.socket w).0 || is_open w s)
    go_open w s = elim (Bool-cases (w.opened (pos 3))) [
      | inl opened ↦ rw opened refl
      | inr closed ↦ rw closed refl
    ]

    go_blocks : (w : Counts) → blocks_of (net.socket w).1 ≡ blocks_of w
    go_blocks w = elim (Bool-cases (w.opened (pos 3))) [
      | inl opened ↦ rw opened refl
      | inr closed ↦ rw closed refl
    ]

    go_new :
        (w : Counts) (s : ℤ)
        → ltb_ℤ (net.socket w).0 (pos 0) ≡ false
        → eq_ℤ s (net.socket w).0 ≡ true
        → is_open w s ≡ false
    go_new w s made this = elim (Bool-cases (w.opened (pos 3))) [
      | inl opened ↦ absurd (false≢true (sym (rw opened at made)))
      | inr closed ↦ ap w.opened (eq_ℤ→eq s (pos 3) (rw closed at this)) ∙ closed
    ]

abbrev before : Counts
before = record { opened = λ s. false; blocks = 5 }

init_udp-Balanced_example :
    Balanced net is_open blocks_of net-IsNet (is_open before) 5 (init_udp net 65543 before)
init_udp-Balanced_example = init_udp-Balanced net is_open blocks_of net-IsNet 65543 before
