-- ===== src/Udp.antt =====
-- lib/app/udp.c: the transport over a UDP socket. Sockets, `malloc` and errno are parameters over
-- a state `W`, and `A` is the address of a client.
pub mod Resources
mod Runs
use sdkz.Common.{ℕ, ◌+◌, ◌%◌, ◌^◌, Bool, true, false, Option, none, some, List, if◌then◌else◌}
use sdkz.Common.Int.{ℤ, pos, negsuc, neg, ltb_ℤ, leb_ℤ, eq_ℤ}

-- `struct handle`; `client` is `none` as `malloc` leaves it.
pub record Handle (A : Type 0) : Type 0 where
  pub sock : ℤ
  pub client : Option A

-- `recvfrom` gives its result, the bytes, and what is at the address that it was given.
pub record Sockets (A W : Type 0) : Type 0 where
  pub malloc : W → Bool × W
  pub free : W → W
  pub socket : W → ℤ × W
  pub bind : ℤ → ℕ → W → ℤ × W
  pub shutdown : ℤ → W → W
  pub close : ℤ → W → W
  pub sendto : ℤ → List ℕ → Option A → W → ℤ × W
  pub recvfrom : ℤ → ℕ → Option A → W → ℤ × List ℕ × Option A × W
  pub errno : W → ℕ

module _ {A W : Type 0} (net : Sockets A W) where
  unfoldable pub send_udp : List ℕ → Handle A → W → ℤ × W
  send_udp bytes h w =
      let (ret, w') = net.sendto h.sock bytes h.client w in
      (if ltb_ℤ ret (pos 0) then neg (pos (net.errno w')) else ret, w')

  unfoldable pub recv_udp : ℕ → Handle A → W → ℤ × List ℕ × Handle A × W
  recv_udp size h w =
      let (received, bytes, client, w') = net.recvfrom h.sock size h.client w in
      (
        if ltb_ℤ received (pos 0) then neg (pos (net.errno w')) else received,
        bytes,
        record h { client = client },
        w',
      )

  -- `zsock_bind` and what follows it, with the socket in the handle.
  abbrev pub bind_socket : Handle A → ℕ → W → ℤ × Handle A × W
  bind_socket h port w =
      let (ret, w1) = net.bind h.sock port w in
      let w2 = net.close h.sock w1 in
      if ltb_ℤ ret (pos 0) then (neg (pos (net.errno w2)), h, w2) else (pos 0, h, w1)

  abbrev pub bind_udp : Handle A → ℕ → W → ℤ × Handle A × W
  bind_udp h port w =
      let (sock, w1) = net.socket w in
      if ltb_ℤ sock (pos 0)
      then (neg (pos (net.errno w1)), record h { sock = sock }, w1)
      else bind_socket (record h { sock = sock }) port w1

  abbrev pub keep_bound : ℤ × Handle A × W → Option (Handle A) × W
  keep_bound (ret, h, w) = if eq_ℤ ret (pos 0) then (some h, w) else (none, net.free w)

  -- The port is kept in 16 bits.
  unfoldable pub init_udp : ℕ → W → Option (Handle A) × W
  init_udp port w =
      let (found, w1) = net.malloc w in
      if found
      then keep_bound (bind_udp (record { sock = pos 0; client = none }) (port % 2 ^ 16) w1)
      else (none, w1)

  unfoldable pub deinit_udp : Handle A → W → W
  deinit_udp h w =
      net.free (if leb_ℤ (pos 0) h.sock then net.close h.sock (net.shutdown h.sock w) else w)
