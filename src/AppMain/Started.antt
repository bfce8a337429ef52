-- ===== src/AppMain/Started.antt =====
-- What the start of `main` comes to, and what `deinit_app` leaves.
use sdkz.Common.{
  ℕ, suc, ◌+◌, ◌-◌, ◌*◌, ◌%◌, ◌≤◌, ◌<◌, ◌≡◌, ◌⊎◌, refl, ap, ◌∙◌, Bool, true, false, ◌&&◌, some, [],
  ◌∷◌, ◌>>=◌, ◌==◌, if◌then◌else◌, arith, Bool-cases, inl, inr, ==→eq,
}
use sdkz.Palloc.{Pool, ok, link, allocated, word_mod, sub32}
use sdkz.Palloc.Chain.{IsHeap}
use sdkz.Palloc.Init.{palloc_init-IsHeap}
use sdkz.HupServer.Lifetime.{
  Server, Found, nothing, IsReleased, init_hup_server, deinit_hup_server,
  init_hup_server-IsReleased,
}
use sdkz.HupServer.Memory.{Holds, take_server-Holds}
use sdkz.AppMain.Led.{main_led}
use sdkz.AppMain.Start.{
  App, Board, Build, no_app, not_started, magic_value, init_memory, init_app, deinit_app,
  init_services, init_backup, take_servers, main,
}

module _ (dtcm_start dtcm_end dtcm_size : ℕ) (p : Pool) where
  -- What the linker promises of the memory: some of it is free, its end is aligned and fits a
  -- word, and the static variables of the allocator are not in the free part.
  pub record IsFreeMemory : Type 0 where
    pub from : dtcm_start ≤ dtcm_end
    pub above : 0 < dtcm_end
    pub aligned : dtcm_end % 4 ≡ 0
    pub top_aligned : (dtcm_start + dtcm_size) % 4 ≡ 0
    pub some_room : dtcm_end + 16 < dtcm_start + dtcm_size
    pub in_words : dtcm_start + dtcm_size + 3 < word_mod
    pub half : dtcm_start + dtcm_size < dtcm_end + allocated
    pub clear : (p.anchor < dtcm_end) ⊎ (dtcm_start + dtcm_size ≤ p.anchor)
    pub anchor_pos : 0 < p.anchor
    pub empty : p.mem p.anchor ≡ link 0 0
    pub no_last : p.ppool_last ≡ 0
    pub no_free : p.free_size ≡ 0

  init_memory-IsHeap :
      (fuel : ℕ)
      → IsFreeMemory
      → (q : Pool) × (init_memory (suc fuel) dtcm_start dtcm_end dtcm_size p ≡ ok q)
        × IsHeap q ((dtcm_end, dtcm_start + dtcm_size - dtcm_end - 8) ∷ [])
  unfolding init_memory
  init_memory-IsHeap fuel free =
      palloc_init-IsHeap fuel dtcm_end
        (sub32 ((dtcm_end + dtcm_size) % word_mod) (sub32 dtcm_end dtcm_start)) dtcm_end
        (dtcm_start + dtcm_size) p free.empty free.no_last free.no_free free.anchor_pos
        (omega (arith, free.aligned, free.above, free.some_room, free.in_words))
        (omega (arith, free.from, free.top_aligned, free.some_room, free.in_words)) free.above
        free.some_room free.half free.clear

-- The two servers and the callback are given back.
pub record IsStopped (a : App) : Type 0 where
  pub uart_released : IsReleased a.hup_uart.1
  pub udp_released : IsReleased a.hup_udp.1
  pub no_callback : a.mgmt_cb ≡ false

module _ {W : Type 0} (board : Board W) (build : Build) where
  init_backup-magic : (magic : ℕ) → init_backup true magic ≡ magic_value
  unfolding init_backup
  init_backup-magic magic = elim (Bool-cases (magic == magic_value)) [
    | inl marked ↦ rw marked (==→eq magic magic_value marked)
    | inr unmarked ↦ rw unmarked refl
  ]

  -- What `main` has come to where it blinks: two servers that run or did not start, and the mark.
  abbrev pub HasStarted : App × ℕ × W → Type 0
  HasStarted (app, magic, w) =
      ((w : W)
        → (stopped : App) × (w' : W) × (deinit_app board.net app w ≡ some (stopped, w'))
          × IsStopped stopped)
      × (board.backup_ready ≡ true → magic ≡ magic_value)

  uart_started :
      (found_uart : Found) (udp udp' : Server) (udp_on : Bool) (on : Bool) (magic : ℕ) (w : W)
      → deinit_hup_server udp_on (some true) udp ≡ some udp'
      → IsReleased udp'
      → (r : App × ℕ × W) × ((init_hup_server true true true found_uart >>= λ uart. some (
        record { hup_uart = uart; hup_udp = (udp_on, udp); mgmt_cb = on },
        init_backup board.backup_ready magic,
        w,
      ))
          ≡ some r)
        × HasStarted r
  unfolding deinit_app
  uart_started found udp udp' udp_on on magic w udp_end udp_released =
      let (uart, uart', started, uart_end, released) =
        init_hup_server-IsReleased found.memory found.driver found.packet in
      let app : App = record {
        hup_uart = (found.memory && (found.driver && found.packet), uart);
        hup_udp = (udp_on, udp);
        mgmt_cb = on;
      } in
      let stopped : App = record {
        hup_uart = (found.memory && (found.driver && found.packet), uart');
        hup_udp = (udp_on, udp');
        mgmt_cb = false;
      } in
      (
        (app, init_backup board.backup_ready magic, w),
        rw started refl,
        (
          λ w. (
            stopped,
            board.net.del_event_callback w,
            rw (uart_end, udp_end) refl,
            record { uart_released = released; udp_released = udp_released; no_callback = refl },
          ),
          λ ready. ap (λ b. init_backup b magic) ready ∙ init_backup-magic magic,
        ),
      )

  abbrev ServicesStart : (found_udp found_uart : Found) → App → ℕ → W → Type 0
  ServicesStart found_udp found_uart app magic w =
      (r : App × ℕ × W) × (init_services board build found_udp found_uart app magic w ≡ some r)
      × HasStarted r

  servers_started :
      (found_udp found_uart : Found) (l2 on : Bool) (magic : ℕ) (w : W)
      → (r : App × ℕ × W) × (((if l2
              then init_hup_server true true true found_udp
              else some (false, nothing))
            >>= λ udp. init_hup_server true true true found_uart >>= λ uart. some (
              record { hup_uart = uart; hup_udp = udp; mgmt_cb = on },
              init_backup board.backup_ready magic,
              w,
            ))
          ≡ some r)
        × HasStarted r
  unfolding deinit_hup_server
  servers_started found_udp found_uart false on magic w =
      uart_started found_uart nothing nothing false on magic w refl
        (record { memory = refl; driver = refl; packet = refl; thread = refl })
  servers_started found_udp found_uart true on magic w =
      let (udp, udp', started, udp_end, released) =
        init_hup_server-IsReleased found_udp.memory found_udp.driver found_udp.packet in
      let (r, same, has) = uart_started found_uart udp udp' _ on magic w udp_end released in
      (r, rw started same, has)

  init_services-HasStarted :
      (found_udp found_uart : Found) (magic : ℕ) (w : W)
      → ServicesStart found_udp found_uart no_app magic w
  unfolding init_services init_app
  init_services-HasStarted found_udp found_uart magic w = elim (Bool-cases (board.net.has_ipv4 w)) [
    | inl found ↦ rw found (servers_started found_udp found_uart build.l2_ethernet true magic _)
    | inr not_found ↦
        rw not_found (servers_started found_udp found_uart build.l2_ethernet false magic _)
  ]

  take_servers-Holds :
      (fuel most sizeof_handle sizeof_hup : ℕ) (udp_driver uart_driver : Bool) (p : Pool)
      → word_mod ≤ 8 * fuel
      → most < allocated
      → 0 < sizeof_handle
      → sizeof_handle + 11 < word_mod
      → 0 < sizeof_hup
      → sizeof_hup + 11 < word_mod
      → Holds most p
      → (found_udp found_uart : Found) × (q : Pool) × (take_servers board build fuel sizeof_handle
            sizeof_hup udp_driver uart_driver p
          ≡ ok (found_udp, found_uart, q))
        × Holds most q
  unfolding take_servers
  take_servers-Holds fuel most sizeof_handle sizeof_hup udp_driver uart_driver p enough half pos
        small pos' small' holds =
      elim (Bool-cases build.l2_ethernet) [
        | inl l2 ↦
            let (udp, p1, e, holds1, _) =
              take_server-Holds fuel most enough half sizeof_handle sizeof_hup udp_driver p pos
                small pos' small' holds in
            let (uart, p2, e', holds2, _) =
              take_server-Holds fuel most enough half sizeof_handle sizeof_hup uart_driver p1 pos
                small pos' small' holds1 in
            (udp, uart, p2, rw (l2, e, e') refl, holds2)
        | inr no_l2 ↦
            let (uart, p2, e', holds2, _) =
              take_server-Holds fuel most enough half sizeof_handle sizeof_hup uart_driver p pos
                small pos' small' holds in
            (not_started, uart, p2, rw (no_l2, e') refl, holds2)
      ]

  -- With free memory behind what the linker placed, `main` comes to its loop, whatever the drivers
  -- and the network answer and whichever of the transports come up: the allocator's list, from
  -- which the servers have taken their blocks, is in order, and has at most the bytes of that
  -- memory; the mark stands in the backup SRAM, if that is ready; and `deinit_app` would fault at
  -- nothing and give back both servers and the callback.
  pub main-HasStarted :
      (fuel rounds dtcm_start dtcm_end dtcm_size sizeof_handle sizeof_hup : ℕ)
      (udp_driver uart_driver : Bool) (p : Pool) (magic : ℕ) (w : W)
      → IsFreeMemory dtcm_start dtcm_end dtcm_size p
      → word_mod ≤ 8 * suc fuel
      → 0 < sizeof_handle
      → sizeof_handle + 11 < word_mod
      → 0 < sizeof_hup
      → sizeof_hup + 11 < word_mod
      → (q : Pool) × (r : App × ℕ × W) × (main board build
            (suc fuel)
            rounds
            dtcm_start
            dtcm_end
            dtcm_size
            sizeof_handle
            sizeof_hup
            udp_driver
            uart_driver
            p
            magic
            w
          ≡ ok (q, r.0, r.1, main_led board.gpio rounds r.2))
        × Holds (dtcm_start + dtcm_size - dtcm_end - 8) q
        × HasStarted r
  unfolding main
  main-HasStarted fuel rounds dtcm_start dtcm_end dtcm_size sizeof_handle sizeof_hup udp_driver
        uart_driver p magic w free enough pos small pos' small' =
      let (p1, made, heap) = init_memory-IsHeap dtcm_start dtcm_end dtcm_size p fuel free in
      let holds : Holds (dtcm_start + dtcm_size - dtcm_end - 8) p1 = record {
        blocks = _;
        heap = heap;
        bytes = omega (arith, heap.counted);
      } in
      let (found_udp, found_uart, q, took, holds') =
        take_servers-Holds (suc fuel) (dtcm_start + dtcm_size - dtcm_end - 8) sizeof_handle
          sizeof_hup udp_driver uart_driver p1 enough (omega (arith, free.half)) pos small pos'
          small' holds in
      let (r, started, has) = init_services-HasStarted found_udp found_uart magic w in
      (q, r, rw (made, took, started) refl, holds', has)
