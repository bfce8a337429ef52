-- ===== src/AppMain/Runs/Boot.antt =====
-- A board on which everything works, and a build with both servers.
use sdkz.Common.{ℕ, suc, ◌+◌, ◌≡◌, refl, true, false, inl, arith}
use sdkz.Common.Int.{pos}
use sdkz.Palloc.{Pool, ok, link}
use sdkz.Bootloader.{blinfo}
use sdkz.HupServer.Memory.{Holds}
use sdkz.AppMain.Led.{main_led}
use sdkz.AppMain.Start.{App, Board, Build, main, new_year}
use sdkz.AppMain.Started.{HasStarted, main-HasStarted}

-- The state counts the calls.
abbrev board : Board ℕ
board = record {
  net = record {
    has_ipv4 = λ w. true;
    add_event_callback = λ w. w + 1;
    del_event_callback = λ w. w + 1;
    resend_status = λ w. w + 1;
    init_vlan = λ w. w + 1;
    init_tunnel = λ w. w + 1;
  };
  bbram = record {
    read = λ offset w before. (pos 0, 1, w + 1);
    write = λ offset b w. (pos 0, w + 1);
  };
  bbram_ready = true;
  usb = record {
    device_ready = true;
    can_detect_vbus = false;
    init_device = λ w. (true, w + 1);
    enable = λ w. (pos 0, w + 1);
    disable = λ w. (pos 0, w + 1);
    get_dtr = λ w. (1, w + 1);
    get_baud_rate = λ w. w + 1;
    msleep = λ n w. w + 1;
  };
  lookup_slot = λ slot w. (pos 0, 1, w + 1);
  rtc = record {
    mktime = λ tm. record tm { tm_wday = pos 4 };
    set_time = λ tm w. (pos 0, w + 1);
    get_time = λ w. (pos 0, new_year, w + 1);
  };
  backup_ready = true;
  gpio = record { is_ready = true; configure = λ w. (pos 0, w + 1); toggle = λ w. (pos 0, w + 1) };
}

abbrev build : Build
build = record { l2_ethernet = true; vbat_battery = false; slot_info = blinfo }

abbrev fresh : Pool
fresh = record {
  mem = λ q. link 0 0;
  anchor = 60;
  ppool_last = 0;
  pool_size = 0;
  free_size = 0;
  num_alloc = 0;
  num_free = 0;
}

-- 336 bytes at 64, of which the linker took 40; a server needs 32 and 96 bytes, and the UART does
-- not come up.
main-HasStarted_example :
    (q : Pool) × (r : App × ℕ × ℕ) × (main board build
        (suc 536870911)
        4
        64
        104
        336
        32
        96
        true
        false
        fresh
        5
        0
      ≡ ok (q, r.0, r.1, main_led board.gpio 4 r.2))
    × Holds 288 q
    × HasStarted board build r
main-HasStarted_example =
    main-HasStarted board build 536870911 4 64 104 336 32 96 true false fresh 5 0
      (record {
        from = omega arith;
        above = omega arith;
        aligned = refl;
        top_aligned = refl;
        some_room = omega arith;
        in_words = omega arith;
        half = omega arith;
        clear = inl (omega arith);
        anchor_pos = omega arith;
        empty = refl;
        no_last = refl;
        no_free = refl;
      })
      (omega arith) (omega arith) (omega arith) (omega arith) (omega arith)
