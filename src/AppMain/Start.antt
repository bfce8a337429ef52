-- ===== src/AppMain/Start.antt =====
-- The start of `main` and its end: `init_app`, the clock, the two servers, the mark in the backup
-- SRAM, and `deinit_app`. The network, the clock and the devices are parameters over a state `W`.
use sdkz.Common.{
  ℕ, ◌+◌, ◌-◌, ◌%◌, Bool, true, false, Option, none, some, ◌>>=◌, ◌==◌, if◌then◌else◌, List,
}
use sdkz.Common.Int.{ℤ, pos}
use sdkz.Palloc
use sdkz.Palloc.{Pool, Run, ok, fault, sub32, word_mod}
use sdkz.Palloc.Init.{palloc_init}
use sdkz.Bbram.{Driver, init_bbram}
use sdkz.Usb.{Stack, init_app_usb}
use sdkz.Bootloader.{Lookup, Config, active_slot}
use sdkz.HupServer.Memory.{take_server}
use sdkz.HupServer.Lifetime.{Server, Found, nothing, init_hup_server, deinit_hup_server}
use sdkz.AppMain.Led.{Gpio, Sleep, main_led}

-- The range of the tightly coupled memory that the linker left free, behind what it placed there.
unfoldable pub init_memory : ℕ → (dtcm_start dtcm_end dtcm_size : ℕ) → Pool → Run Pool
unfolding palloc_init
init_memory fuel dtcm_start dtcm_end dtcm_size p =
    palloc_init fuel dtcm_end
      (sub32 ((dtcm_end + dtcm_size) % word_mod) (sub32 dtcm_end dtcm_start)) p

-- What a handle of `struct app_data` points to: whether it is not NULL, and the server.
abbrev pub ServerHandle : Type 0
ServerHandle = Bool × Server

-- `struct app_data` but for `connected`; `mgmt_cb` is whether the callback is registered.
pub record App : Type 0 where
  pub hup_uart : ServerHandle
  pub hup_udp : ServerHandle
  pub mgmt_cb : Bool

-- The static `app`, before `main`.
abbrev pub no_app : App
no_app = record { hup_uart = (false, nothing); hup_udp = (false, nothing); mgmt_cb = false }

-- <zephyr/net/net_mgmt.h> and the network samples' init_vlan and init_tunnel.
pub record NetOps (W : Type 0) : Type 0 where
  pub has_ipv4 : W → Bool
  pub add_event_callback : W → W
  pub del_event_callback : W → W
  pub resend_status : W → W
  pub init_vlan : W → W
  pub init_tunnel : W → W

module _ {W : Type 0} (net : NetOps W) where
  -- Both transports have a `deinit`. `none` is a fault.
  unfoldable pub deinit_app : App → W → Option (App × W)
  unfolding deinit_hup_server
  deinit_app app w = do
    uart ← deinit_hup_server app.hup_uart.0 (some true) app.hup_uart.1
    udp ← deinit_hup_server app.hup_udp.0 (some true) app.hup_udp.1
    some (
      record { hup_uart = (app.hup_uart.0, uart); hup_udp = (app.hup_udp.0, udp); mgmt_cb = false },
      net.del_event_callback w,
    )

module _ {W : Type 0} (net : NetOps W) (bbram : Driver W) (bbram_ready : Bool) (usb : Stack W) where
  abbrev pub init_net : App → W → App × W
  init_net app w =
      if net.has_ipv4 w
      then (
        record app { mgmt_cb = true },
        net.init_tunnel (net.init_vlan (net.resend_status (net.add_event_callback w))),
      )
      else (app, w)

  unfoldable pub init_app : App → W → ℤ × App × W
  unfolding init_bbram init_app_usb
  init_app app w =
      let (app, w1) = init_net app w in
      let (_, w2) = init_bbram bbram bbram_ready w1 in
      let (ret, w3) = init_app_usb usb w2 in (ret, app, w3)

-- `struct tm`, whose fields `struct rtc_time` has too.
pub record Tm : Type 0 where
  pub tm_sec : ℤ
  pub tm_min : ℤ
  pub tm_hour : ℤ
  pub tm_mday : ℤ
  pub tm_mon : ℤ
  pub tm_year : ℤ
  pub tm_wday : ℤ
  pub tm_yday : ℤ
  pub tm_isdst : ℤ

-- All fields 0, and the day that the clock is set to.
abbrev pub no_time : Tm
no_time = record {
  tm_sec = pos 0;
  tm_min = pos 0;
  tm_hour = pos 0;
  tm_mday = pos 0;
  tm_mon = pos 0;
  tm_year = pos 0;
  tm_wday = pos 0;
  tm_yday = pos 0;
  tm_isdst = pos 0;
}

abbrev pub new_year : Tm
new_year = record no_time { tm_year = pos (2026 - 1900); tm_mday = pos 1 }

-- <zephyr/drivers/rtc.h>, and `mktime`, which completes what it is given.
pub record Rtc (W : Type 0) : Type 0 where
  pub mktime : Tm → Tm
  pub set_time : Tm → W → ℤ × W
  pub get_time : W → ℤ × Tm × W

module _ {W : Type 0} (rtc : Rtc W) where
  unfoldable pub set_date_time : W → ℤ × W
  set_date_time w =
      let time =
        rtc.mktime (record no_time { tm_mday = new_year.tm_mday; tm_year = new_year.tm_year }) in
      rtc.set_time (record new_year { tm_wday = time.tm_wday; tm_isdst = time.tm_isdst }) w

  -- The time that is read is only logged.
  unfoldable pub get_date_time : W → ℤ × W
  get_date_time w = let (ret, tm, w') = rtc.get_time w in (ret, w')

-- MAGIC_VALUE.
abbrev pub magic_value : ℕ
magic_value = 0xA500FF5A

unfoldable pub init_backup : Bool → ℕ → ℕ
init_backup ready magic =
    if ready then (if magic == magic_value then magic else magic_value) else magic

-- What the build chooses: CONFIG_NET_L2_ETHERNET, CONFIG_BOARD_HAS_VBAT_BATTERY, and how the
-- running slot is looked up.
pub record Build : Type 0 where
  pub l2_ethernet : Bool
  pub vbat_battery : Bool
  pub slot_info : Config

-- A server that the build leaves out.
abbrev pub not_started : Found
not_started = record { memory = false; driver = false; packet = false }

-- All that `main` calls outside of the program.
pub record Board (W : Type 0) : Type 0 where
  pub net : NetOps W
  pub bbram : Driver W
  pub bbram_ready : Bool
  pub usb : Stack W
  pub lookup_slot : Lookup W
  pub rtc : Rtc W
  pub backup_ready : Bool
  pub gpio : Gpio W

module _ {W : Type 0} (board : Board W) (build : Build) where
  abbrev pub init_clock : W → W
  init_clock w =
      let w1 = if build.vbat_battery then w else (set_date_time board.rtc w).1 in
      (get_date_time board.rtc w1).1

  -- From `init_app` to the mark, with what the calls in the starts of the two servers come to:
  -- `take_servers` below has their calls of the allocator.
  unfoldable pub init_services : (found_udp found_uart : Found) → App → ℕ → W → Option (App × ℕ × W)
  unfolding init_app init_hup_server active_slot set_date_time get_date_time init_backup
  init_services found_udp found_uart app magic w = do
    let (_, app, w1) = init_app board.net board.bbram board.bbram_ready board.usb app w
    let (_, _, w2) = active_slot board.lookup_slot build.slot_info 0xff w1
    udp ← if build.l2_ethernet then init_hup_server true true true found_udp else some app.hup_udp
    uart ← init_hup_server true true true found_uart
    some (
      record app { hup_udp = udp; hup_uart = uart },
      init_backup board.backup_ready magic,
      init_clock w2,
    )

  abbrev pub on_services : ℕ → Pool → Option (App × ℕ × W) → Run (Pool × App × ℕ × List Sleep)
  on_services rounds p none = fault
  on_services rounds p (some (app, magic, w)) = ok (p, app, magic, main_led board.gpio rounds w)

  -- What the starts of the two servers take from the allocator, in their order; the flags are
  -- whether the transports come up.
  unfoldable pub take_servers :
      (fuel sizeof_handle sizeof_hup : ℕ) (udp_driver uart_driver : Bool)
      → Pool
      → Run (Found × Found × Pool)
  take_servers fuel sizeof_handle sizeof_hup udp_driver uart_driver p =
      Palloc.◌>>=◌
        (if build.l2_ethernet
          then take_server fuel sizeof_handle sizeof_hup udp_driver p
          else ok (not_started, p))
        (λ (found_udp, p1).
          Palloc.◌>>=◌ (take_server fuel sizeof_handle sizeof_hup uart_driver p1)
            (λ (found_uart, p2). ok (found_udp, found_uart, p2)))

  -- `main`, with so many rounds of its loop.
  unfoldable pub main :
      (fuel rounds dtcm_start dtcm_end dtcm_size sizeof_handle sizeof_hup : ℕ)
      (udp_driver uart_driver : Bool)
      → Pool
      → ℕ
      → W
      → Run (Pool × App × ℕ × List Sleep)
  main fuel rounds dtcm_start dtcm_end dtcm_size sizeof_handle sizeof_hup udp_driver uart_driver p
        magic w =
      Palloc.◌>>=◌ (init_memory fuel dtcm_start dtcm_end dtcm_size p) (λ p1.
        Palloc.◌>>=◌ (take_servers fuel sizeof_handle sizeof_hup udp_driver uart_driver p1)
          (λ (found_udp, found_uart, p2).
            on_services rounds p2 (init_services found_udp found_uart no_app magic w)))
