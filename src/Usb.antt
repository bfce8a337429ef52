-- ===== src/Usb.antt =====
-- lib/app/usb.c: the USB device's start and the messages of its stack, which is a parameter over a
-- state `W`.
pub mod Wait
mod Runs
use sdkz.Common.{
  ℕ, ◌≡◌, refl, sym, ap, ◌∙◌, Bool, true, false, not, Option, none, some, List, [], ◌∷◌, ◌==◌, ◌&&◌,
  if◌then◌else◌, Bool-cases, inl, inr,
}
use sdkz.Common.Int.{ℤ, pos, neg, eq_ℤ}

-- The messages of <zephyr/usb/usbd.h> that the callback tells apart.
pub data UsbdMsg : Type 0 where
  vbus_ready : UsbdMsg
  vbus_removed : UsbdMsg
  control_line_state : UsbdMsg
  line_coding : UsbdMsg
  other : UsbdMsg

-- `get_dtr` gives 0 where it fails; the results of the other settings of the line are only logged.
pub record Stack (W : Type 0) : Type 0 where
  pub device_ready : Bool
  pub can_detect_vbus : Bool
  pub init_device : W → Bool × W
  pub enable : W → ℤ × W
  pub disable : W → ℤ × W
  pub get_dtr : W → ℕ × W
  pub get_baud_rate : W → W
  pub msleep : ℕ → W → W

-- The semaphore `dtr_sem`, which counts to 1, and the stack's state.
pub record Usb (W : Type 0) : Type 0 where
  pub dtr_sem : Bool
  pub stack : W

module _ {W : Type 0} (ops : Stack W) where
  abbrev on_vbus : UsbdMsg → W → W
  on_vbus vbus_ready w = (ops.enable w).1
  on_vbus vbus_removed w = (ops.disable w).1
  on_vbus control_line_state w = w
  on_vbus line_coding w = w
  on_vbus other w = w

  abbrev on_line : UsbdMsg → Usb W → Usb W
  on_line vbus_ready u = u
  on_line vbus_removed u = u
  on_line control_line_state u =
      let (dtr, w) = ops.get_dtr u.stack in
      record { dtr_sem = if dtr == 0 then u.dtr_sem else true; stack = w }
  on_line line_coding u = record u { stack = ops.get_baud_rate u.stack }
  on_line other u = u

  unfoldable pub sample_msg_cb : UsbdMsg → Usb W → Usb W
  sample_msg_cb msg u =
      on_line msg
        (record u { stack = if ops.can_detect_vbus then on_vbus msg u.stack else u.stack })

  -- ENODEV of <errno.h> is 19.
  unfoldable pub enable_usb_device_next : W → ℤ × W
  enable_usb_device_next w =
      let (made, w1) = ops.init_device w in
      let (err, w2) = ops.enable w1 in
      if not made
      then (neg (pos 19), w1)
      else if not ops.can_detect_vbus
      then (if eq_ℤ err (pos 0) then (pos 0, w2) else (err, w2))
      else (pos 0, w1)

  -- Behind `enable_usb_device_next`; both ends give 0.
  abbrev pub on_enabled : ℤ × W → ℤ × W
  on_enabled (ret, w) = (pos 0, if eq_ℤ ret (pos 0) then ops.msleep 500 w else w)

  -- `init_app_usb` without the wait for DTR, which only CONFIG_UART_LINE_CTRL_WAIT_DTR has.
  unfoldable pub init_app_usb : W → ℤ × W
  unfolding enable_usb_device_next
  init_app_usb w = if ops.device_ready then on_enabled (enable_usb_device_next w) else (pos 0, w)

-- <zephyr/usb/usbd.h>: `on` is whether the device is on the bus, which nothing else changes.
pub record IsStack {W : Type 0} (ops : Stack W) (on : W → Bool) : Type 0 where
  pub init_on : (w : W) → on w ≡ false → on (ops.init_device w).1 ≡ false
  pub enable_on :
      (w : W) → on (ops.enable w).1 ≡ (if eq_ℤ (ops.enable w).0 (pos 0) then true else on w)
  pub disable_on : (w : W) → on (ops.disable w).1 ≡ false
  pub dtr_on : (w : W) → on (ops.get_dtr w).1 ≡ on w
  pub baud_on : (w : W) → on (ops.get_baud_rate w) ≡ on w
  pub sleep_on : (n : ℕ) (w : W) → on (ops.msleep n w) ≡ on w

-- What VBUS was last said to be.
abbrev pub vbus_next : Bool → UsbdMsg → Bool
vbus_next vbus vbus_ready = true
vbus_next vbus vbus_removed = false
vbus_next vbus control_line_state = vbus
vbus_next vbus line_coding = vbus
vbus_next vbus other = vbus

abbrev pub vbus_after : Bool → List UsbdMsg → Bool
vbus_after vbus [] = vbus
vbus_after vbus (msg ∷ msgs) = vbus_after (vbus_next vbus msg) msgs

abbrev pub on_messages : {W : Type 0} → Stack W → List UsbdMsg → Usb W → Usb W
on_messages ops [] u = u
on_messages ops (msg ∷ msgs) u = on_messages ops msgs (sample_msg_cb ops msg u)

module _ {W : Type 0} (ops : Stack W) (on : W → Bool) (is_stack : IsStack ops on)
    (detects : ops.can_detect_vbus ≡ true)
    (enables : (w : W) → eq_ℤ (ops.enable w).0 (pos 0) ≡ true) where
  sample_msg_cb-on :
      (msg : UsbdMsg) (u : Usb W) → on (sample_msg_cb ops msg u).stack ≡ vbus_next (on u.stack) msg
  unfolding sample_msg_cb
  sample_msg_cb-on vbus_ready u =
      rw detects (is_stack.enable_on u.stack ∙ rw (enables u.stack) refl)
  sample_msg_cb-on vbus_removed u = rw detects (is_stack.disable_on u.stack)
  sample_msg_cb-on control_line_state u = rw detects (is_stack.dtr_on u.stack)
  sample_msg_cb-on line_coding u = rw detects (is_stack.baud_on u.stack)
  sample_msg_cb-on other u = rw detects refl

  on_messages-on :
      (msgs : List UsbdMsg) (u : Usb W)
      → on (on_messages ops msgs u).stack ≡ vbus_after (on u.stack) msgs
  on_messages-on [] u = refl
  on_messages-on (msg ∷ msgs) u =
      on_messages-on msgs (sample_msg_cb ops msg u)
      ∙ ap (λ vbus. vbus_after vbus msgs) (sample_msg_cb-on msg u)

  on_enabled-on : (r : ℤ × W) → on r.1 ≡ false → on (on_enabled ops r).1 ≡ false
  on_enabled-on (ret, w) off = elim (Bool-cases (eq_ℤ ret (pos 0))) [
    | inl enabled ↦ rw enabled (is_stack.sleep_on 500 w ∙ off)
    | inr failed ↦ rw failed off
  ]

  enable_usb_device_next-on : (w : W) → on w ≡ false → on (enable_usb_device_next ops w).1 ≡ false
  unfolding enable_usb_device_next
  enable_usb_device_next-on w off = elim (Bool-cases (ops.init_device w).0) [
    | inl made ↦ rw (made, detects) (is_stack.init_on w off)
    | inr failed ↦ rw failed (is_stack.init_on w off)
  ]

  init_app_usb-on : (w : W) → on w ≡ false → on (init_app_usb ops w).1 ≡ false
  unfolding init_app_usb
  init_app_usb-on w off = elim (Bool-cases ops.device_ready) [
    | inl ready ↦
        rw ready (on_enabled-on (enable_usb_device_next ops w) (enable_usb_device_next-on w off))
    | inr not_ready ↦ rw not_ready off
  ]

  -- Where the stack can detect VBUS and is enabled when the code asks for it, the device is on the
  -- bus, after the start and any messages, exactly where the last message about VBUS said that it
  -- is ready: the other messages, and the start, do not put it there.
  pub sample_msg_cb-vbus :
      (msgs : List UsbdMsg) (dtr : Bool) (w : W)
      → on w ≡ false
      → on (on_messages ops msgs (record { dtr_sem = dtr; stack = (init_app_usb ops w).1 })).stack
        ≡ vbus_after false msgs
  sample_msg_cb-vbus msgs dtr w off =
      on_messages-on msgs _ ∙ ap (λ vbus. vbus_after vbus msgs) (init_app_usb-on w off)
