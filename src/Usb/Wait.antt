-- ===== src/Usb/Wait.antt =====
-- `init_app_usb` with CONFIG_UART_LINE_CTRL_WAIT_DTR: the start waits until the host sets DTR.
use sdkz.Common.{
  ℕ, ◌≡◌, refl, sym, ap, ap₂, ◌∙◌, Bool, true, false, not, ◌||◌, List, [], ◌∷◌, ◌==◌, if◌then◌else◌,
}
use sdkz.Common.Int.{ℤ, pos, eq_ℤ}
use sdkz.Usb.{
  UsbdMsg, Stack, Usb, vbus_ready, vbus_removed, control_line_state, line_coding, other,
  sample_msg_cb, enable_usb_device_next, on_messages,
}

-- UART_LINE_CTRL_DCD and UART_LINE_CTRL_DSR.
pub data LineCtrl : Type 0 where
  dcd : LineCtrl
  dsr : LineCtrl

-- `uart_line_ctrl_set` gives its result, which is only logged; `k_sem_take` of `dtr_sem` returns
-- when the semaphore was taken, with what the callback did in the meantime.
module _ {W : Type 0} (ops : Stack W) (line_ctrl_set : LineCtrl → ℕ → W → ℤ × W)
    (k_sem_take : Usb W → Usb W) where
  abbrev pub set_lines : Usb W → Usb W
  set_lines u =
      let (_, w1) = line_ctrl_set dcd 1 u.stack in
      let (_, w2) = line_ctrl_set dsr 1 w1 in record u { stack = ops.msleep 500 w2 }

  abbrev pub on_enabled_wait : Bool → ℤ × W → Usb W
  on_enabled_wait dtr (ret, w) =
      let u : Usb W = record { dtr_sem = dtr; stack = w } in
      if eq_ℤ ret (pos 0) then set_lines (k_sem_take u) else u

  -- The result is 0 at every end.
  unfoldable pub init_app_usb_wait : Usb W → Usb W
  init_app_usb_wait u =
      if ops.device_ready then on_enabled_wait u.dtr_sem (enable_usb_device_next ops u.stack) else u

-- What the stack does with a message, apart from the semaphore.
abbrev pub after_message : {W : Type 0} → Stack W → UsbdMsg → W → W
after_message ops vbus_ready w = if ops.can_detect_vbus then (ops.enable w).1 else w
after_message ops vbus_removed w = if ops.can_detect_vbus then (ops.disable w).1 else w
after_message ops control_line_state w = (ops.get_dtr w).1
after_message ops line_coding w = ops.get_baud_rate w
after_message ops other w = w

-- Whether the message is one about the control lines, and DTR is then set.
abbrev pub sets_dtr : {W : Type 0} → Stack W → UsbdMsg → W → Bool
sets_dtr ops vbus_ready w = false
sets_dtr ops vbus_removed w = false
sets_dtr ops control_line_state w = not ((ops.get_dtr w).0 == 0)
sets_dtr ops line_coding w = false
sets_dtr ops other w = false

-- Whether DTR is set at one of the messages about the control lines.
abbrev pub dtr_set : {W : Type 0} → Stack W → List UsbdMsg → W → Bool
dtr_set ops [] w = false
dtr_set ops (msg ∷ msgs) w = sets_dtr ops msg w || dtr_set ops msgs (after_message ops msg w)

-- <zephyr/kernel.h>: while the thread waits for the semaphore some messages come to the callback;
-- the thread goes on when the semaphore is given, and takes it.
pub record IsTake {W : Type 0} (ops : Stack W) (k_sem_take : Usb W → Usb W) : Type 0 where
  pub messages : Usb W → List UsbdMsg
  pub given : (u : Usb W) → (on_messages ops (messages u) u).dtr_sem ≡ true
  pub taken :
      (u : Usb W) → k_sem_take u ≡ record (on_messages ops (messages u) u) { dtr_sem = false }

same_branches : {A : Type 0} (b : Bool) (a : A) → (if b then a else a) ≡ a
same_branches true a = refl
same_branches false a = refl

unless : (b d : Bool) → (if b then d else true) ≡ (not b || d)
unless true d = refl
unless false d = refl

or_swap : (a b c : Bool) → (a || (b || c)) ≡ ((b || a) || c)
or_swap true true c = refl
or_swap true false c = refl
or_swap false true c = refl
or_swap false false c = refl

or_false : (b : Bool) → (b || false) ≡ b
or_false true = refl
or_false false = refl

module _ {W : Type 0} (ops : Stack W) where
  sample_msg_cb-dtr :
      (msg : UsbdMsg) (u : Usb W)
      → ((sample_msg_cb ops msg u).dtr_sem ≡ (sets_dtr ops msg u.stack || u.dtr_sem))
        × ((sample_msg_cb ops msg u).stack ≡ after_message ops msg u.stack)
  unfolding sample_msg_cb
  sample_msg_cb-dtr vbus_ready u = (refl, refl)
  sample_msg_cb-dtr vbus_removed u = (refl, refl)
  sample_msg_cb-dtr control_line_state u =
      let same = same_branches ops.can_detect_vbus u.stack in
      (
        ap (λ w. if (ops.get_dtr w).0 == 0 then u.dtr_sem else true) same
            ∙ unless ((ops.get_dtr u.stack).0 == 0) u.dtr_sem,
        ap (λ w. (ops.get_dtr w).1) same,
      )
  sample_msg_cb-dtr line_coding u =
      (refl, ap ops.get_baud_rate (same_branches ops.can_detect_vbus u.stack))
  sample_msg_cb-dtr other u = (refl, same_branches ops.can_detect_vbus u.stack)

  on_messages-dtr :
      (msgs : List UsbdMsg) (u : Usb W)
      → (on_messages ops msgs u).dtr_sem ≡ (dtr_set ops msgs u.stack || u.dtr_sem)
  on_messages-dtr [] u = refl
  on_messages-dtr (msg ∷ msgs) u =
      let (given, left) = sample_msg_cb-dtr msg u in
      on_messages-dtr msgs (sample_msg_cb ops msg u)
      ∙ (ap₂ (λ w d. dtr_set ops msgs w || d) left given
          ∙ or_swap (dtr_set ops msgs (after_message ops msg u.stack)) (sets_dtr ops msg u.stack)
              u.dtr_sem)

  -- With a device that is ready and can be enabled, and the semaphore not given before, the start
  -- goes on behind its wait only where the host set DTR in one of the messages that came during
  -- the wait: it then sets the two lines, over what these messages left, with the semaphore taken.
  pub init_app_usb_wait-waits :
      (line_ctrl_set : LineCtrl → ℕ → W → ℤ × W) (k_sem_take : Usb W → Usb W) (u : Usb W)
      → IsTake ops k_sem_take
      → ops.device_ready ≡ true
      → eq_ℤ (enable_usb_device_next ops u.stack).0 (pos 0) ≡ true
      → u.dtr_sem ≡ false
      → (msgs : List UsbdMsg) × (dtr_set ops msgs (enable_usb_device_next ops u.stack).1 ≡ true)
        × (init_app_usb_wait ops line_ctrl_set k_sem_take u
            ≡ set_lines ops line_ctrl_set k_sem_take
                (record (on_messages ops msgs
                  (record u { stack = (enable_usb_device_next ops u.stack).1 })) {
                    dtr_sem = false;
                  }))
  unfolding init_app_usb_wait enable_usb_device_next sample_msg_cb
  init_app_usb_wait-waits line_ctrl_set k_sem_take u is_take ready enabled unset =
      let w1 = (enable_usb_device_next ops u.stack).1 in
      let u1 = record u { stack = w1 } in
      let msgs = is_take.messages u1 in
      (
        msgs,
        sym (or_false (dtr_set ops msgs w1))
            ∙ (ap (λ d. dtr_set ops msgs w1 || d) (sym unset)
                ∙ (sym (on_messages-dtr msgs u1) ∙ is_take.given u1)),
        rw (ready, enabled) (ap (set_lines ops line_ctrl_set k_sem_take) (is_take.taken u1)),
      )
