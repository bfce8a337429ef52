-- ===== src/Usb/Runs.antt =====
-- A stack whose state is whether the device is on the bus.
use sdkz.Common.{ℕ, ◌≡◌, refl, Bool, true, false, List, [], ◌∷◌}
use sdkz.Common.Int.{ℤ, pos}
use sdkz.Usb.{
  Usb, UsbdMsg, vbus_ready, vbus_removed, control_line_state, Stack, IsStack, init_app_usb,
  on_messages, enable_usb_device_next, sample_msg_cb, sample_msg_cb-vbus,
}
use sdkz.Usb.Wait.{LineCtrl, IsTake, set_lines, dtr_set, init_app_usb_wait, init_app_usb_wait-waits}

abbrev stack : Stack Bool
stack = record {
  device_ready = true;
  can_detect_vbus = true;
  init_device = λ w. (true, w);
  enable = λ w. (pos 0, true);
  disable = λ w. (pos 0, false);
  get_dtr = λ w. (1, w);
  get_baud_rate = λ w. w;
  msleep = λ n w. w;
}

stack-IsStack : IsStack stack (λ w. w)
stack-IsStack = record {
  init_on = λ w off. off;
  enable_on = λ w. refl;
  disable_on = λ w. refl;
  dtr_on = λ w. refl;
  baud_on = λ w. refl;
  sleep_on = λ n w. refl;
}

sample_msg_cb-vbus_example :
    (on_messages stack
      (vbus_removed ∷ vbus_ready ∷ control_line_state ∷ [])
      (record { dtr_sem = false; stack = (init_app_usb stack false).1 })).stack
    ≡ true
sample_msg_cb-vbus_example =
    sample_msg_cb-vbus stack (λ w. w) stack-IsStack refl (λ w. refl)
      (vbus_removed ∷ vbus_ready ∷ control_line_state ∷ []) false false refl

abbrev set_line : LineCtrl → ℕ → Bool → ℤ × Bool
set_line line value w = (pos 0, w)

-- While the thread waits, VBUS comes and the host sets DTR.
abbrev msgs : List UsbdMsg
msgs = vbus_ready ∷ control_line_state ∷ []

abbrev take : Usb Bool → Usb Bool
take u = record (on_messages stack msgs u) { dtr_sem = false }

take-IsTake : IsTake stack take
unfolding sample_msg_cb
take-IsTake = record { messages = λ u. msgs; given = λ u. refl; taken = λ u. refl }

abbrev unset : Usb Bool
unset = record { dtr_sem = false; stack = false }

init_app_usb_wait-waits_example :
    (msgs : List UsbdMsg) × (dtr_set stack msgs (enable_usb_device_next stack false).1 ≡ true)
    × (init_app_usb_wait stack set_line take unset
        ≡ set_lines stack set_line take
            (record (on_messages stack msgs
              (record unset { stack = (enable_usb_device_next stack false).1 })) {
                dtr_sem = false;
              }))
unfolding enable_usb_device_next
init_app_usb_wait-waits_example =
    init_app_usb_wait-waits stack set_line take unset take-IsTake refl refl refl
