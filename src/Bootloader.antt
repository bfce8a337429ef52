-- ===== src/Bootloader.antt =====
-- lib/hu/bootloader.c: the slot that the bootloader started, in the three configurations. The two
-- lookups are parameters over a state `W`: a result, the byte at `slot`, and the state.
mod Runs
use sdkz.Common.{ℕ, ◌≡◌, ◌⊎◌, inl, inr, refl, Bool, true, false, if◌then◌else◌, arith, Bool-cases}
use sdkz.Common.Int.{ℤ, pos, negsuc, neg, ltb_ℤ, eq_ℤ}

-- EIO and ENOTSUP of <errno.h>.
abbrev pub eio : ℕ
eio = 5

abbrev pub enotsup : ℕ
enotsup = 134

abbrev pub Lookup : Type 0 → Type 0
Lookup W = ℕ → W → ℤ × ℕ × W

-- CONFIG_RETENTION_BOOTLOADER_INFO_OUTPUT_SETTINGS: the result is a count of bytes.
abbrev pub from_settings : {W : Type 0} → ℤ × ℕ × W → ℤ × ℕ × W
from_settings (rc, slot, w) =
    if eq_ℤ rc (pos 1)
    then (pos 0, slot, w)
    else (if ltb_ℤ rc (pos 0) then rc else neg (pos eio), slot, w)

abbrev pub from_blinfo : {W : Type 0} → ℤ × ℕ × W → ℤ × ℕ × W
from_blinfo (rc, slot, w) = (if ltb_ℤ rc (pos 0) then rc else pos 0, slot, w)

-- The configurations.
pub data Config : Type 0 where
  settings : Config
  blinfo : Config
  no_info : Config

unfoldable pub active_slot : {W : Type 0} → Lookup W → Config → ℕ → W → ℤ × ℕ × W
active_slot lookup settings slot w = from_settings (lookup 0xff w)
active_slot lookup blinfo slot w = from_blinfo (lookup 0xff w)
active_slot lookup no_info slot w = (neg (pos enotsup), slot, w)

settings_result :
    {W : Type 0} (r : ℤ × ℕ × W)
    → ((from_settings r).0 ≡ pos 0) ⊎ (ltb_ℤ (from_settings r).0 (pos 0) ≡ true)
settings_result (rc, slot, w) = elim (Bool-cases (eq_ℤ rc (pos 1))) [
  | inl one ↦ rw one (inl refl)
  | inr other ↦ rw other (elim (Bool-cases (ltb_ℤ rc (pos 0))) [
    | inl failed ↦ rw failed (inr failed)
    | inr short ↦ rw short (inr refl)
  ])
]

blinfo_result :
    {W : Type 0} (r : ℤ × ℕ × W)
    → ((from_blinfo r).0 ≡ pos 0) ⊎ (ltb_ℤ (from_blinfo r).0 (pos 0) ≡ true)
blinfo_result (rc, slot, w) = elim (Bool-cases (ltb_ℤ rc (pos 0))) [
  | inl failed ↦ rw failed (inr failed)
  | inr found ↦ rw found (inl refl)
]

-- In every configuration, and whatever the lookup gives, a number of bytes other than one too, the
-- result is 0 or a negative error.
active_slot_lem :
    {W : Type 0} (lookup : Lookup W) (config : Config) (slot : ℕ) (w : W)
    → ((active_slot lookup config slot w).0 ≡ pos 0)
      ⊎ (ltb_ℤ (active_slot lookup config slot w).0 (pos 0) ≡ true)
unfolding active_slot
active_slot_lem lookup settings slot w = settings_result (lookup 0xff w)
active_slot_lem lookup blinfo slot w = blinfo_result (lookup 0xff w)
active_slot_lem lookup no_info slot w = inr refl
