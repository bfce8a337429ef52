-- ===== src/Huflash.antt =====
-- lib/hu/huflash.c: which partition a command opens. The table of partitions comes from the
-- device tree; the slot that runs and the flash areas are of Zephyr, and parameters over a
-- state `W`.
pub mod Commands
pub mod Decode
pub mod Chunks
pub mod Closes
mod Runs
use sdkz.Common.{
  ℕ, suc, ◌≡◌, ◌⊎◌, inl, inr, refl, ap, ◌∙◌, Bool, true, false, Option, none, some, List, [], ◌∷◌,
  ◌==◌, if◌then◌else◌, Bool-cases, ◌<◌, ◌+◌, ne→==_false, arith,
}
use sdkz.Common.Int.{ℤ, pos, negsuc, eq_ℤ}
use sdkz.Common.Strings.{str_eq}

-- EINVAL is 22; a result below 0 is an error.
abbrev pub einval : ℤ
einval = negsuc 21

abbrev pub slot0 : List ℕ
slot0 = b's' ∷ b'l' ∷ b'o' ∷ b't' ∷ b'0' ∷ []

abbrev pub slot1 : List ℕ
slot1 = b's' ∷ b'l' ∷ b'o' ∷ b't' ∷ b'1' ∷ []

abbrev pub inactive : List ℕ
inactive = b'i' ∷ b'n' ∷ b'a' ∷ b'c' ∷ b't' ∷ b'i' ∷ b'v' ∷ b'e' ∷ []

unfoldable pub get_partition_id : List (List ℕ × ℕ) → List ℕ → ℤ
get_partition_id [] name = einval
get_partition_id ((n, id) ∷ rest) name =
    if str_eq name n then pos id else get_partition_id rest name

abbrev pub HasIds : List (List ℕ × ℕ) → Type 0
HasIds [] = Unit
HasIds ((n, id) ∷ rest) = (0 < id) × HasIds rest

get_partition_id_nonzero :
    (ps : List (List ℕ × ℕ)) (name : List ℕ)
    → HasIds ps
    → eq_ℤ (get_partition_id ps name) (pos 0) ≡ false
unfolding get_partition_id
get_partition_id_nonzero [] name ids = refl
get_partition_id_nonzero ((n, id) ∷ rest) name (positive, ids) = elim (Bool-cases (str_eq name n)) [
  | inl same ↦ rw same (ne→==_false (id + 0) (0 + 0) (omega arith))
  | inr other ↦ rw other (get_partition_id_nonzero rest name ids)
]

-- bootloader_active_slot gives its result and the slot; flash_area_open its result and the area,
-- flash_area_erase and flash_area_write their results.
pub record FlashEnv (A W : Type 0) : Type 0 where
  pub partitions : List (List ℕ × ℕ)
  pub active_slot : ℤ × ℕ
  pub area_open : ℤ → W → ℤ × Option A × W
  pub area_close : A → W → W
  pub area_size : A → ℕ
  pub area_erase : A → ℕ → ℕ → W → ℤ × W
  pub area_write : A → ℤ → List ℕ → W → ℤ × W

module _ {A W : Type 0} (env : FlashEnv A W) where
  -- The id that a name stands for, with CONFIG_RETENTION_BOOTLOADER_INFO.
  unfoldable pub partition_of : List ℕ → ℤ
  unfolding get_partition_id
  partition_of name =
      let (rc, slot) = env.active_slot in
      if str_eq name inactive
      then (if eq_ℤ rc (pos 0)
          then (if slot == 0
              then get_partition_id env.partitions slot1
              else if slot == 1
              then get_partition_id env.partitions slot0
              else einval)
          else get_partition_id env.partitions name)
      else get_partition_id env.partitions name

  unfoldable pub open_flash_partition : List ℕ → W → ℤ × Option A × W
  unfolding partition_of
  open_flash_partition name w =
      let rc = partition_of name in if eq_ℤ rc (pos 0) then env.area_open rc w else (rc, none, w)

  partition_of_nonzero :
      (name : List ℕ) → HasIds env.partitions → eq_ℤ (partition_of name) (pos 0) ≡ false
  unfolding partition_of
  partition_of_nonzero name ids = elim (Bool-cases (str_eq name inactive)) [
    | inr named ↦ rw named (get_partition_id_nonzero env.partitions name ids)
    | inl by_slot ↦ elim (Bool-cases (eq_ℤ env.active_slot.0 (pos 0))) [
      | inr failed ↦ rw (by_slot, failed) (get_partition_id_nonzero env.partitions name ids)
      | inl known ↦ elim (Bool-cases (env.active_slot.1 == 0)) [
        | inl first ↦ rw (by_slot, known, first) (get_partition_id_nonzero env.partitions slot1 ids)
        | inr other ↦ elim (Bool-cases (env.active_slot.1 == 1)) [
          | inl second ↦
              rw (by_slot, known, other, second) (get_partition_id_nonzero env.partitions slot0 ids)
          | inr neither ↦ rw (by_slot, known, other, neither)
        ]
      ]
    ]
  ]

  -- With a table in which no partition has the id 0, as when the boot loader's partition has it
  -- and is not in the table, no name opens an area, whatever slot runs.
  open_flash_partition_lem :
      (name : List ℕ) (w : W)
      → HasIds env.partitions
      → open_flash_partition name w ≡ (partition_of name, none, w)
  unfolding open_flash_partition
  open_flash_partition_lem name w ids = rw (partition_of_nonzero name ids)
