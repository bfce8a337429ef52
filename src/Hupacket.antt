-- ===== src/Hupacket.antt =====
-- lib/hu/hupacket.c and include/hu/hupacket.h: the packet handle, its start and its reset.
-- A pointer into `buffer` is an index, and NULL is `none`; the arrays keep their length, and a
-- read or a store outside of them is a fault, `none` of the functions that may do so.
pub mod Respond
pub mod Receive
pub mod Packet
pub mod Collect
pub mod Header
pub mod Split
pub mod Parse
pub mod Delivered
pub mod Deliver
pub mod Crc
pub mod Checked
pub mod Overruns
pub mod Buffer
pub mod Answer
pub mod RoundTrip
mod Runs
use sdkz.Common.{
  ℕ, ◌+◌, Bool, true, false, Option, none, some, List, [], ◌∷◌, get_elem?, if◌then◌else◌, replicate,
}
use sdkz.Common.Int.{ℤ}

abbrev pub enq_of_command : ℕ
enq_of_command = 0x05

abbrev pub ack_of_response : ℕ
ack_of_response = 0x06

abbrev pub nak_of_response : ℕ
nak_of_response = 0x15

abbrev pub end_of_packet : ℕ
end_of_packet = 0x04

abbrev pub crc_mark : ℕ
crc_mark = 0x1a

abbrev pub record_mark : ℕ
record_mark = 0x1e

abbrev pub id_mark : ℕ
id_mark = b'@'

abbrev pub sequence_mark : ℕ
sequence_mark = b':'

abbrev pub max_args : ℕ
max_args = 64

-- `state` is the next free index of `buffer`, and `none` is HUP_STATE_NONE.
pub record Hup : Type 0 where
  pub argc : ℕ
  pub argv : List (Option ℕ)
  pub state : Option ℕ
  pub buffer : List ℕ
  pub response : Bool
  pub crc_match : Bool
  pub id : Option ℕ
  pub sequence : Option ℕ
  pub crc16 : Option ℕ
  pub tx_buffer : List ℕ

-- What is not in this repository: the CRC of <zephyr/sys/crc.h>, `itoa` (`none` is NULL), the
-- send function that the handle was given, over a state `W`, and the constant __ELASTERROR.
pub record Env (W : Type 0) : Type 0 where
  pub crc16 : List ℕ → ℕ
  pub itoa : ℤ → ℕ → Option (List ℕ)
  pub send : List ℕ → W → ℤ × W
  pub elasterror : ℕ

-- `h->argv[i]`; outside of the array it is NULL here, and nothing reads it there.
abbrev pub arg : Hup → ℕ → Option ℕ
arg h i = elim (get_elem? h.argv i) [ none ↦ none | some p ↦ p ]

abbrev pub set_head {ℓ} : {A : Type ℓ} → List A → A → List A
set_head [] v = []
set_head (x ∷ xs) v = v ∷ xs

unfoldable pub reset_hupacket : Hup → Hup
reset_hupacket h = record h { state = none; argc = 0; crc16 = none; id = none; sequence = none }

-- The handle that was given, or that `palloc` found room for, is cleared and reset.
unfoldable pub init_hupacket : ℕ → Bool → Option Hup
unfolding reset_hupacket
init_hupacket packet_size found =
    if found
    then some (
        reset_hupacket (record {
          argc = 0;
          argv = replicate max_args none;
          state = some 0;
          buffer = replicate packet_size 0;
          response = false;
          crc_match = false;
          id = none;
          sequence = none;
          crc16 = none;
          tx_buffer = replicate packet_size 0;
        }))
    else none

-- `pfree` is that of palloc.c.
unfoldable pub deinit_hupacket : {W : Type 0} → (W → W) → Bool → W → W
deinit_hupacket pfree given w = if given then pfree w else w
