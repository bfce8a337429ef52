-- ===== src/ShellCommand.antt =====
-- app/micropython/shellcmd.c: the shell command that runs the interpreter, with what the
-- interpreter reads and writes through. The ring buffer, the shell, the shared heap and the
-- interpreter are parameters.
pub mod Stdin
pub mod Typed
pub mod Release
mod Runs
use sdkz.Common.{
  ℕ, zero, suc, Bool, true, false, Option, none, some, List, [], ◌∷◌, ◌==◌, ltb, if◌then◌else◌,
  length, bit_and, bit_or, not,
}
use sdkz.Common.Int.{ℤ, pos, negsuc}

-- <zephyr/sys/ring_buffer.h>: `init` takes the capacity, and `get` at most so many bytes.
pub record RxOps (R : Type 0) : Type 0 where
  pub init : ℕ → R
  pub put : R → List ℕ → ℕ × R
  pub get : R → ℕ → List ℕ × R

-- The static variables of the file, and what <zephyr/shell/shell.h> keeps of the callback and of
-- the lock; `printed` is what went to the shell, errors included, the last piece first.
pub record Session (R W : Type 0) : Type 0 where
  pub heap : Option ℕ
  pub rx_rb : Option ℕ
  pub ring : R
  pub active_sh : Option ℕ
  pub bypass : Bool
  pub unlocked : Bool
  pub printed : List (List ℕ)
  pub world : W

-- The terminal of the configuration without CONFIG_SHARED_MULTI_HEAP, where `rx_rb` is the ring
-- buffer itself; with it, `&rx_rb` is the address of a pointer, and what is read and written there
-- is not modelled.
module _ {R W : Type 0} (rx : RxOps R) (failed_to_buffer : List ℕ) where
  unfoldable pub bypass_cb : List ℕ → Session R W → Session R W
  bypass_cb bytes s =
      let (size, ring) = rx.put s.ring bytes in
      let s = record s { ring = ring } in
      if ltb size (length bytes) then record s { printed = failed_to_buffer ∷ s.printed } else s

  abbrev pub bypass_all : List (List ℕ) → Session R W → Session R W
  bypass_all [] s = s
  bypass_all (bytes ∷ pieces) s = bypass_all pieces (bypass_cb bytes s)

  -- `shell_process` gives the pieces with which it calls the callback that is set.
  abbrev pub process_shell : (W → List (List ℕ) × W) → Session R W → Session R W
  process_shell shell_process s =
      let (pieces, world) = shell_process s.world in
      let s = record s { world = world } in if s.bypass then bypass_all pieces s else s

  module _ (shell_process : W → List (List ℕ) × W) (msleep : W → W) where
    -- The loop, a round for each unit of fuel; `none` is that the fuel has run out.
    unfoldable pub stdin_rx_chr : ℕ → Session R W → Option (ℕ × Session R W)
    unfolding bypass_cb
    stdin_rx_chr zero s = none
    stdin_rx_chr (suc fuel) s =
        let (got, ring) = rx.get s.ring 1 in
        let s = record s { ring = ring } in
        let s' = process_shell shell_process s in
        let rest = stdin_rx_chr fuel (record s' { world = msleep s'.world }) in
        elim got [ [] ↦ rest | val ∷ _ ↦ some (val, s) ]

unfoldable pub stdout_tx_strn : {R W : Type 0} → List ℕ → Session R W → ℕ × Session R W
stdout_tx_strn str s = (length str, record s { printed = str ∷ s.printed })

-- MP_STREAM_POLL_RD and MP_STREAM_POLL_WR are of the interpreter.
unfoldable pub stdio_poll : (poll_rd poll_wr : ℕ) → ℕ → ℕ
stdio_poll poll_rd poll_wr poll_flags =
    let ret = if not (bit_and poll_flags poll_rd == 0) then bit_or 0 poll_rd else 0 in
    if not (bit_and poll_flags poll_wr == 0) then bit_or ret poll_wr else ret

-- The calls of the interpreter that `_python` makes.
pub data Call : Type 0 where
  thread_init cstack_init mp_init friendly_repl : Call
  gc_init : Option ℕ → Call
  file_if_exists : List ℕ → Call
  bluetooth_deinit pin_deinit i2c_target_deinit_all thread_deinit : Call
  gc_collect_start gc_collect_regs_and_stack gc_others gc_collect_end : Call
  gc_sweep_all mp_deinit : Call

module _ {R W : Type 0} (call : Call → Session R W → Session R W) where
  unfoldable pub gc_collect : Session R W → Session R W
  gc_collect s =
      call gc_collect_end
        (call gc_others (call gc_collect_regs_and_stack (call gc_collect_start s)))

  -- What the arguments ask for, with the callback set.
  abbrev pub run_arguments : List (List ℕ) → Session R W → Session R W
  run_arguments (name ∷ []) s = call friendly_repl s
  run_arguments (name ∷ file ∷ []) s = call (file_if_exists file) s
  run_arguments argv s = s

  -- From the initialisation of the interpreter to its end, with all options of the build.
  unfoldable pub run_interpreter : ℕ → List (List ℕ) → Session R W → Session R W
  unfolding gc_collect
  run_interpreter sh argv s =
      let s = call (gc_init s.heap) (call cstack_init (call thread_init s)) in
      let s = record (call mp_init s) { active_sh = some sh; bypass = true } in
      let s = record (run_arguments argv s) { bypass = false; unlocked = true } in
      let s = call i2c_target_deinit_all (call pin_deinit (call bluetooth_deinit s)) in
      let s = gc_collect (call thread_deinit s) in call mp_deinit (call gc_sweep_all s)

-- <zephyr/multi_heap/shared_multi_heap.h>; NULL is `none`.
pub record SharedHeap (W : Type 0) : Type 0 where
  pub aligned_alloc : ℕ → W → Option ℕ × W
  pub free : Option ℕ → W → W

-- EINVAL is 22.
abbrev pub einval : ℤ
einval = negsuc 21

module _ {R W : Type 0} (rx : RxOps R) (shared : SharedHeap W)
    (call : Call → Session R W → Session R W) (heap_size ring_size rx_buf_size : ℕ)
    (wrong_arguments : List ℕ) where
  -- `shared_multi_heap_free` of one of the two static pointers.
  abbrev free_heap : Session R W → Session R W
  free_heap s = record s { world = shared.free s.heap s.world }

  abbrev free_rx_rb : Session R W → Session R W
  free_rx_rb s = record s { world = shared.free s.rx_rb s.world }

  -- Behind the second allocation, and behind the first.
  abbrev pub with_rx : ℕ → List (List ℕ) → Session R W → ℤ × Session R W
  with_rx sh argv s = elim s.rx_rb [
    | none ↦ (negsuc 0, free_heap s)
    | some rb ↦
        let s = run_interpreter call sh argv (record s { ring = rx.init rx_buf_size }) in
        (pos 0, free_heap (free_rx_rb s))
  ]

  abbrev pub with_heap : ℕ → List (List ℕ) → Session R W → ℤ × Session R W
  with_heap sh argv s = elim s.heap [
    | none ↦ (negsuc 0, s)
    | some heap ↦
        let (found, world) = shared.aligned_alloc ring_size s.world in
        with_rx sh argv (record s { rx_rb = found; world = world })
  ]

  -- `_python` with CONFIG_SHARED_MULTI_HEAP.
  unfoldable pub python : ℕ → List (List ℕ) → Session R W → ℤ × Session R W
  unfolding run_interpreter
  python sh argv s =
      if ltb 2 (length argv)
      then (einval, record s { printed = wrong_arguments ∷ s.printed })
      else (let (found, world) = shared.aligned_alloc heap_size s.world in
          with_heap sh argv (record s { heap = found; world = world }))

  -- `_python` without it: the heap and the ring buffer are arrays.
  unfoldable pub python_static : ℕ → List (List ℕ) → Session R W → ℤ × Session R W
  unfolding run_interpreter
  python_static sh argv s =
      if ltb 2 (length argv)
      then (einval, record s { printed = wrong_arguments ∷ s.printed })
      else (pos 0, run_interpreter call sh argv (record s { ring = rx.init rx_buf_size }))
