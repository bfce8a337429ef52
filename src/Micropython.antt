-- ===== src/Micropython.antt =====
-- modules/micropython/src/mphalport.c: the light port of the interpreter to the shell and to the
-- file system. Both are parameters, as is the interpreter.
pub mod Load
mod Runs
use sdkz.Common.{
  ℕ, Bool, true, false, Option, none, some, List, [], ◌∷◌, length, ltb, ◌==◌, if◌then◌else◌,
}
use sdkz.Common.Int.{ℤ, pos, ltb_ℤ, eq_ℤ}
use sdkz.ShellCommand
use sdkz.ShellCommand.{
  RxOps, Session, Call, cstack_init, mp_init, friendly_repl, gc_init, file_if_exists,
  gc_collect_start, gc_collect_regs_and_stack, gc_collect_end, gc_sweep_all, mp_deinit, einval,
  run_arguments,
}

-- `mp_import_stat_t`, and the types of a directory entry of <zephyr/fs/fs.h>.
pub data ImportStat : Type 0 where
  stat_no_exist : ImportStat
  stat_dir : ImportStat
  stat_file : ImportStat

pub data EntryType : Type 0 where
  entry_file : EntryType
  entry_dir : EntryType
  entry_other : EntryType

abbrev pub stat_of : EntryType → ImportStat
stat_of entry_file = stat_file
stat_of entry_dir = stat_dir
stat_of entry_other = stat_no_exist

-- A function returns, or raises an OSError.
pub data Outcome (A : Type 0) : Type 0 where
  returned : A → Outcome A
  raised : ℕ → Outcome A

-- MP_EIO and MP_ENOENT.
abbrev pub mp_eio : ℕ
mp_eio = 5

abbrev pub mp_enoent : ℕ
mp_enoent = 2

-- <zephyr/fs/fs.h>, and `m_new_obj` and `m_del_obj` of the interpreter; a file object is a number,
-- and a read gives what is at its address then.
pub record FileSystem (W : Type 0) : Type 0 where
  pub stat : List ℕ → W → ℤ × EntryType × W
  pub new_obj : W → ℕ × W
  pub del_obj : ℕ → W → W
  pub init : ℕ → W → W
  pub open_read : ℕ → List ℕ → W → ℤ × W
  pub read : ℕ → ℕ → W → ℤ × ℕ × W
  pub close : ℕ → W → ℤ × W

module _ {W : Type 0} (fs : FileSystem W) where
  -- With CONFIG_MICROPYTHON_FILE_SYSTEM.
  unfoldable pub import_stat : List ℕ → W → ImportStat × W
  import_stat path w =
      let (ret, type, w') = fs.stat path w in
      (if ltb_ℤ ret (pos 0) then stat_no_exist else stat_of type, w')

  -- MP_READER_EOF is `none`.
  abbrev pub byte_read : ℤ → ℕ → Outcome (Option ℕ)
  byte_read ret val =
      if ltb_ℤ ret (pos 0)
      then raised mp_eio
      else if eq_ℤ ret (pos 0)
      then returned none
      else returned (some val)

  unfoldable pub file_readbyte : ℕ → W → Outcome (Option ℕ) × W
  file_readbyte file w = let (ret, val, w') = fs.read file 1 w in (byte_read ret val, w')

  unfoldable pub file_close : ℕ → W → Outcome Bool × W
  file_close file w =
      let (ret, w1) = fs.close file w in
      (if eq_ℤ ret (pos 0) then returned true else raised mp_eio, fs.del_obj file w1)

  abbrev pub opened : ℕ → ℤ × W → Outcome ℕ × W
  opened file (ret, w) =
      if eq_ℤ ret (pos 0) then (returned file, w) else (raised mp_enoent, fs.del_obj file w)

  -- The reader of the lexer that is made is the file object with the two functions above.
  unfoldable pub lexer_new_from_file : List ℕ → W → Outcome ℕ × W
  lexer_new_from_file filename w =
      let (file, w1) = fs.new_obj w in opened file (fs.open_read file filename (fs.init file w1))

module _ {R W : Type 0} (call : Call → Session R W → Session R W) where
  unfoldable pub gc_collect : Session R W → Session R W
  gc_collect s = call gc_collect_end (call gc_collect_regs_and_stack (call gc_collect_start s))

  abbrev pub run_python : ℕ → List (List ℕ) → Session R W → Session R W
  run_python sh argv s =
      let s = call mp_init (call (gc_init s.heap) (call cstack_init s)) in
      let s = record s { active_sh = some sh; bypass = true } in
      let s = record (run_arguments call argv s) { bypass = false; unlocked = true } in
      call mp_deinit (call gc_sweep_all s)

  unfoldable pub cmd_python :
      RxOps R
      → (rx_buf_size : ℕ) (wrong_arguments : List ℕ) (sh : ℕ) → List (List ℕ)
      → Session R W
      → ℤ × Session R W
  cmd_python rx rx_buf_size wrong_arguments sh argv s =
      if ltb 2 (length argv)
      then (einval, record s { printed = wrong_arguments ∷ s.printed })
      else (pos 0, run_python sh argv (record s { ring = rx.init rx_buf_size }))

-- The terminal's functions are those of app/micropython/shellcmd.c, statement by statement.
module _ {R W : Type 0} (rx : RxOps R) (failed_to_buffer : List ℕ) where
  unfoldable pub bypass_callback : List ℕ → Session R W → Session R W
  unfolding ShellCommand.bypass_cb
  bypass_callback bytes s = ShellCommand.bypass_cb rx failed_to_buffer bytes s

  unfoldable pub module_stdin_rx_chr :
      (W → List (List ℕ) × W) → (W → W) → ℕ → Session R W → Option (ℕ × Session R W)
  unfolding ShellCommand.stdin_rx_chr
  module_stdin_rx_chr shell_process msleep fuel s =
      ShellCommand.stdin_rx_chr rx failed_to_buffer shell_process msleep fuel s

unfoldable pub module_stdout_tx_strn : {R W : Type 0} → List ℕ → Session R W → ℕ × Session R W
unfolding ShellCommand.stdout_tx_strn
module_stdout_tx_strn str s = ShellCommand.stdout_tx_strn str s
