-- ===== src/ShellCommand/Release.antt =====
-- What `_python` takes from the shared heap and from the shell, and gives back.
use sdkz.Common.{
  ℕ, ◌≡◌, refl, ◌∙◌, ap, Bool, true, false, Option, none, some, List, [], ◌∷◌, ltb, length,
  Bool-cases, Option-cases, inl, inr,
}
use sdkz.Common.Int.{ℤ}
use sdkz.ShellCommand.{
  RxOps, Session, Call, SharedHeap, friendly_repl, file_if_exists, thread_init, cstack_init,
  mp_init, gc_init, bluetooth_deinit, pin_deinit, i2c_target_deinit_all, thread_deinit,
  gc_collect_start, gc_collect_regs_and_stack, gc_others, gc_collect_end, gc_sweep_all, mp_deinit,
  gc_collect, run_arguments, run_interpreter, with_rx, with_heap, python,
}

-- The blocks of the shared heap that are allocated, the last one first.
record IsSharedHeap {W : Type 0} (shared : SharedHeap W) (live : W → List ℕ) : Type 0 where
  pub alloc_some :
      (n p : ℕ) (w : W)
      → (shared.aligned_alloc n w).0 ≡ some p
      → live (shared.aligned_alloc n w).1 ≡ p ∷ live w
  pub alloc_none :
      (n : ℕ) (w : W)
      → (shared.aligned_alloc n w).0 ≡ none
      → live (shared.aligned_alloc n w).1 ≡ live w
  pub free_last :
      (p : ℕ) (w : W) (rest : List ℕ) → live w ≡ p ∷ rest → live (shared.free (some p) w) ≡ rest

module _ {R W : Type 0} (live : W → List ℕ) where
  -- Both blocks are allocated, on top of `rest`, and the callback is set or not.
  record Runs (heap rb : ℕ) (rest : List ℕ) (on : Bool) (s : Session R W) : Type 0 where
    pub heap_kept : s.heap ≡ some heap
    pub rb_kept : s.rx_rb ≡ some rb
    pub both_live : live s.world ≡ rb ∷ heap ∷ rest
    pub callback : s.bypass ≡ on

  -- What the interpreter needs where it is started: a way to its terminal.
  abbrev Needs : Call → Session R W → Type 0
  Needs friendly_repl s = (s.bypass ≡ true) × (sh : ℕ) × (s.active_sh ≡ some sh)
  Needs (file_if_exists file) s = (s.bypass ≡ true) × (sh : ℕ) × (s.active_sh ≡ some sh)
  Needs c s = Unit

  -- An interpreter that leaves its terminal alone, which in this configuration writes over the
  -- pointer rx_rb. Where its memory is allocated, and what it needs is there, it gives back all
  -- that it takes from the shared heap, and leaves the two pointers and the callback.
  abbrev IsInterpreter : (Call → Session R W → Session R W) → Type 0
  IsInterpreter call =
      (c : Call) (heap rb : ℕ) (rest : List ℕ) (on : Bool) (s : Session R W)
      → Needs c s
      → Runs heap rb rest on s
      → Runs heap rb rest on (call c s)

module _ {R W : Type 0} (rx : RxOps R) (shared : SharedHeap W)
    (call : Call → Session R W → Session R W) (live : W → List ℕ)
    (is_heap : IsSharedHeap shared live) (is_interpreter : IsInterpreter live call) where
  run_arguments-Runs :
      (argv : List (List ℕ)) (sh heap rb : ℕ) (rest : List ℕ) (s : Session R W)
      → s.active_sh ≡ some sh
      → Runs live heap rb rest true s
      → Runs live heap rb rest true (run_arguments call argv s)
  run_arguments-Runs [] sh heap rb rest s active runs = runs
  run_arguments-Runs (name ∷ []) sh heap rb rest s active runs =
      is_interpreter friendly_repl heap rb rest true s (runs.callback, sh, active) runs
  run_arguments-Runs (name ∷ file ∷ []) sh heap rb rest s active runs =
      is_interpreter (file_if_exists file) heap rb rest true s (runs.callback, sh, active) runs
  run_arguments-Runs (name ∷ file ∷ other ∷ more) sh heap rb rest s active runs = runs

  run_interpreter-Runs :
      (sh heap rb : ℕ) (argv : List (List ℕ)) (rest : List ℕ) (on : Bool) (s : Session R W)
      → Runs live heap rb rest on s
      → Runs live heap rb rest false (run_interpreter call sh argv s)
  unfolding run_interpreter gc_collect
  run_interpreter-Runs sh heap rb argv rest on s runs =
      let started =
        step on mp_init _ tt
          (step on (gc_init _) _ tt (step on cstack_init _ tt (step on thread_init s tt runs))) in
      let argued =
        run_arguments-Runs argv sh heap rb rest _ refl (switched on true (some sh) _ started) in
      let stopped = released _ argued in
      let ended = step false thread_deinit _ tt (
        step false i2c_target_deinit_all _ tt
          (step false pin_deinit _ tt (step false bluetooth_deinit _ tt stopped))) in
      let collected = step false gc_collect_end _ tt (
        step false gc_others _ tt
          (step false gc_collect_regs_and_stack _ tt (step false gc_collect_start _ tt ended))) in
      step false mp_deinit _ tt (step false gc_sweep_all _ tt collected)
    where
      step :
          (on : Bool) (c : Call) (s : Session R W)
          → Needs live c s
          → Runs live heap rb rest on s
          → Runs live heap rb rest on (call c s)
      step on c s needs runs = is_interpreter c heap rb rest on s needs runs

      switched :
          (on on' : Bool) (sh : Option ℕ) (s : Session R W)
          → Runs live heap rb rest on s
          → Runs live heap rb rest on' (record s { active_sh = sh; bypass = on' })
      switched on on' sh s runs = record {
        heap_kept = runs.heap_kept;
        rb_kept = runs.rb_kept;
        both_live = runs.both_live;
        callback = refl;
      }

      released :
          (s : Session R W)
          → Runs live heap rb rest true s
          → Runs live heap rb rest false (record s { bypass = false; unlocked = true })
      released s runs = record {
        heap_kept = runs.heap_kept;
        rb_kept = runs.rb_kept;
        both_live = runs.both_live;
        callback = refl;
      }

  module _ (heap_size ring_size rx_buf_size : ℕ) (wrong_arguments : List ℕ) where
    -- The blocks are those that were there before, and the callback is not set.
    abbrev Released : List ℕ → ℤ × Session R W → Type 0
    Released before r = (live r.1.world ≡ before) × (r.1.bypass ≡ false)

    freed_both :
        (heap rb : ℕ) (rest : List ℕ) (s : Session R W)
        → Runs live heap rb rest false s
        → live (shared.free s.heap (shared.free s.rx_rb s.world)) ≡ rest
    freed_both heap rb rest s runs =
        rw (runs.heap_kept, runs.rb_kept)
          (is_heap.free_last heap _ rest (is_heap.free_last rb _ (heap ∷ rest) runs.both_live))

    with_rx-Released :
        (sh : ℕ) (argv : List (List ℕ)) (heap rb : ℕ) (rest : List ℕ) (s : Session R W)
        → s.heap ≡ some heap
        → s.rx_rb ≡ some rb
        → live s.world ≡ rb ∷ heap ∷ rest
        → s.bypass ≡ false
        → Released rest
            (with_rx rx shared call heap_size ring_size rx_buf_size wrong_arguments sh argv s)
    with_rx-Released sh argv heap rb rest s kept rb_kept taken unset =
        let began : Runs live heap rb rest false
            (record s { rx_rb = some rb; ring = rx.init rx_buf_size }) =
          record { heap_kept = kept; rb_kept = refl; both_live = taken; callback = unset } in
        let ran = run_interpreter-Runs sh heap rb argv rest false _ began in
        rw rb_kept (freed_both heap rb rest _ ran, ran.callback)

    with_heap-Released :
        (sh : ℕ) (argv : List (List ℕ)) (heap : ℕ) (rest : List ℕ) (s : Session R W)
        → s.heap ≡ some heap
        → live s.world ≡ heap ∷ rest
        → s.bypass ≡ false
        → Released rest
            (with_heap rx shared call heap_size ring_size rx_buf_size wrong_arguments sh argv s)
    with_heap-Released sh argv heap rest s kept taken unset =
        let w = (shared.aligned_alloc ring_size s.world).1 in
        rw kept (elim (Option-cases (shared.aligned_alloc ring_size s.world).0) [
          | inl failed ↦ rw failed (
            is_heap.free_last heap w rest (is_heap.alloc_none ring_size s.world failed ∙ taken),
            unset,
          )
          | inr (rb, got) ↦ rw got (
              with_rx-Released sh argv heap rb rest
                (record s { heap = some heap; rx_rb = some rb; world = w }) refl refl
                (is_heap.alloc_some ring_size rb s.world got ∙ ap (◌∷◌ rb) taken) unset)
        ])

    -- Whatever the allocator gives and whatever the arguments are, `_python` with a shared heap
    -- ends with the blocks allocated that were so before it, and with the shell's callback unset:
    -- on every error, and behind the interpreter, whose memory is allocated at each of its calls.
    python-Released :
        (sh : ℕ) (argv : List (List ℕ)) (s : Session R W)
        → s.bypass ≡ false
        → Released
            (live s.world)
            (python rx shared call heap_size ring_size rx_buf_size wrong_arguments sh argv s)
    unfolding python
    python-Released sh argv s unset = elim (Bool-cases (ltb 2 (length argv))) [
      | inl wrong ↦ rw wrong (refl, unset)
      | inr right ↦ rw right (elim (Option-cases (shared.aligned_alloc heap_size s.world).0) [
        | inl failed ↦ rw failed (is_heap.alloc_none heap_size s.world failed, unset)
        | inr (heap, got) ↦ rw got (
            with_heap-Released sh argv heap (live s.world)
              (record s { heap = some heap; world = (shared.aligned_alloc heap_size s.world).1 })
              refl (is_heap.alloc_some heap_size heap s.world got) unset)
      ])
    ]
