-- ===== src/Palloc.antt =====
-- lib/hu/palloc.c: the first-fit allocator over a list of free blocks, for a 32-bit `size_t`.
-- Memory maps an address to the block header that stands there; NULL is 0, and reading or writing
-- through it is a fault. Headers stand in blocks that do not overlap, so that no write to one
-- touches another; what the blocks hold behind their headers is the callers'. A loop has fuel.
pub mod Chain
pub mod Take
pub mod Search
pub mod Fits
pub mod Allocate
pub mod Release
pub mod Insert
pub mod Place
pub mod Free
pub mod Pfree
pub mod Reuse
pub mod Grow
pub mod Init
pub mod Behind
pub mod Extend
pub mod Stats
pub mod Libc
mod Runs
use sdkz.Common.{
  ℕ, zero, suc, ◌+◌, ◌-◌, ◌*◌, ◌/◌, ◌%◌, ◌^◌, Bool, true, false, ◌&&◌, ◌||◌, not, ◌==◌, ltb, leb,
  if◌then◌else◌,
}

abbrev pub word_mod : ℕ
word_mod = 2 ^ 32

-- PALLOC_ALLOCATED, the top bit of a word.
abbrev pub allocated : ℕ
allocated = 2 ^ 31

abbrev pub sizeof_link : ℕ
sizeof_link = 8

-- ALIGNED_VALUE: a mask of all but the two low bits, after a sum that wraps.
abbrev pub aligned_value : ℕ → ℕ
aligned_value a = (a + 3) % word_mod / 4 * 4

pub record Link : Type 0 where
  pub next : ℕ
  pub flag_n_size : ℕ

abbrev pub link : ℕ → ℕ → Link
link size next = record { next = next; flag_n_size = size }

abbrev pub Memory : Type 0
Memory = ℕ → Link

-- The file's static variables; `anchor` is the address of `_anchor`.
pub record Pool : Type 0 where
  pub mem : Memory
  pub anchor : ℕ
  pub ppool_last : ℕ
  pub pool_size : ℕ
  pub free_size : ℕ
  pub num_alloc : ℕ
  pub num_free : ℕ

pub data Run (A : Type 0) : Type 0 where
  ok : A → Run A
  fault : Run A
  out_of_fuel : Run A

infixl 5 ◌>>=◌
abbrev pub ◌>>=◌ : {A B : Type 0} → Run A → (A → Run B) → Run B
ok a >>= f = f a
fault >>= f = fault
out_of_fuel >>= f = out_of_fuel

abbrev pub write : Memory → ℕ → Link → Memory
write mem a l q = if q == a then l else mem q

abbrev pub set_next : Memory → ℕ → ℕ → Memory
set_next mem a n = write mem a (link (mem a).flag_n_size n)

-- `_set_link`.
abbrev pub set_link : Memory → ℕ → ℕ → ℕ → Memory
set_link mem a size next = write mem a (link size next)

-- `a - b` in a word.
abbrev pub sub32 : ℕ → ℕ → ℕ
sub32 a b = (a + word_mod - b) % word_mod

-- The flag of a size: test, set and clear.
abbrev pub is_allocated : ℕ → Bool
is_allocated s = leb allocated s

abbrev pub set_allocated : ℕ → ℕ
set_allocated s = if is_allocated s then s else s + allocated

abbrev pub clear_allocated : ℕ → ℕ
clear_allocated s = s % allocated

-- The search of `palloc`: the first block that is large enough, or the last one, and the block
-- before it.
unfoldable pub find_block : ℕ → Memory → ℕ → ℕ → ℕ → Run (ℕ × ℕ)
find_block zero mem size prev plink = out_of_fuel
find_block (suc fuel) mem size prev plink =
    let rest = find_block fuel mem size plink (mem plink).next in
    if plink == 0
    then fault
    else if ltb (mem plink).flag_n_size size && not ((mem plink).next == 0)
    then rest
    else ok (prev, plink)

-- Unlinks the block that was found, gives back what it has too much, and marks it.
unfoldable pub take_block : Pool → ℕ → ℕ → ℕ → ℕ × Pool
take_block p size prev plink =
    let ptr = (p.mem prev).next + sizeof_link in
    let found = (p.mem plink).flag_n_size in
    let unlinked = set_next p.mem prev (p.mem plink).next in
    let split = ltb (sizeof_link * 2) (sub32 found size) in
    let next_plink = plink + size in
    let cut =
      if split
      then set_next
          (write (set_link unlinked next_plink (sub32 found size) (unlinked prev).next) plink
            (link size (unlinked plink).next))
          prev next_plink
      else unlinked in
    let taken = (cut plink).flag_n_size in
    (
      ptr,
      record p {
        mem = set_link cut plink (set_allocated taken) 0;
        free_size = sub32 p.free_size taken;
        num_alloc = (p.num_alloc + 1) % word_mod;
      },
    )

-- `palloc`; the result is the pointer, 0 for NULL.
unfoldable pub palloc : ℕ → ℕ → Pool → Run (ℕ × Pool)
unfolding find_block take_block
palloc fuel request p =
    let size = aligned_value ((request + sizeof_link) % word_mod) in
    if (p.mem p.anchor).next == 0 || request == 0
    then ok (0, p)
    else if is_allocated size
    then ok (0, p)
    else if ltb p.free_size size
    then ok (0, p)
    else (find_block fuel p.mem size p.anchor (p.mem p.anchor).next >>= λ (prev, plink).
        if plink == p.ppool_last then ok (0, p) else ok (take_block p size prev plink))

-- The walk of `_insert_link`, to the last block that begins below `plink`.
unfoldable pub find_place : ℕ → Memory → ℕ → ℕ → Run ℕ
find_place zero mem plink itor = out_of_fuel
find_place (suc fuel) mem plink itor =
    let rest = find_place fuel mem plink (mem itor).next in
    if itor == 0 then fault else if ltb (mem itor).next plink then rest else ok itor

-- The joins of `_insert_link` at the place that was found: with the block before, and with the one
-- behind unless that is the last.
abbrev pub join_before : Memory → ℕ → ℕ → Memory × ℕ
join_before mem itor plink =
    if itor + (mem itor).flag_n_size == plink
    then (
      write mem itor
          (link (((mem itor).flag_n_size + (mem plink).flag_n_size) % word_mod) (mem itor).next),
      itor,
    )
    else (mem, plink)

abbrev pub join_behind : ℕ → Memory → ℕ → ℕ → Memory
join_behind last mem itor plink =
    let behind = (mem itor).next in
    if plink + (mem plink).flag_n_size == behind
    then (if behind == last
        then set_next mem plink last
        else set_link mem plink (((mem plink).flag_n_size + (mem behind).flag_n_size) % word_mod)
            (mem behind).next)
    else set_next mem plink behind

unfoldable pub insert_at : ℕ → Memory → ℕ → ℕ → Memory
insert_at last mem itor plink =
    let (joined, block) = join_before mem itor plink in
    let linked = join_behind last joined itor block in
    if itor == block then linked else set_next linked itor block

unfoldable pub insert_link : ℕ → Pool → ℕ → Run Pool
unfolding find_place insert_at
insert_link fuel p plink = find_place fuel p.mem plink p.anchor >>= λ itor.
    ok (record p { mem = insert_at p.ppool_last p.mem itor plink })

unfoldable pub pfree : ℕ → ℕ → Pool → Run Pool
unfolding insert_link
pfree fuel ptr p =
    let plink = ptr - sizeof_link in
    let size = (p.mem plink).flag_n_size in
    let freed = record p {
      mem = write p.mem plink (link (clear_allocated size) (p.mem plink).next);
      free_size = (p.free_size + clear_allocated size) % word_mod;
    } in
    if ptr == 0
    then ok p
    else if is_allocated size && ((p.mem plink).next == 0)
    then (insert_link fuel freed plink >>= λ q.
        ok (record q { num_free = (q.num_free + 1) % word_mod }))
    else ok p

-- `pcalloc`: the product wraps. The second result is how many bytes are cleared.
unfoldable pub pcalloc : ℕ → ℕ → ℕ → Pool → Run (ℕ × ℕ × Pool)
unfolding palloc
pcalloc fuel num size p =
    let tsize = num * size % word_mod in
    if tsize == 0
    then ok (0, 0, p)
    else (palloc fuel tsize p >>= λ (ptr, q). ok (ptr, (if ptr == 0 then 0 else tsize), q))

-- `prealloc`: the second result is how many bytes are copied from the old block.
unfoldable pub prealloc : ℕ → ℕ → ℕ → Pool → Run (ℕ × ℕ × Pool)
unfolding palloc pfree
prealloc fuel ap nbytes p =
    let csize = clear_allocated (p.mem (ap - sizeof_link)).flag_n_size in
    if ap == 0
    then (palloc fuel nbytes p >>= λ (ptr, q). ok (ptr, 0, q))
    else if ltb csize nbytes
    then (palloc fuel nbytes p >>= λ (ptr, q).
        if ptr == 0 then ok (0, 0, q) else (pfree fuel ap q >>= λ q'. ok (ptr, nbytes, q')))
    else ok (ap, 0, p)
