-- ===== src/HupServer/Lifetime.antt =====
-- The start and the end of a server, `init_hup_server` and `deinit_hup_server`: which pointers
-- the handle holds, and what is taken from the allocator, the transport and the kernel.
use sdkz.Common.{
  Bool, true, false, not, ◌&&◌, ◌||◌, ◌≡◌, refl, Option, none, some, ◌>>=◌, if◌then◌else◌,
}

-- `drv`, `hup` and `tid` are the pointers of the handle that are not NULL; `memory`, `drv_open`,
-- `hup_open` and `thread` are what has not been given back.
pub record Server : Type 0 where
  pub memory : Bool
  pub drv : Bool
  pub drv_open : Bool
  pub hup : Bool
  pub hup_open : Bool
  pub tid : Bool
  pub thread : Bool

abbrev pub nothing : Server
nothing = record {
  memory = false;
  drv = false;
  drv_open = false;
  hup = false;
  hup_open = false;
  tid = false;
  thread = false;
}

-- `none` below is a fault: a use of what was given back, or a call of NULL.
abbrev pfree_handle : Server → Option Server
pfree_handle s = if s.memory then some (record s { memory = false }) else none

-- `api->deinit(h->drv)`, where `has_deinit` is that `api->deinit` is not NULL.
abbrev deinit_driver : Bool → Server → Option Server
deinit_driver has_deinit s =
    if s.memory && (has_deinit && s.drv_open) then some (record s { drv_open = false }) else none

abbrev deinit_packet : Server → Option Server
deinit_packet s = if s.hup_open then some (record s { hup_open = false }) else none

-- `given` is that the handle is not NULL; the second argument is `none` where `api` is NULL.
unfoldable pub deinit_hup_server : Bool → Option Bool → Server → Option Server
deinit_hup_server false api s = some s
deinit_hup_server true api s = if not s.memory then none else (do
  s ← elim api [
    | none ↦ some s
    | some has_deinit ↦ if s.drv then deinit_driver has_deinit s else some s
  ]
  let s = if s.tid then record s { thread = false } else s
  s ← if s.hup then deinit_packet s else some s
  pfree_handle s)

-- Behind the label error_hup_init_hup_server.
abbrev error_hup_init : Bool → Server → Option (Bool × Server)
error_hup_init has_deinit s = do
  s ← if has_deinit then deinit_driver has_deinit s else some s
  s ← pfree_handle s
  some (false, s)

-- What the calls come to: `palloc`, `api->init` and `init_hupacket` give NULL or not.
pub record Found : Type 0 where
  pub memory : Bool
  pub driver : Bool
  pub packet : Bool

-- The result is whether the handle is not NULL; `stack` is that a stack was given.
unfoldable pub init_hup_server : (has_init has_deinit stack : Bool) → Found → Option (Bool × Server)
unfolding deinit_hup_server
init_hup_server has_init has_deinit stack found =
    if not has_init || not found.memory
    then some (false, nothing)
    else (let s = record nothing { memory = true } in
        if not found.driver
        then (do s ← pfree_handle s; some (false, s))
        else (let s = record s { drv = true; drv_open = true } in
            if not found.packet
            then error_hup_init has_deinit s
            else (let s = record s { hup = true; hup_open = true } in
                if stack then some (true, record s { tid = true; thread = true }) else (do
                  s ← deinit_hup_server true (some has_deinit) s
                  error_hup_init has_deinit s))))

pub record IsReleased (s : Server) : Type 0 where
  pub memory : s.memory ≡ false
  pub driver : s.drv_open ≡ false
  pub packet : s.hup_open ≡ false
  pub thread : s.thread ≡ false

emptied-IsReleased :
    (s : Server)
    → IsReleased (record s { memory = false; drv_open = false; hup_open = false; thread = false })
emptied-IsReleased s = record { memory = refl; driver = refl; packet = refl; thread = refl }

-- With a stack, the start faults at nothing and gives a handle where all three calls succeed, and
-- only there; `deinit_hup_server` of what it gives, NULL too, then leaves nothing behind: no
-- memory, no open transport or packet handle, no thread.
pub init_hup_server-IsReleased :
    (memory driver packet : Bool)
    → (s s' : Server) × (init_hup_server true true true
          (record { memory = memory; driver = driver; packet = packet })
        ≡ some (memory && (driver && packet), s))
      × (deinit_hup_server (memory && (driver && packet)) (some true) s ≡ some s')
      × IsReleased s'
unfolding init_hup_server deinit_hup_server
init_hup_server-IsReleased false driver packet =
    (nothing, nothing, refl, refl, emptied-IsReleased nothing)
init_hup_server-IsReleased true false packet =
    (nothing, nothing, refl, refl, emptied-IsReleased nothing)
init_hup_server-IsReleased true true false =
    let s = record nothing { drv = true } in (s, s, refl, refl, emptied-IsReleased s)
init_hup_server-IsReleased true true true = (
  record {
    memory = true;
    drv = true;
    drv_open = true;
    hup = true;
    hup_open = true;
    tid = true;
    thread = true;
  },
  record nothing { drv = true; hup = true; tid = true },
  refl,
  refl,
  emptied-IsReleased (record nothing { drv = true; hup = true; tid = true }),
)

-- Without a stack, where the three calls succeed, the start gives back the handle, or calls a NULL
-- `deinit`, and goes on to use it.
init_hup_server-no_stack :
    (has_deinit : Bool)
    → init_hup_server true has_deinit false (record { memory = true; driver = true; packet = true })
      ≡ none
unfolding init_hup_server deinit_hup_server
init_hup_server-no_stack true = refl
init_hup_server-no_stack false = refl
