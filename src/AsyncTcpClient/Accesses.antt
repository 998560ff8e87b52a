-- ===== src/AsyncTcpClient/Accesses.antt =====
-- The accesses to `m_active_sessions`, `m_was_cancelled` and `m_sock` in each call and handler, between
-- its locks, and the threads that run them. A call of a method of `m_sock` counts as a write: Asio's
-- sockets are not to be used by two threads at once. A call has the operations for what it finds in
-- the map: the search is a step of its own, which the map has to allow.
pub mod Races
pub mod Erasure
pub mod Guarded
pub mod RaceFree
mod Tests
use boost_asio_study.AsyncTcpClient.Locks.{
  Mutex, active_sessions_guard, cancel_guard, LockOp, acquire, release, owner, unlocked,
}
use boost_asio_study.IdMap.{IdMap, find_id, assign_id, erase_id}
use boost_asio_study.Base.{
  ℕ, Bool, true, false, List, [], ◌∷◌, ◌++◌, Option, none, some, ◌≡◌, if◌then◌else◌, get_elem?, set,
  ◌==◌, ◌⊎◌,
}

-- What the threads share: the map, and `m_was_cancelled` and `m_sock` of the session at a position.
pub data Shared : Type 0 where
  active_sessions : Shared
  was_cancelled socket : ℕ → Shared

-- What is done to the map, or found in it: the position of a session under its id.
pub data MapOp : Type 0 where
  inserts : (id i : ℕ) → MapOp
  erases : (id : ℕ) → MapOp
  finds : (id : ℕ) → Option ℕ → MapOp

pub data Op : Type 0 where
  on_map : MapOp → Op  -- behind the access that it is
  locks : LockOp → Op
  reads writes : Shared → Op

-- `onRequestComplete`, by whether `m_ec` has an error: `&&` reads the flag only if it has none.
unfoldable pub complete_ops : (id i : ℕ) → Bool → List Op
complete_ops id i has_error =
    writes (socket i)
    ∷ locks (acquire active_sessions_guard)
    ∷ writes active_sessions
    ∷ on_map (erases id)
    ∷ locks (release active_sessions_guard)
    ∷ (if has_error then [] else reads (was_cancelled i) ∷ [])

-- `emulateLongComputationOp` for the session that gets the position: `open` and `async_connect`
-- stand outside the lock.
unfoldable pub emulate_ops : (id i : ℕ) → List Op
emulate_ops id i =
    writes (socket i)
    ∷ locks (acquire active_sessions_guard)
    ∷ writes active_sessions
    ∷ on_map (inserts id i)
    ∷ locks (release active_sessions_guard)
    ∷ writes (socket i)
    ∷ []

-- The handlers of the connect and of the write.
unfoldable pub handler_ops : (id i : ℕ) → Bool → Bool → List Op
handler_ops id i has_failed cancelled =
    if has_failed
    then complete_ops id i true
    else locks (acquire (cancel_guard i))
      ∷ reads (was_cancelled i)
      ∷ ((if cancelled then complete_ops id i false else writes (socket i) ∷ [])
          ++ locks (release (cancel_guard i)) ∷ [])

-- The handler of the read, which takes no lock of its own.
unfoldable pub read_handler_ops : (id i : ℕ) → Bool → List Op
read_handler_ops id i has_failed = complete_ops id i has_failed

-- `cancelRequest`, by the session that it finds.
unfoldable pub cancel_ops : ℕ → Option ℕ → List Op
cancel_ops id none =
    locks (acquire active_sessions_guard)
    ∷ reads active_sessions
    ∷ on_map (finds id none)
    ∷ locks (release active_sessions_guard)
    ∷ []
cancel_ops id (some i) =
    locks (acquire active_sessions_guard)
    ∷ reads active_sessions
    ∷ on_map (finds id (some i))
    ∷ locks (acquire (cancel_guard i))
    ∷ writes (was_cancelled i)
    ∷ writes (socket i)
    ∷ locks (release (cancel_guard i))
    ∷ locks (release active_sessions_guard)
    ∷ []

-- The map behind an operation, and whether the map allows it: a search finds what is there.
unfoldable pub apply : MapOp → IdMap → IdMap
apply (inserts id i) m = assign_id id i m
apply (erases id) m = erase_id id m
apply (finds id found) m = m

unfoldable pub Allows : IdMap → MapOp → Type 0
Allows m (finds id found) = find_id id m ≡ found
Allows m op = Unit

-- `m_active_sessions`, what each thread has still to do, and the locked mutexes with the threads that
-- hold them.
pub record Running : Type 0 where
  pub active : IdMap
  pub programs : List (List Op)
  pub held : List (Mutex × ℕ)

abbrev pub started : IdMap → List (List Op) → Running
started active programs = record { active = active; programs = programs; held = [] }

pub data Step : Running → Running → Type 0 where
  lock :
      (s : Running) (t : ℕ) (m : Mutex) (rest : List Op)
      → get_elem? s.programs t ≡ some (locks (acquire m) ∷ rest)
      → owner m s.held ≡ none
      → Step s (record s { programs = set s.programs t rest; held = (m, t) ∷ s.held })
  unlock :
      (s : Running) (t : ℕ) (m : Mutex) (rest : List Op)
      → get_elem? s.programs t ≡ some (locks (release m) ∷ rest)
      → owner m s.held ≡ some t
      → Step s (record s { programs = set s.programs t rest; held = unlocked m s.held })
  read :
      (s : Running) (t : ℕ) (x : Shared) (rest : List Op)
      → get_elem? s.programs t ≡ some (reads x ∷ rest)
      → Step s (record s { programs = set s.programs t rest })
  write :
      (s : Running) (t : ℕ) (x : Shared) (rest : List Op)
      → get_elem? s.programs t ≡ some (writes x ∷ rest)
      → Step s (record s { programs = set s.programs t rest })
  change :
      (s : Running) (t : ℕ) (op : MapOp) (rest : List Op)
      → get_elem? s.programs t ≡ some (on_map op ∷ rest)
      → Allows s.active op
      → Step s (record s { programs = set s.programs t rest; active = apply op s.active })

pub data Reach (s : Running) : Running → Type 0 where
  here : Reach s s
  next : {t u : Running} → Reach s t → Step t u → Reach s u

-- Two threads are about to access one location, and the first one to write it: a data race.
pub record IsRace (x : Shared) (t u : ℕ) (s : Running) : Type 0 where
  pub apart : (t == u) ≡ false
  pub t_rest : List Op
  pub u_rest : List Op
  pub writing : get_elem? s.programs t ≡ some (writes x ∷ t_rest)
  pub accessing :
      (get_elem? s.programs u ≡ some (reads x ∷ u_rest))
      ⊎ (get_elem? s.programs u ≡ some (writes x ∷ u_rest))
