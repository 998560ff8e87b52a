-- ===== src/AsyncTcpClient/Accesses/Guarded.antt =====
-- Which accesses of the threads of `AsyncTCPClient` the mutexes keep apart.
use Prim.Native.Nat.{zero, suc}
use boost_asio_study.IdMap.{IdMap}
use boost_asio_study.AsyncTcpClient.Accesses.{
  on_map, change, Shared, active_sessions, was_cancelled, socket, Op, locks, reads, writes,
  complete_ops, emulate_ops, handler_ops, read_handler_ops, cancel_ops, Running, started, Step,
  lock, unlock, read, write, Reach, here, next,
}
use boost_asio_study.AsyncTcpClient.Accesses.Erasure.{erased, erase}
use boost_asio_study.AsyncTcpClient.LockOrder.{holds, holds_at, Discipline, KeepsAt, IsKept}
use boost_asio_study.AsyncTcpClient.Locks.{
  Mutex, active_sessions_guard, cancel_guard, LockOp, acquire, release, owner,
}
use boost_asio_study.Base.{
  ℕ, Bool, true, false, List, [], ◌∷◌, ◌++◌, Option, none, some, map, ◌≡◌, refl, subst, ◌==◌, arith,
  get_elem?, set, if_both, get_elem?-set,
}

-- Every mutex that is locked is unlocked before it is locked again.
unfoldable pub Paired : List LockOp → Type 0
Paired [] = Unit
Paired (acquire m ∷ p) = (holds m p ≡ true) × Paired p
Paired (release m ∷ p) = (holds m p ≡ false) × Paired p

pub Paired-acquire :
    (m : Mutex) (p : List LockOp) → Paired (acquire m ∷ p) → (holds m p ≡ true) × Paired p
unfolding Paired
Paired-acquire m p h = h

pub Paired-release :
    (m : Mutex) (p : List LockOp) → Paired (release m ∷ p) → (holds m p ≡ false) × Paired p
unfolding Paired
Paired-release m p h = h

abbrev pub in_pairs : Discipline
in_pairs = record { Keeps = Paired; acquires = Paired-acquire; releases = Paired-release }

-- The mutex that a location is accessed under, and whether a program with these operations left has
-- it locked. A socket has none.
abbrev pub Needs : Shared → List Op → Type 0
Needs active_sessions p = holds active_sessions_guard (erased p) ≡ true
Needs (was_cancelled i) p = holds (cancel_guard i) (erased p) ≡ true
Needs (socket i) p = Unit

unfoldable pub Guarded : List Op → Type 0
Guarded [] = Unit
Guarded (locks o ∷ p) = Guarded p
Guarded (on_map op ∷ p) = Needs active_sessions p × Guarded p
Guarded (reads x ∷ p) = Needs x p × Guarded p
Guarded (writes x ∷ p) = Needs x p × Guarded p

-- Between two calls a thread holds nothing, and what it has still to do is guarded.
record IsIdle (p : List Op) : Type 0 where
  idle : (m : Mutex) → holds m (erased p) ≡ false
  paired : Paired (erased p)
  guarded : Guarded p

-- The calls and handlers but that of a read that succeeds: a handler of the connect or of the write
-- with the session, whether its operation failed, and whether the session was cancelled.
pub data Call : Type 0 where
  emulates : (id i : ℕ) → Call
  cancels : (id : ℕ) → Option ℕ → Call
  handles : (id i : ℕ) → Bool → Bool → Call
  read_fails : (id i : ℕ) → Call

abbrev pub ops_of : Call → List Op
ops_of (emulates id i) = emulate_ops id i
ops_of (cancels id found) = cancel_ops id found
ops_of (handles id i has_failed cancelled) = handler_ops id i has_failed cancelled
ops_of (read_fails id i) = read_handler_ops id i true

abbrev pub all_ops : List Call → List Op
all_ops [] = []
all_ops (call ∷ calls) = ops_of call ++ all_ops calls

add_call-IsIdle : (call : Call) (p : List Op) → IsIdle p → IsIdle (ops_of call ++ p)
unfolding emulate_ops cancel_ops handler_ops read_handler_ops complete_ops holds Paired erased
    Guarded
add_call-IsIdle (emulates id i) p v = record {
  idle = λ m. ground (arith, v.idle m);
  paired = ground (arith, v.idle active_sessions_guard, v.paired);
  guarded = ground (arith, v.guarded);
}
add_call-IsIdle (cancels id none) p v = record {
  idle = λ m. ground (arith, v.idle m);
  paired = ground (arith, v.idle active_sessions_guard, v.paired);
  guarded = ground (arith, v.guarded);
}
add_call-IsIdle (cancels id (some i)) p v = record {
  idle = λ m. ground (arith, v.idle m);
  paired = ground (arith, v.idle active_sessions_guard, v.idle (cancel_guard i), v.paired);
  guarded = ground (arith, v.guarded);
}
add_call-IsIdle (handles id i true cancelled) p v = record {
  idle = λ m. ground (arith, v.idle m);
  paired = ground (arith, v.idle active_sessions_guard, v.paired);
  guarded = ground (arith, v.guarded);
}
add_call-IsIdle (handles id i false true) p v = record {
  idle = λ m. ground (arith, v.idle m);
  paired = ground (arith, v.idle active_sessions_guard, v.idle (cancel_guard i), v.paired);
  guarded = ground (arith, v.guarded);
}
add_call-IsIdle (handles id i false false) p v = record {
  idle = λ m. ground (arith, v.idle m);
  paired = ground (arith, v.idle active_sessions_guard, v.idle (cancel_guard i), v.paired);
  guarded = ground (arith, v.guarded);
}
add_call-IsIdle (read_fails id i) p v = record {
  idle = λ m. ground (arith, v.idle m);
  paired = ground (arith, v.idle active_sessions_guard, v.paired);
  guarded = ground (arith, v.guarded);
}

all_ops-IsIdle : (calls : List Call) → IsIdle (all_ops calls)
unfolding holds Paired erased Guarded
all_ops-IsIdle [] = record { idle = λ m. refl; paired = tt; guarded = tt }
all_ops-IsIdle (call ∷ calls) = add_call-IsIdle call (all_ops calls) (all_ops-IsIdle calls)

holds-started :
    (active : IdMap) (threads : List (List Call)) (t : ℕ) (m : Mutex)
    → holds_at m (get_elem? (erase (started active (map all_ops threads))).programs t) ≡ false
holds-started active [] t m = refl
holds-started active (calls ∷ threads) zero m = (all_ops-IsIdle calls).idle m
holds-started active (calls ∷ threads) (suc t) m = holds-started active threads t m

paired-started :
    (active : IdMap) (threads : List (List Call)) (t : ℕ)
    → KeepsAt in_pairs (get_elem? (erase (started active (map all_ops threads))).programs t)
paired-started active [] t = tt
paired-started active (calls ∷ threads) zero = (all_ops-IsIdle calls).paired
paired-started active (calls ∷ threads) (suc t) = paired-started active threads t

pub started-IsKept :
    (active : IdMap) (threads : List (List Call))
    → IsKept in_pairs (erase (started active (map all_ops threads)))
unfolding owner
started-IsKept active threads = record {
  ordered = paired-started active threads;
  owned = λ m t h. cc;
  owns = λ m t h. cc (holds-started active threads t m);
}

abbrev pub GuardedAt : Option (List Op) → Type 0
GuardedAt none = Unit
GuardedAt (some p) = Guarded p

pub guarded-started :
    (threads : List (List Call)) (t : ℕ) → GuardedAt (get_elem? (map all_ops threads) t)
guarded-started [] t = tt
guarded-started (calls ∷ threads) zero = (all_ops-IsIdle calls).guarded
guarded-started (calls ∷ threads) (suc t) = guarded-started threads t

-- A step leaves the other programs as they are, and takes one operation from its own.
took_one :
    (ps : List (List Op)) (t : ℕ) (op : Op) (rest : List Op)
    → get_elem? ps t ≡ some (op ∷ rest)
    → ((u : ℕ) → GuardedAt (get_elem? ps u))
    → (Guarded (op ∷ rest) → Guarded rest)
    → (u : ℕ) → GuardedAt (get_elem? (set ps t rest) u)
took_one ps t op rest ready guarded shrinks u =
    rw (get_elem?-set ps t u rest _ ready)
      (if_both GuardedAt (t == u) (shrinks (subst GuardedAt ready (guarded t))) (guarded u))

Step-Guarded :
    {s s' : Running}
    → Step s s'
    → ((u : ℕ) → GuardedAt (get_elem? s.programs u))
    → (u : ℕ) → GuardedAt (get_elem? s'.programs u)
unfolding Guarded
Step-Guarded (lock s t m rest ready free) g = took_one s.programs t _ rest ready g (λ h. h)
Step-Guarded (unlock s t m rest ready mine) g = took_one s.programs t _ rest ready g (λ h. h)
Step-Guarded (read s t x rest ready) g = took_one s.programs t _ rest ready g (λ h. h.1)
Step-Guarded (write s t x rest ready) g = took_one s.programs t _ rest ready g (λ h. h.1)
Step-Guarded (change s t op rest ready fits) g = took_one s.programs t _ rest ready g (λ h. h.1)

pub Reach-Guarded :
    {s s' : Running}
    → ((u : ℕ) → GuardedAt (get_elem? s.programs u))
    → Reach s s'
    → (u : ℕ) → GuardedAt (get_elem? s'.programs u)
Reach-Guarded g here = g
Reach-Guarded g (next r st) = Step-Guarded st (Reach-Guarded g r)
