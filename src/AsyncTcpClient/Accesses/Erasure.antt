-- ===== src/AsyncTcpClient/Accesses/Erasure.antt =====
-- The locks that the threads of `AsyncTCPClient` take, without their accesses, are a run of `Locks`.
use Prim.Native.Nat.{zero, suc}
use boost_asio_study.AsyncTcpClient.Accesses.{
  on_map, change, emulate_ops, handler_ops, read_handler_ops, cancel_ops, complete_ops, Op, locks,
  reads, writes, Running, lock, unlock, read, write, Reach, here, next,
}
use boost_asio_study.AsyncTcpClient.Locks
use boost_asio_study.AsyncTcpClient.Locks.{
  emulate_locks, handler_locks, complete_locks, cancel_locks, Mutex, active_sessions_guard,
  cancel_guard, LockOp, acquire, release, owner, Threads, mutex_eq,
}
use boost_asio_study.Base.{
  none, Option, Bool, true, false, ℕ, List, [], ◌∷◌, some, map, ◌≡◌, refl, sym, ap, subst, arith,
  get_elem?, set,
}

-- The locks of a program, without the accesses.
unfoldable pub erased : List Op → List LockOp
erased [] = []
erased (locks o ∷ p) = o ∷ erased p
erased (reads x ∷ p) = erased p
erased (on_map op ∷ p) = erased p
erased (writes x ∷ p) = erased p

abbrev pub erase : Running → Threads
erase s = record { programs = map erased s.programs; held = s.held }

map-set :
    (ps : List (List Op)) (t : ℕ) (p : List Op)
    → map erased (set ps t p) ≡ set (map erased ps) t (erased p)
map-set [] t p = refl
map-set (q ∷ ps) zero p = refl
map-set (q ∷ ps) (suc t) p = ap (◌∷◌ (erased q)) (map-set ps t p)

pub map-get_elem? :
    (ps : List (List Op)) (t : ℕ) (p : List Op)
    → get_elem? ps t ≡ some p
    → get_elem? (map erased ps) t ≡ some (erased p)
map-get_elem? [] t p h = cc
map-get_elem? (q ∷ ps) zero p h = ground arith
map-get_elem? (q ∷ ps) (suc t) p h = map-get_elem? ps t p h

-- An access changes no lock.
pub map-set_access :
    (ps : List (List Op)) (t : ℕ) (p q : List Op)
    → get_elem? ps t ≡ some q
    → erased q ≡ erased p
    → map erased (set ps t p) ≡ map erased ps
map-set_access [] t p q h same = refl
map-set_access (r ∷ ps) zero p q h same = ground (arith, same)
map-set_access (r ∷ ps) (suc t) p q h same = ap (◌∷◌ (erased r)) (map-set_access ps t p q h same)

-- A run of the threads is a run of their locks.
pub erase-Reach : {s s' : Running} → Reach s s' → Locks.Reach (erase s) (erase s')
unfolding erased
erase-Reach here = Locks.here
erase-Reach {s} (next r (lock x t m rest ready free)) = Locks.next (erase-Reach r) (
    subst (λ ps. Locks.Step (erase x) (record { programs = ps; held = (m, t) ∷ x.held }))
      (sym (map-set x.programs t rest))
      (Locks.lock (erase x) t m (erased rest) (map-get_elem? x.programs t _ ready) free))
erase-Reach {s} (next r (unlock x t m rest ready mine)) = Locks.next (erase-Reach r) (
    subst (λ ps. Locks.Step (erase x) (record { programs = ps; held = Locks.unlocked m x.held }))
      (sym (map-set x.programs t rest))
      (Locks.unlock (erase x) t m (erased rest) (map-get_elem? x.programs t _ ready) mine))
erase-Reach {s} (next r (read x t y rest ready)) =
    subst (λ ps. Locks.Reach (erase s) (record { programs = ps; held = x.held }))
      (sym (map-set_access x.programs t rest _ ready refl)) (erase-Reach r)
erase-Reach {s} (next r (write x t y rest ready)) =
    subst (λ ps. Locks.Reach (erase s) (record { programs = ps; held = x.held }))
      (sym (map-set_access x.programs t rest _ ready refl)) (erase-Reach r)
erase-Reach {s} (next r (change x t op rest ready fits)) =
    subst (λ ps. Locks.Reach (erase s) (record { programs = ps; held = x.held }))
      (sym (map-set_access x.programs t rest _ ready refl)) (erase-Reach r)

-- Less the accesses, each call and handler takes the locks that `Locks` has for it.
erased_same :
    (id i : ℕ) (has_failed cancelled : Bool) (found : Option ℕ)
    → (erased (emulate_ops id i) ≡ emulate_locks)
      × (erased (handler_ops id i has_failed cancelled) ≡ handler_locks i has_failed cancelled)
      × (erased (read_handler_ops id i has_failed) ≡ complete_locks)
      × (erased (cancel_ops id found) ≡ cancel_locks found)
unfolding erased emulate_ops handler_ops read_handler_ops cancel_ops complete_ops handler_locks
    cancel_locks
erased_same id i true cancelled none = (refl, refl, refl, refl)
erased_same id i true cancelled (some j) = (refl, refl, refl, refl)
erased_same id i false true none = (refl, refl, refl, refl)
erased_same id i false true (some j) = (refl, refl, refl, refl)
erased_same id i false false none = (refl, refl, refl, refl)
erased_same id i false false (some j) = (refl, refl, refl, refl)
