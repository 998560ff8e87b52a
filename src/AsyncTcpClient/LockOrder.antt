-- ===== src/AsyncTcpClient/LockOrder.antt =====
-- The order in which threads of `AsyncTCPClient` take the mutexes, kept by every step: a thread that locks
-- one holds no `m_cancel_guard`.
use boost_asio_study.AsyncTcpClient.Deadlock.{mutex_eq-true, owner-unlocked}
use boost_asio_study.AsyncTcpClient.Locks.{
  Mutex, active_sessions_guard, cancel_guard, LockOp, acquire, release, mutex_eq, Threads, owner,
  unlocked, Step, lock, unlock, Reach, here, next,
}
use boost_asio_study.Base.{
  if_both, subst, ℕ, Bool, true, false, List, [], ◌∷◌, Option, none, some, ◌≡◌, ◌==◌, inl, inr,
  refl, arith, if◌then◌else◌, get_elem?, set, get_elem?-set, Bool-cases,
}

-- Whether a thread with these operations left holds the mutex: it unlocks it before it locks it.
unfoldable pub holds : Mutex → List LockOp → Bool
holds m [] = false
holds m (acquire n ∷ p) = let rest = holds m p in if mutex_eq n m then false else rest
holds m (release n ∷ p) = let rest = holds m p in if mutex_eq n m then true else rest

abbrev pub holds_at : Mutex → Option (List LockOp) → Bool
holds_at m none = false
holds_at m (some p) = holds m p

-- What a thread keeps to: a mutex that it locks it unlocks later, and one that it unlocks it does not
-- unlock again before it locks it.
pub record Discipline : Type 1 where
  pub Keeps : List LockOp → Type 0
  pub acquires :
      (m : Mutex) (p : List LockOp) → Keeps (acquire m ∷ p) → (holds m p ≡ true) × Keeps p
  pub releases :
      (m : Mutex) (p : List LockOp) → Keeps (release m ∷ p) → (holds m p ≡ false) × Keeps p

abbrev pub KeepsAt : Discipline → Option (List LockOp) → Type 0
KeepsAt d none = Unit
KeepsAt d (some p) = d.Keeps p

-- Who holds a mutex is who has still to unlock it.
pub record IsKept (d : Discipline) (s : Threads) : Type 0 where
  pub ordered : (t : ℕ) → KeepsAt d (get_elem? s.programs t)
  pub owned :
      (m : Mutex) (t : ℕ) → owner m s.held ≡ some t → holds_at m (get_elem? s.programs t) ≡ true
  pub owns :
      (m : Mutex) (t : ℕ) → holds_at m (get_elem? s.programs t) ≡ true → owner m s.held ≡ some t

-- A lock is taken by a thread that unlocks it later, and that holds no `m_cancel_guard`.
unfoldable pub Ordered : List LockOp → Type 0
Ordered [] = Unit
Ordered (acquire m ∷ p) =
    (holds m p ≡ true)
    × ((i : ℕ) → mutex_eq m (cancel_guard i) ≡ false → holds (cancel_guard i) p ≡ false)
    × Ordered p
Ordered (release m ∷ p) = (holds m p ≡ false) × Ordered p

pub ordered_acquires :
    (m : Mutex) (p : List LockOp) → Ordered (acquire m ∷ p) → (holds m p ≡ true) × Ordered p
unfolding Ordered
ordered_acquires m p h = (h.0, h.2)

pub ordered_releases :
    (m : Mutex) (p : List LockOp) → Ordered (release m ∷ p) → (holds m p ≡ false) × Ordered p
unfolding Ordered
ordered_releases m p h = h

abbrev pub in_order : Discipline
in_order = record { Keeps = Ordered; acquires = ordered_acquires; releases = ordered_releases }

abbrev pub OrderedAt : Option (List LockOp) → Type 0
OrderedAt = KeepsAt in_order

abbrev pub IsOrdered : Threads → Type 0
IsOrdered = IsKept in_order

pub mutex_eq_refl : (m : Mutex) → mutex_eq m m ≡ true
mutex_eq_refl active_sessions_guard = refl
mutex_eq_refl (cancel_guard i) = ground arith

owner-unlocked_self : (m : Mutex) (held : List (Mutex × ℕ)) → owner m (unlocked m held) ≡ none
unfolding owner unlocked
owner-unlocked_self m [] = refl
owner-unlocked_self m ((n, t) ∷ held) = elim (Bool-cases (mutex_eq n m)) [
  | inl same ↦ rw same (owner-unlocked_self m held)
  | inr other ↦ rw (other, other) (owner-unlocked_self m held)
]

-- A thread that holds a `m_cancel_guard` unlocks one of its mutexes next.
pub releases_next :
    (i : ℕ) (op : LockOp) (p : List LockOp)
    → Ordered (op ∷ p)
    → holds (cancel_guard i) (op ∷ p) ≡ true
    → (m : Mutex) × (op ≡ release m)
unfolding Ordered holds
releases_next i (release m) p ok held = (m, refl)
releases_next i (acquire m) p ok held = absurd (ground (arith, ok.1 i))

-- The state after a step, which lets go of a mutex or takes one, seen from each thread.
lock-IsKept :
    (d : Discipline) (s : Threads) (t : ℕ) (m : Mutex) (rest : List LockOp)
    → get_elem? s.programs t ≡ some (acquire m ∷ rest)
    → owner m s.held ≡ none
    → IsKept d s
    → IsKept d (record { programs = set s.programs t rest; held = (m, t) ∷ s.held })
unfolding holds owner
lock-IsKept d s t m rest ready free v =
    let mine : (holds m rest ≡ true) × d.Keeps rest =
      d.acquires m rest (subst (KeepsAt d) ready (v.ordered t)) in
    record {
      ordered = λ u.
          rw (get_elem?-set s.programs t u rest _ ready)
            (if_both (KeepsAt d) (t == u) mine.1 (v.ordered u));
      owned = λ n u h. ground (
        arith,
        get_elem?-set s.programs t u rest (acquire m ∷ rest) ready,
        mutex_eq-true m n,
        v.owned n u,
        mine.0,
      );
      owns = λ n u h. ground (
        arith,
        get_elem?-set s.programs t u rest (acquire m ∷ rest) ready,
        mutex_eq-true m n,
        v.owns n u,
        mine.0,
      );
    }

unlock-IsKept :
    (d : Discipline) (s : Threads) (t : ℕ) (m : Mutex) (rest : List LockOp)
    → get_elem? s.programs t ≡ some (release m ∷ rest)
    → owner m s.held ≡ some t
    → IsKept d s
    → IsKept d (record { programs = set s.programs t rest; held = unlocked m s.held })
unfolding holds
unlock-IsKept d s t m rest ready taken v =
    let mine : (holds m rest ≡ false) × d.Keeps rest =
      d.releases m rest (subst (KeepsAt d) ready (v.ordered t)) in
    record {
      ordered = λ u.
          rw (get_elem?-set s.programs t u rest _ ready)
            (if_both (KeepsAt d) (t == u) mine.1 (v.ordered u));
      owned = λ n u h. ground (
        arith,
        get_elem?-set s.programs t u rest (release m ∷ rest) ready,
        mutex_eq-true m n,
        v.owned n u,
        owner-unlocked n m s.held,
        owner-unlocked_self m s.held,
      );
      owns = λ n u h. ground (
        arith,
        get_elem?-set s.programs t u rest (release m ∷ rest) ready,
        mutex_eq-true m n,
        v.owns n u,
        mine.0,
        owner-unlocked n m s.held,
      );
    }

Step-IsKept : (d : Discipline) {s s' : Threads} → Step s s' → IsKept d s → IsKept d s'
Step-IsKept d (lock s t m rest ready free) v = lock-IsKept d s t m rest ready free v
Step-IsKept d (unlock s t m rest ready taken) v = unlock-IsKept d s t m rest ready taken v

pub Reach-IsKept : (d : Discipline) {s s' : Threads} → IsKept d s → Reach s s' → IsKept d s'
Reach-IsKept d v here = v
Reach-IsKept d v (next r st) = Step-IsKept d st (Reach-IsKept d v r)
