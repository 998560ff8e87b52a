-- ===== src/LoopServer/Threads/Waits.antt =====
-- `Stop` while the other thread is in `accept`.
use boost_asio_study.Asio.{Errors}
use boost_asio_study.Base.{length-append, length, ℕ, suc, true, List, [], ◌∷◌, ◌≡◌, refl, arith}
use boost_asio_study.LoopServer.{Round}
use boost_asio_study.LoopServer.Threads.{
  Kind, Worker, constructing, accepting, handling, left, aborted, joining, returned, Server, start,
  accepted_round, Step, construct, construct_throws, test_go, test_stop, accept, accept_throws,
  handle, store, join, Reach, here, next,
}
use boost_asio_study.LoopServer.Threads.Interleavings.{start-IsSound, Reach-IsSound}

-- What has been accepted and handled since `Stop` found the other thread in `accept` with `n` clients
-- handled.
abbrev Waited : ℕ → Worker → ℕ → List Round → Type 0
Waited n constructing late rounds = ⊥
Waited n accepting late rounds = (late ≡ 0) × (length rounds ≡ n)
Waited n handling late rounds = (late ≡ 1) × (length rounds ≡ n)
Waited n aborted late rounds = Unit
Waited n _ late rounds = (late ≡ 1) × (length rounds ≡ suc n)

record IsWaiting (n : ℕ) (s : Server) : Type 0 where
  stop : s.m_stop ≡ true
  waited : Waited n s.worker s.late s.rounds

Step-IsWaiting :
    (e : Errors) (k : Kind) (n : ℕ) {s t : Server} → Step e k s t → IsWaiting n s → IsWaiting n t
Step-IsWaiting e k n (construct results at good) v = absurd (let h = rw at at v.waited in h)
Step-IsWaiting e k n (construct_throws results at bad) v = record { stop = v.stop; waited = tt }
Step-IsWaiting e k n (test_go at go) v = cc (v.stop)
Step-IsWaiting e k n (test_stop at stop) v = record { stop = v.stop; waited = (rw at at v.waited) }
Step-IsWaiting e k n (accept {s} at) v =
    let none_yet : (s.late ≡ 0) × (length s.rounds ≡ n) = rw at at v.waited in
    record { stop = v.stop; waited = (rw v.stop (omega arith), none_yet.1) }
Step-IsWaiting e k n (accept_throws at) v = record { stop = v.stop; waited = tt }
Step-IsWaiting e k n (handle {s} ec results at good returns) v =
    let one : (s.late ≡ 1) × (length s.rounds ≡ n) = rw at at v.waited in
    record {
      stop = v.stop;
      waited = (one.0, omega (arith, length-append s.rounds (accepted_round ec results ∷ [])));
    }
Step-IsWaiting e k n (store at) v = record { stop = refl; waited = v.waited }
Step-IsWaiting e k n (join at gone) v = record { stop = v.stop; waited = v.waited }

Reach-IsWaiting :
    (e : Errors) (k : Kind) (n : ℕ) {s t : Server} → Reach e k s t → IsWaiting n s → IsWaiting n t
Reach-IsWaiting e k n here v = v
Reach-IsWaiting e k n (next r st) v = Step-IsWaiting e k n st (Reach-IsWaiting e k n r v)

-- If the other thread is in `accept` when `Stop` has set `m_stop`, then `main` returns only after one
-- more client has connected and was handled, and never after two, in every interleaving.
pub stop_waits :
    (e : Errors) (k : Kind) {s t : Server}
    → Reach e k start s
    → s.main ≡ joining
    → s.worker ≡ accepting
    → Reach e k s t
    → t.main ≡ returned
    → (t.late ≡ 1) × (length t.rounds ≡ suc (length s.rounds))
stop_waits e k {s} {t} before joins waits after gone =
    let v = Reach-IsSound e k before (start-IsSound e k) in
    let left_at : t.worker ≡ left = (Reach-IsSound e k after v).joined gone in
    let w : Waited (length s.rounds) s.worker s.late s.rounds = rw waits (v.on_time waits, refl) in
    let end =
      (Reach-IsWaiting e k (length s.rounds) after
        (record { stop = v.set (λ q. cc); waited = w })).waited in
    rw left_at at end
