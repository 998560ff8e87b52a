-- ===== src/Listener.antt =====
-- What the acceptors of the asynchronous servers have in common: the operations, how often each one
-- starts an accept, closes the socket that listens and starts a service, and the laws of those counts;
-- and the runs of an acceptor.
use boost_asio_study.Asio.{ErrorCode, failed}
use boost_asio_study.Base.{
  ◌==◌, ℕ, ◌+◌, ◌-◌, Bool, true, List, [], ◌∷◌, ◌++◌, ◌≡◌, refl, arith, if◌then◌else◌, ◌∙◌,
}

-- How often a list of actions does each of the three.
pub record Counts : Type 0 where
  pub accepts : ℕ
  pub closes : ℕ
  pub serves : ℕ

abbrev pub no_counts : Counts
no_counts = record { accepts = 0; closes = 0; serves = 0 }

abbrev pub add_counts : Counts → Counts → Counts
add_counts m n = record {
  accepts = m.accepts + n.accepts;
  closes = m.closes + n.closes;
  serves = m.serves + n.serves;
}

-- `Start`, `Stop` and `onAccept` of an acceptor with state `S` and actions `A`.
pub record Listener (S A : Type 0) : Type 0 where
  pub start : List A
  pub stop : S → S
  pub on_accept : ErrorCode → S → List A
  pub is_stopped : S → Bool
  pub counts : List A → Counts
  pub counts-append : (xs ys : List A) → counts (xs ++ ys) ≡ add_counts (counts xs) (counts ys)
  pub counts-start : counts start ≡ record { accepts = 1; closes = 0; serves = 0 }
  pub is_stopped-stop : (s : S) → is_stopped (stop s) ≡ true
  pub counts-on_accept :
      (ec : ErrorCode) (s : S)
      → counts (on_accept ec s) ≡ record {
        accepts = if is_stopped s then 0 else 1;
        closes = if is_stopped s then 1 else 0;
        serves = if failed ec then 0 else 1;
      }

-- A pending accept completes, or another thread calls `Stop`.
pub data Event : Type 0 where
  accepted : ErrorCode → Event
  stops : Event

-- The acceptor, the accepts that are pending, and what was done.
pub record Listening (S A : Type 0) : Type 0 where
  pub acceptor : S
  pub pending : ℕ
  pub actions : List A

module _ {S A : Type 0} (l : Listener S A) where
  abbrev pub started : S → Listening S A
  started s = record { acceptor = s; pending = (l.counts l.start).accepts; actions = l.start }

  -- With no accept pending none can complete.
  unfoldable pub step : Event → Listening S A → Listening S A
  step (accepted ec) x =
      let more = l.on_accept ec x.acceptor in
      if x.pending == 0 then x else record {
        acceptor = x.acceptor;
        pending = x.pending - 1 + (l.counts more).accepts;
        actions = x.actions ++ more;
      }
  step stops x = record x { acceptor = l.stop x.acceptor }

  -- How many services the handler of an accept starts.
  unfoldable pub started_by : Event → Listening S A → ℕ
  started_by (accepted ec) x =
      if x.pending == 0 then 0 else (l.counts (l.on_accept ec x.acceptor)).serves
  started_by stops x = 0

  unfoldable pub run : List Event → Listening S A → Listening S A
  run [] x = x
  run (event ∷ events) x = run events (step event x)

  -- The connections: the accepts that completed with no error.
  unfoldable pub connections : List Event → Listening S A → ℕ
  connections [] x = 0
  connections (stops ∷ events) x = connections events (step stops x)
  connections (accepted ec ∷ events) x =
      (if x.pending == 0 then 0 else if failed ec then 0 else 1)
      + connections events (step (accepted ec) x)

  pub run-append : (xs ys : List Event) (x : Listening S A) → run (xs ++ ys) x ≡ run ys (run xs x)
  unfolding run
  run-append [] ys x = refl
  run-append (event ∷ xs) ys x = run-append xs ys (step event x)

  pub connections-append :
      (xs ys : List Event) (x : Listening S A)
      → connections (xs ++ ys) x ≡ connections xs x + connections ys (run xs x)
  unfolding connections run
  connections-append [] ys x = omega arith
  connections-append (stops ∷ xs) ys x = connections-append xs ys (step stops x)
  connections-append (accepted ec ∷ xs) ys x =
      omega (arith, connections-append xs ys (step (accepted ec) x))

  -- One accept is pending, or the socket has been closed, once.
  record IsListening (x : Listening S A) : Type 0 where
    one : x.pending + (l.counts x.actions).closes ≡ 1

  step-IsListening :
      (event : Event) (x : Listening S A) → IsListening x → IsListening (step event x)
  unfolding step
  step-IsListening (accepted ec) x v = ground (
    arith,
    v.one,
    l.counts-append x.actions (l.on_accept ec x.acceptor),
    l.counts-on_accept ec x.acceptor,
  )
  step-IsListening stops x v = record { one = v.one }

  run-IsListening :
      (events : List Event) (x : Listening S A) → IsListening x → IsListening (run events x)
  unfolding run
  run-IsListening [] x v = v
  run-IsListening (event ∷ events) x v =
      run-IsListening events (step event x) (step-IsListening event x v)

  started-IsListening : (s : S) → IsListening (started s)
  started-IsListening s = record { one = ground (arith, l.counts-start) }

  step_serves :
      (ec : ErrorCode) (x : Listening S A)
      → (l.counts (step (accepted ec) x).actions).serves
        ≡ (l.counts x.actions).serves + (if x.pending == 0 then 0 else if failed ec then 0 else 1)
  unfolding step
  step_serves ec x = ground (
    arith,
    l.counts-append x.actions (l.on_accept ec x.acceptor),
    l.counts-on_accept ec x.acceptor,
  )

  run_serves :
      (events : List Event) (x : Listening S A)
      → (l.counts (run events x).actions).serves
        ≡ (l.counts x.actions).serves + connections events x
  unfolding run connections
  run_serves [] x = omega arith
  run_serves (stops ∷ events) x = run_serves events (step stops x) ∙ unfold step in refl
  run_serves (accepted ec ∷ events) x =
      omega (arith, step_serves ec x, run_serves events (step (accepted ec) x))

  pub listening_lem :
      (events : List Event) (s : S)
      → let x = run events (started s) in
        (x.pending + (l.counts x.actions).closes ≡ 1)
        × ((l.counts x.actions).serves ≡ connections events (started s))
  listening_lem events s = (
    (run-IsListening events (started s) (started-IsListening s)).one,
    ground (arith, run_serves events (started s), l.counts-start),
  )

  stopped_closes :
      (x : Listening S A) (ec : ErrorCode)
      → IsListening x
      → let y = step (accepted ec) (step stops x) in
        (y.pending ≡ 0) × ((l.counts y.actions).closes ≡ 1)
  unfolding step
  stopped_closes x ec v = ground (
    arith,
    v.one,
    l.counts-append x.actions (l.on_accept ec (l.stop x.acceptor)),
    l.counts-on_accept ec (l.stop x.acceptor),
    l.is_stopped-stop x.acceptor,
  )

  pub stop_closes :
      (events : List Event) (s : S) (ec : ErrorCode)
      → let x = step (accepted ec) (step stops (run events (started s))) in
        (x.pending ≡ 0) × ((l.counts x.actions).closes ≡ 1)
  stop_closes events s ec =
      stopped_closes (run events (started s)) ec
        (run-IsListening events (started s) (started-IsListening s))
