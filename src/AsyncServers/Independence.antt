-- ===== src/AsyncServers/Independence.antt =====
-- The services of a server do not touch one another, and each connection has its own.
use boost_asio_study.AsyncServers.{
  replicate, ServiceKind, Serving, Event, listens, completes, stops_io, is_over, react, step, run,
}
use boost_asio_study.Base.{
  sym, ℕ, ◌+◌, ◌&&◌, List, [], ◌∷◌, ◌++◌, ◌≡◌, refl, arith, ap, ◌∙◌, length, length-append,
  length-replicate, length-modify, get_or, get_or-modify, get_or-append_replicate, ltb, ◌==◌,
  if◌then◌else◌, Bool-cases, inl, inr,
}
use boost_asio_study.Listener
use boost_asio_study.Listener.{Listener, Listening, accepted, stops}

module _ {S A O C : Type 0} (l : Listener S A) (k : ServiceKind O C) where
  -- A service that runs by itself.
  unfoldable pub alone : List C → O → O
  alone [] o = o
  alone (c ∷ cs) o = alone cs (k.continue c o)

  sent_to : ℕ → Event C → Serving S A O → List C
  sent_to i (completes j c) x = if (j == i) && ltb i (length x.services) then c ∷ [] else []
  sent_to i _ x = []

  -- The completions of the service at a position, while handlers run.
  unfoldable pub addressed : ℕ → List (Event C) → Serving S A O → List C
  unfolding sent_to
  addressed i [] x = []
  addressed i (event ∷ events) x =
      (if is_over l k x then [] else sent_to i event x) ++ addressed i events (step l k event x)

  heard_one : Event C → List Listener.Event
  heard_one (listens event) = event ∷ []
  heard_one _ = []

  -- What the acceptor sees, while handlers run.
  unfoldable pub heard : List (Event C) → Serving S A O → List Listener.Event
  unfolding heard_one
  heard [] x = []
  heard (event ∷ events) x =
      (if is_over l k x then [] else heard_one event) ++ heard events (step l k event x)

  alone-append : (cs ds : List C) (o : O) → alone (cs ++ ds) o ≡ alone ds (alone cs o)
  unfolding alone
  alone-append [] ds o = refl
  alone-append (c ∷ cs) ds o = alone-append cs ds (k.continue c o)

  react-alone :
      (i : ℕ) (event : Event C) (x : Serving S A O)
      → get_or (react l k event x).services i k.begun
        ≡ alone (sent_to i event x) (get_or x.services i k.begun)
  unfolding react sent_to alone
  react-alone i (listens event) x =
      get_or-append_replicate x.services (Listener.started_by l event x.listening) i k.begun
  react-alone i (completes j c) x =
      ground (arith, get_or-modify i j (k.continue c) x.services k.begun)
  react-alone i stops_io x = refl

  step-alone :
      (i : ℕ) (event : Event C) (x : Serving S A O)
      → get_or (step l k event x).services i k.begun
        ≡ alone (if is_over l k x then [] else sent_to i event x) (get_or x.services i k.begun)
  unfolding step
  step-alone i event x = elim (Bool-cases (is_over l k x)) [
    | inl over ↦ rw over (unfold alone in refl)
    | inr on ↦ rw on (react-alone i event x)
  ]

  -- Each service ends as it would alone, on the completions that are its own.
  pub run-alone :
      (i : ℕ) (events : List (Event C)) (x : Serving S A O)
      → get_or (run l k events x).services i k.begun
        ≡ alone (addressed i events x) (get_or x.services i k.begun)
  unfolding run addressed
  run-alone i [] x = unfold alone in refl
  run-alone i (event ∷ events) x =
      rw
        (alone-append (if is_over l k x then [] else sent_to i event x)
          (addressed i events (step l k event x)) (get_or x.services i k.begun))
        (rw (← step-alone i event x) (run-alone i events (step l k event x)))

  react-heard :
      (event : Event C) (x : Serving S A O)
      → (react l k event x).listening ≡ Listener.run l (heard_one event) x.listening
  unfolding react heard_one Listener.run
  react-heard (listens event) x = refl
  react-heard (completes i c) x = refl
  react-heard stops_io x = refl

  react-connections :
      (event : Event C) (x : Serving S A O)
      → length (react l k event x).services
        ≡ length x.services + Listener.connections l (heard_one event) x.listening
  unfolding react heard_one Listener.connections Listener.started_by
  react-connections (listens (accepted ec)) x =
      let fresh : ℕ = Listener.started_by l (accepted ec) x.listening in
      ground (
        arith,
        length-append x.services (replicate fresh k.begun),
        length-replicate fresh k.begun,
        l.counts-on_accept ec x.listening.acceptor,
      )
  react-connections (listens stops) x = ground (arith, length-append {0} x.services [])
  react-connections (completes i c) x = omega (arith, length-modify i (k.continue c) x.services)
  react-connections stops_io x = omega arith

  -- What the acceptor sees in one step, while handlers run.
  noticed : Event C → Serving S A O → List Listener.Event
  noticed event x = if is_over l k x then [] else heard_one event

  step-heard :
      (event : Event C) (x : Serving S A O)
      → ((step l k event x).listening ≡ Listener.run l (noticed event x) x.listening)
        × (length (step l k event x).services
            ≡ length x.services + Listener.connections l (noticed event x) x.listening)
  unfolding step noticed
  step-heard event x = elim (Bool-cases (is_over l k x)) [
    | inl over ↦ rw over (unfold Listener.run in refl, unfold Listener.connections in omega arith)
    | inr on ↦ rw on (react-heard event x, react-connections event x)
  ]

  -- The acceptor goes through its own run, and the services are as many as its connections.
  pub run-heard :
      (events : List (Event C)) (x : Serving S A O)
      → ((run l k events x).listening ≡ Listener.run l (heard events x) x.listening)
        × (length (run l k events x).services
            ≡ length x.services + Listener.connections l (heard events x) x.listening)
  unfolding run heard noticed
  run-heard [] x = (unfold Listener.run in refl, unfold Listener.connections in omega arith)
  run-heard (event ∷ events) x =
      let (same, many) = run-heard events (step l k event x) in
      let (one, more) = step-heard event x in
      let rest = heard events (step l k event x) in
      (
        same
            ∙ ap (Listener.run l rest) one
            ∙ sym (Listener.run-append l (noticed event x) rest x.listening),
        omega (
          arith,
          many,
          more,
          ap (Listener.connections l rest) one,
          Listener.connections-append l (noticed event x) rest x.listening,
        ),
      )
