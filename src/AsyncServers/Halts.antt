-- ===== src/AsyncServers/Halts.antt =====
-- When no handler of a server runs any more.
use Prim.Native.Nat.{zero, suc}
use boost_asio_study.AsyncServers.{
  ServiceKind, Serving, Event, stops_io, any_fatal, is_over, step, run, react,
}
use boost_asio_study.AsyncServers.Independence.{addressed}
use boost_asio_study.Base.{
  append-nil, ap, ℕ, true, false, List, [], ◌∷◌, ◌++◌, ◌≡◌, refl, arith, ◌∙◌, get_or, Bool-cases,
  inl, inr, append_assoc,
}
use boost_asio_study.Listener.{Listener}

module _ {S A O C : Type 0} (l : Listener S A) (k : ServiceKind O C) where
  run_over :
      (events : List (Event C)) (x : Serving S A O)
      → is_over l k x ≡ true
      → (run l k events x ≡ x) × ((i : ℕ) → addressed l k i events x ≡ [])
  unfolding run step addressed
  run_over [] x over = (refl, λ i. refl)
  run_over (event ∷ events) x over = rw over (run_over events x over)

  run-append :
      (xs ys : List (Event C)) (x : Serving S A O)
      → run l k (xs ++ ys) x ≡ run l k ys (run l k xs x)
  unfolding run
  run-append [] ys x = refl
  run-append (event ∷ xs) ys x = run-append xs ys (step l k event x)

  addressed-append :
      (i : ℕ) (xs ys : List (Event C)) (x : Serving S A O)
      → addressed l k i (xs ++ ys) x ≡ addressed l k i xs x ++ addressed l k i ys (run l k xs x)
  unfolding run addressed
  addressed-append i [] ys x = refl
  addressed-append i (event ∷ xs) ys x =
      simp (addressed-append i xs ys (step l k event x), append_assoc)

  any_fatal-get_or :
      (os : List O) (i : ℕ)
      → k.is_fatal k.begun ≡ false
      → k.is_fatal (get_or os i k.begun) ≡ true
      → any_fatal l k os ≡ true
  unfolding any_fatal
  any_fatal-get_or [] i alive h = cc
  any_fatal-get_or (o ∷ os) zero alive h = rw h
  any_fatal-get_or (o ∷ os) (suc i) alive h = elim (Bool-cases (k.is_fatal o)) [
    | inl e ↦ rw e
    | inr e ↦ rw e (any_fatal-get_or os i alive h)
  ]

  -- Once a service has ended the process, no handler of any other runs.
  pub fatal_ends :
      (events later : List (Event C)) (i : ℕ) (x : Serving S A O)
      → k.is_fatal k.begun ≡ false
      → k.is_fatal (get_or (run l k events x).services i k.begun) ≡ true
      → run l k (events ++ later) x ≡ run l k events x
  fatal_ends events later i x alive fatal =
      let any : any_fatal l k (run l k events x).services ≡ true =
        any_fatal-get_or (run l k events x).services i alive fatal in
      run-append events later x ∙ (run_over later (run l k events x) (ground arith)).0

  step_stops :
      (z : Serving S A O)
      → let z' = step l k stops_io z in
        (is_over l k z' ≡ true) × (z'.services ≡ z.services) × (z'.listening ≡ z.listening)
  unfolding step react
  step_stops z = ground arith

  stopped_keeps_nothing :
      (after : List (Event C)) (z : Serving S A O)
      → let y = run l k (stops_io ∷ after) z in
        (y.services ≡ z.services)
        × (y.listening ≡ z.listening)
        × ((i : ℕ) → addressed l k i (stops_io ∷ after) z ≡ [])
  unfolding run addressed
  stopped_keeps_nothing after z =
      let (over, same, listening) = step_stops z in
      let (still, none_more) = run_over after (step l k stops_io z) over in
      rw still (same, listening, λ i. ground (arith, none_more i))

  -- Behind `m_ios.stop()` nothing happens to the acceptor or to a service.
  pub stopped_keeps :
      (before after : List (Event C)) (x : Serving S A O)
      → let y = run l k (before ++ stops_io ∷ after) x in
        let z = run l k before x in
        (y.services ≡ z.services)
        × (y.listening ≡ z.listening)
        × ((i : ℕ) → addressed l k i (before ++ stops_io ∷ after) x ≡ addressed l k i before x)
  stopped_keeps before after x =
      let (same, listening, none_more) = stopped_keeps_nothing after (run l k before x) in
      (
        ap (λ (y : Serving S A O). y.services) (run-append before (stops_io ∷ after) x) ∙ same,
        ap (λ (y : Serving S A O). y.listening) (run-append before (stops_io ∷ after) x)
            ∙ listening,
        λ i. simp (addressed-append i before (stops_io ∷ after) x, none_more i, append-nil),
      )
