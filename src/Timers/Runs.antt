-- ===== src/Timers/Runs.antt =====
-- What the program with the two timers prints.
use boost_asio_study.Asio.{ErrorCode, Errors, IsErrors}
use boost_asio_study.Base.{subst, ℕ, List, [], ◌∷◌, ◌++◌, ◌≡◌, ◌⊎◌, inl, inr, refl, arith}
use boost_asio_study.Timers.{
  Timer, armed, called, fired, Line, expired, cancelled, Timers, both_armed, line, cancel, expire,
  run_one, run_two, Event, expires_one, expires_two, runs_one, runs_two, step, main,
}

module _ (e : Errors) (documented : IsErrors e) where
  -- What has been printed when the timers are in these states.
  abbrev Printed : Timer → Timer → List Line → Type 0
  Printed called called p =
      (p ≡ expired 1 ∷ cancelled 2 ∷ [])
      ⊎ (p ≡ expired 1 ∷ expired 2 ∷ [])
      ⊎ (p ≡ expired 2 ∷ expired 1 ∷ [])
  Printed called (fired ec) p =
      ((ec ≡ e.success) ⊎ (ec ≡ e.operation_aborted)) × (p ≡ expired 1 ∷ [])
  Printed called armed p = ⊥
  Printed armed called p = p ≡ expired 2 ∷ []
  Printed (fired ec) called p = (ec ≡ e.success) × (p ≡ expired 2 ∷ [])
  Printed armed armed p = p ≡ []
  Printed armed (fired ec) p = (ec ≡ e.success) × (p ≡ [])
  Printed (fired ec) armed p = (ec ≡ e.success) × (p ≡ [])
  Printed (fired ec) (fired ec') p = (ec ≡ e.success) × (ec' ≡ e.success) × (p ≡ [])

  line_success : (n : ℕ) → line e n e.success ≡ expired n
  unfolding line
  line_success n = ground (arith, documented.success_value)

  line_aborted : (n : ℕ) → line e n e.operation_aborted ≡ cancelled n
  unfolding line
  line_aborted n = ground (arith, documented.aborted_value)

  expire_one : (a b : Timer) (p : List Line) → Printed a b p → Printed (expire e a) b p
  unfolding expire
  expire_one armed armed p h = (refl, h)
  expire_one armed (fired ec) p h = (refl, h.0, h.1)
  expire_one armed called p h = (refl, h)
  expire_one called armed p h = h
  expire_one called (fired ec) p h = h
  expire_one called called p h = h
  expire_one (fired ec) b p h = h

  expire_two : (a b : Timer) (p : List Line) → Printed a b p → Printed a (expire e b) p
  unfolding expire
  expire_two armed armed p h = (refl, h)
  expire_two (fired ec) armed p h = (h.0, refl, h.1)
  expire_two called armed p h = absurd h
  expire_two a (fired ec) p h = h
  expire_two a called p h = h

  printed_line :
      (n : ℕ) (ec : ErrorCode) (p q : List Line) (l : Line)
      → line e n ec ≡ l
      → p ≡ q
      → p ++ line e n ec ∷ [] ≡ q ++ l ∷ []
  printed_line n ec p q l el ep = rw (el, ep)

  success_line : (n : ℕ) (ec : ErrorCode) → ec ≡ e.success → line e n ec ≡ expired n
  success_line n ec h = rw h (line_success n)

  after_one :
      (b : Timer) (ec : ErrorCode) (p : List Line)
      → Printed (fired ec) b p
      → Printed called (cancel e b) (p ++ line e 1 ec ∷ [])
  unfolding cancel
  after_one armed ec p h =
      (inr refl, printed_line 1 ec p [] (expired 1) (success_line 1 ec h.0) h.1)
  after_one (fired code) ec p h =
      (inl h.1, printed_line 1 ec p [] (expired 1) (success_line 1 ec h.0) h.2)
  after_one called ec p h =
      inr (inr (printed_line 1 ec p (expired 2 ∷ []) (expired 1) (success_line 1 ec h.0) h.1))

  after_two :
      (a : Timer) (ec : ErrorCode) (p : List Line)
      → Printed a (fired ec) p
      → Printed a called (p ++ line e 2 ec ∷ [])
  after_two armed ec p h = printed_line 2 ec p [] (expired 2) (success_line 2 ec h.0) h.1
  after_two (fired code) ec p h =
      (h.0, printed_line 2 ec p [] (expired 2) (success_line 2 ec h.1) h.2)
  after_two called ec p h = elim (h.0) [
    | inl fine ↦
        inr (inl (printed_line 2 ec p (expired 1 ∷ []) (expired 2) (success_line 2 ec fine) h.1))
    | inr aborted ↦
        inl (printed_line 2 ec p (expired 1 ∷ []) (cancelled 2) (rw aborted (line_aborted 2)) h.1)
  ]

  record IsPrinted (t : Timers) : Type 0 where
    lines : Printed t.one t.two t.printed

  run_one-IsPrinted : (a : Timer) (t : Timers) → t.one ≡ a → IsPrinted t → IsPrinted (run_one e a t)
  unfolding run_one
  run_one-IsPrinted armed t q v = v
  run_one-IsPrinted called t q v = v
  run_one-IsPrinted (fired ec) t q v = record {
    lines = after_one t.two ec t.printed (subst (λ a. Printed a t.two t.printed) q v.lines);
  }

  run_two-IsPrinted : (b : Timer) (t : Timers) → t.two ≡ b → IsPrinted t → IsPrinted (run_two e b t)
  unfolding run_two
  run_two-IsPrinted armed t q v = v
  run_two-IsPrinted called t q v = v
  run_two-IsPrinted (fired ec) t q v = record {
    lines = after_two t.one ec t.printed (subst (λ b. Printed t.one b t.printed) q v.lines);
  }

  step-IsPrinted : (event : Event) (t : Timers) → IsPrinted t → IsPrinted (step e event t)
  unfolding step
  step-IsPrinted expires_one t v = record { lines = expire_one t.one t.two t.printed v.lines }
  step-IsPrinted expires_two t v = record { lines = expire_two t.one t.two t.printed v.lines }
  step-IsPrinted runs_one t v = run_one-IsPrinted t.one t refl v
  step-IsPrinted runs_two t v = run_two-IsPrinted t.two t refl v

  main-IsPrinted : (events : List Event) (t : Timers) → IsPrinted t → IsPrinted (main e events t)
  unfolding main
  main-IsPrinted [] t v = v
  main-IsPrinted (event ∷ events) t v =
      main-IsPrinted events (step e event t) (step-IsPrinted event t v)

  -- However expiries and handlers follow one another: once both handlers have run, the program has
  -- printed that the first timer expired, and of the second one that it was cancelled, or that it
  -- expired as well, before or after the first; so no line is printed twice or left out, and the
  -- first timer is never reported as cancelled.
  pub timers_reported :
      (events : List Event) (t : Timers)
      → main e events both_armed ≡ t
      → t.one ≡ called
      → t.two ≡ called
      → (t.printed ≡ expired 1 ∷ cancelled 2 ∷ [])
        ⊎ (t.printed ≡ expired 1 ∷ expired 2 ∷ [])
        ⊎ (t.printed ≡ expired 2 ∷ expired 1 ∷ [])
  timers_reported events t q h k =
      let v = subst IsPrinted q (main-IsPrinted events both_armed (record { lines = refl })) in
      let once = subst (λ a. Printed a t.two t.printed) h v.lines in
      subst (λ b. Printed called b t.printed) k once
