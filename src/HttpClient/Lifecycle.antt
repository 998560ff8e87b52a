-- ===== src/HttpClient/Lifecycle.antt =====
-- One `HTTPRequest` from `execute` to its end, over every sequence of completions and cancellations.
use boost_asio_study.Asio.{ErrorCode, Errors, Fault, Completion}
use boost_asio_study.Base.{
  Option, none, some, some, Option, ◌∙◌, ℕ, suc, ◌+◌, ◌-◌, ◌≤◌, ◌<◌, List, [], ◌∷◌, ◌++◌, ◌≡◌, ◌⊎◌,
  inl, inr, refl, ap, arith, if_both,
}
use boost_asio_study.HttpClient.{
  Request, Action, call_back, Handler, resolved_handler, connected_handler, sent_handler,
  status_handler, headers_handler, body_handler, Exit, awaits, finished, faulted, Outcome, execute,
  cancel, dispatch,
}
use boost_asio_study.HttpClient.Rounds.{
  fault-Within, unless_cancelled-Within, callbacks, rounds, called_by, Within, Within-mono,
  dispatch-Within, await-Within,
}

-- What happens to a request from outside: the pending operation completes (`m_sock.shutdown` would
-- return the code), or another thread calls `cancel`, with the argument given.
pub data Event : Type 0 where
  completes : ErrorCode → Completion → Event
  cancels : Option ErrorCode → Event

-- The run ends with the callback or a fault: what comes later is not followed.
unfoldable pub continue : Errors → Event → Outcome → Exit → Outcome
continue e (completes shutdown_result c) o (awaits h r) =
    let next = dispatch e shutdown_result h r c in
    record { actions = o.actions ++ next.actions; exit = next.exit }
continue e (cancels sock) o (awaits h r) =
    let c = cancel sock r in record { actions = o.actions ++ c.actions; exit = awaits h c.request }
continue e event o _ = o

unfoldable pub run : Errors → Outcome → List Event → Outcome
run e o [] = o
run e o (event ∷ events) = run e (continue e event o o.exit) events

unfoldable pub completions : List Event → ℕ
completions [] = 0
completions (completes _ _ ∷ rest) = suc (completions rest)
completions (cancels _ ∷ rest) = completions rest

callbacks-append : (xs ys : List Action) → callbacks (xs ++ ys) ≡ callbacks xs + callbacks ys
unfolding callbacks
callbacks-append [] ys = omega arith
callbacks-append (call_back ec r ∷ xs) ys = omega (arith, callbacks-append xs ys)
callbacks-append (_ ∷ xs) ys = callbacks-append xs ys

callbacks-cancel : (sock : Option ErrorCode) (r : Request) → callbacks (cancel sock r).actions ≡ 0
unfolding cancel callbacks
callbacks-cancel none r = refl
callbacks-cancel (some ec) r = refl

cancel_rounds : (h : Handler) (r r' : Request) → rounds (awaits h r') ≡ rounds (awaits h r)
cancel_rounds resolved_handler r r' = refl
cancel_rounds _ r r' = refl

ended-Within :
    (n m : ℕ) (o : Outcome) → rounds o.exit ≡ 0 → Within (suc n) o → Within (suc (n - m)) o
ended-Within n m o z v = record { sooner = omega arith; called = v.called }

continue-Within :
    (e : Errors) (event : Event) (n : ℕ) (o : Outcome) (x : Exit)
    → o.exit ≡ x
    → Within (suc n) o
    → Within (suc (n - completions (event ∷ []))) (continue e event o x)
unfolding continue completions
continue-Within e (completes sr c) n o (awaits h r) q v =
    let next = dispatch-Within e sr h r c in
    let left : rounds (awaits h r) < suc n = rw q at v.sooner in
    let silent : callbacks o.actions ≡ 0 = rw q at v.called in
    record {
      sooner = omega (arith, next.sooner);
      called = omega (arith, next.called, callbacks-append o.actions (dispatch e sr h r c).actions);
    }
continue-Within e (cancels sock) n o (awaits h r) q v =
    let left : rounds (awaits h r) < suc n = rw q at v.sooner in
    let silent : callbacks o.actions ≡ 0 = rw q at v.called in
    record {
      sooner = omega (arith, cancel_rounds h r (cancel sock r).request);
      called =
          omega
            (arith, callbacks-append o.actions (cancel sock r).actions, callbacks-cancel sock r);
    }
continue-Within e (completes sr c) n o finished q v = ended-Within n 1 o (ap rounds q) v
continue-Within e (completes sr c) n o (faulted f) q v = ended-Within n 1 o (ap rounds q) v
continue-Within e (cancels sock) n o finished q v = ended-Within n 0 o (ap rounds q) v
continue-Within e (cancels sock) n o (faulted f) q v = ended-Within n 0 o (ap rounds q) v

completions-cons :
    (event : Event) (events : List Event)
    → completions (event ∷ events) ≡ completions (event ∷ []) + completions events
unfolding completions
completions-cons (completes sr c) events = omega arith
completions-cons (cancels sock) events = omega arith

run-Within :
    (e : Errors) (events : List Event) (n : ℕ) (o : Outcome)
    → Within (suc n) o
    → Within (suc (n - completions events)) (run e o events)
unfolding run completions
run-Within e [] n o v = Within-mono (omega arith) v
run-Within e (event ∷ events) n o v =
    Within-mono (omega (arith, completions-cons event events))
      (run-Within e events _ _ (continue-Within e event n o o.exit refl v))

execute-Within : (e : Errors) (r : Request) → Within 7 (execute e r)
unfolding execute callbacks
execute-Within e r =
    if_both (Within 7) _
      (unless_cancelled-Within 7 e r _ (omega arith)
        (await-Within (Action.resolve _ _) resolved_handler r 7 refl (omega arith)))
      (fault-Within 7 Fault.assertion (omega arith))

-- While an operation of a request is pending its callback has not been called; a request whose run
-- is finished has called it exactly once; one that ended in a fault has not called it. This holds
-- for every sequence of completions, with any errors, and of cancellations.
pub request_callbacks :
    (e : Errors) (r : Request) (events : List Event)
    → let o = run e (execute e r) events in
      ((h : Handler) (r' : Request) → o.exit ≡ awaits h r' → callbacks o.actions ≡ 0)
      × (o.exit ≡ finished → callbacks o.actions ≡ 1)
      × ((f : Fault) → o.exit ≡ faulted f → callbacks o.actions ≡ 0)
request_callbacks e r events =
    let called = (run-Within e events 6 (execute e r) (execute-Within e r)).called in
    (
      (λ h r' q. called ∙ ap called_by q),
      (λ q. called ∙ ap called_by q),
      (λ f q. called ∙ ap called_by q),
    )

ended : (x : Exit) → rounds x ≡ 0 → (x ≡ finished) ⊎ ((f : Fault) × (x ≡ faulted f))
ended (awaits resolved_handler r) z = absurd (omega arith)
ended (awaits connected_handler r) z = absurd (omega arith)
ended (awaits sent_handler r) z = absurd (omega arith)
ended (awaits status_handler r) z = absurd (omega arith)
ended (awaits headers_handler r) z = absurd (omega arith)
ended (awaits body_handler r) z = absurd (omega arith)
ended finished z = inl refl
ended (faulted f) z = inr (f, refl)

-- After six completions, or more, with cancellations anywhere among them, a request is finished or
-- has ended in a fault.
pub request_ends :
    (e : Errors) (r : Request) (events : List Event)
    → 6 ≤ completions events
    → let x = (run e (execute e r) events).exit in (x ≡ finished) ⊎ ((f : Fault) × (x ≡ faulted f))
request_ends e r events h =
    ended _ (omega (arith, (run-Within e events 6 (execute e r) (execute-Within e r)).sooner))
