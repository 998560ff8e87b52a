-- ===== src/AsyncTcpServer/Exchange.antt =====
-- What one service does from its start to its deletion.
use boost_asio_study.Asio.{ErrorCode, failed}
use boost_asio_study.AsyncTcpServer.{
  sent_handler, false, new_service, Action, log, delete_service, read_until, write, Handler,
  Outcome, start_handling, on_finish, process_request, on_request_received, on_response_sent,
  dispatch,
}
use boost_asio_study.Base.{
  ◌∙◌, ap, List, [], ◌∷◌, ◌++◌, Option, none, some, codes, ◌≡◌, refl, if◌then◌else◌, Bool-cases,
  inl, inr,
}

-- The pending operation completes; after the deletion nothing does.
unfoldable pub continue_pending : Option Handler → ErrorCode → Outcome → Outcome
continue_pending none ec o = o
continue_pending (some h) ec o =
    let next = dispatch h ec o.service in record next { actions = o.actions ++ next.actions }

-- The errors are those of the operations that complete, in order.
unfoldable pub run : List ErrorCode → Outcome → Outcome
unfolding continue_pending
run [] o = o
run (ec ∷ codes) o = run codes (continue_pending o.pending ec o)

abbrev pub logged : ErrorCode → List Action
logged ec = if failed ec then log ec ∷ [] else []

continue_ended :
    (p : Option Handler) (ec : ErrorCode) (o : Outcome) → p ≡ none → continue_pending p ec o ≡ o
unfolding continue_pending
continue_ended none ec o h = refl
continue_ended (some k) ec o h = cc

run_ended : (codes : List ErrorCode) (o : Outcome) → o.pending ≡ none → run codes o ≡ o
unfolding run
run_ended [] o h = refl
run_ended (ec ∷ codes) o h = ap (run codes) (continue_ended o.pending ec o h) ∙ run_ended codes o h

answered :
    (received sent : ErrorCode)
    → let o = run (received ∷ sent ∷ []) (start_handling new_service) in
      (o.pending ≡ none)
      × (o.actions
          ≡ read_until (codes "\n")
            ∷ (if failed received
                then log received ∷ delete_service ∷ []
                else write (codes "Response\n") ∷ (logged sent ++ delete_service ∷ [])))
unfolding run start_handling dispatch on_request_received on_response_sent on_finish process_request
answered received sent = elim (Bool-cases (failed received)) [
  | inl bad ↦ rw bad (refl, refl)
  | inr fine ↦ rw fine (refl, refl)
]

-- A service reads up to a newline, whatever happens later; with an error it prints it and deletes
-- itself; else it writes its response, prints an error of that, and deletes itself. It is deleted
-- exactly once, as the last thing that it does, and no handler runs after that.
pub exchange :
    (received sent : ErrorCode) (later : List ErrorCode)
    → let o = run (received ∷ sent ∷ later) (start_handling new_service) in
      (o.pending ≡ none)
      × (o.actions
          ≡ read_until (codes "\n")
            ∷ (if failed received
                then log received ∷ delete_service ∷ []
                else write (codes "Response\n") ∷ (logged sent ++ delete_service ∷ [])))
unfolding run
exchange received sent later =
    let first = answered received sent in
    rw (run_ended later (run (received ∷ sent ∷ []) (start_handling new_service)) first.0) first

-- What a service does that has received its request, when the response is on its way.
pub received_only :
    (received : ErrorCode)
    → failed received ≡ false
    → let o = run (received ∷ []) (start_handling new_service) in
      (o.pending ≡ some sent_handler)
      × (o.actions ≡ read_until (codes "\n") ∷ write (codes "Response\n") ∷ [])
unfolding run start_handling dispatch on_request_received process_request
received_only received fine = rw fine (refl, refl)
