-- ===== src/HttpServer/Lifecycle.antt =====
-- One `Service` from `start_handling` to its end, over every sequence of completions.
use boost_asio_study.Asio.{Fault, Errors, out_of_range, endless_loop, Completion}
use boost_asio_study.Base.{
  ◌⊎◌, ap, subst, ◌-◌, refl, ◌≢◌, inl, inr, length, ℕ, suc, ◌+◌, ◌≤◌, ◌<◌, List, [], ◌∷◌, ◌++◌, ◌≡◌,
  arith,
}
use boost_asio_study.HttpServer.{
  new_service, start_handling, World, Outcome, Action, write, request_line_handler, headers_handler,
  sent_handler, Exit, awaits, deleted, faulted, http_status_table, dispatch,
}
use boost_asio_study.HttpServer.Rounds.{
  writes, rounds, budget, IsFine, Within, Within-mono, dispatch-Within,
}

-- One completion after the other; a service that has ended takes no more.
unfoldable pub continue : Errors → World → Completion → Outcome → Exit → Outcome
continue e w c o (awaits h s) =
    let next = dispatch e w h s c in
    record { actions = o.actions ++ next.actions; exit = next.exit }
continue e w c o _ = o

unfoldable pub run : Errors → Outcome → List (World × Completion) → Outcome
run e o [] = o
run e o ((w, c) ∷ events) = run e (continue e w c o o.exit) events

writes-append : (xs ys : List Action) → writes (xs ++ ys) ≡ writes xs + writes ys
unfolding writes
writes-append [] ys = omega arith
writes-append (write b ∷ xs) ys = omega (arith, writes-append xs ys)
writes-append (_ ∷ xs) ys = writes-append xs ys

ended-Within :
    (n : ℕ) (o : Outcome) → rounds o.exit ≡ 0 → Within (suc n) 1 o → Within (suc (n - 1)) 1 o
ended-Within n o z v = record { fine = v.fine; sooner = omega arith; within = v.within }

continue-Within :
    (e : Errors) (w : World) (c : Completion) (n : ℕ) (o : Outcome) (x : Exit)
    → o.exit ≡ x
    → Within (suc n) 1 o
    → Within (suc (n - 1)) 1 (continue e w c o x)
unfolding continue
continue-Within e w c n o (awaits h s) q v =
    let next = dispatch-Within e w h s c (subst IsFine q v.fine) in
    let left : rounds (awaits h s) < suc n = rw q at v.sooner in
    let room : writes o.actions + budget (awaits h s) ≤ 1 = rw q at v.within in
    record {
      fine = next.fine;
      sooner = omega (arith, next.sooner);
      within = omega (arith, next.within, writes-append o.actions (dispatch e w h s c).actions);
    }
continue-Within e w c n o deleted q v = ended-Within n o (ap rounds q) v
continue-Within e w c n o (faulted f) q v = ended-Within n o (ap rounds q) v

run-Within :
    (e : Errors) (events : List (World × Completion)) (n : ℕ) (o : Outcome)
    → Within (suc n) 1 o
    → Within (suc (n - length events)) 1 (run e o events)
unfolding run
run-Within e [] n o v = Within-mono (omega arith) v
run-Within e ((w, c) ∷ events) n o v =
    Within-mono (omega arith)
      (run-Within e events (n - 1) _ (continue-Within e w c n o o.exit refl v))

-- A service that starts to handle a connection.
abbrev pub started : Outcome
started = start_handling new_service

pub started-awaits : started.exit ≡ awaits request_line_handler new_service
unfolding start_handling
started-awaits = refl

started-Within : Within 4 1 started
unfolding start_handling writes http_status_table
started-Within = record { fine = (_, refl); sooner = omega arith; within = omega arith }

-- Whatever arrives, in whatever order and with whatever errors, a service writes at most one
-- response.
pub service_writes :
    (e : Errors) (events : List (World × Completion)) → writes (run e started events).actions ≤ 1
service_writes e events = omega (arith, (run-Within e events 3 started started-Within).within)

ended : (x : Exit) → rounds x ≡ 0 → (x ≡ deleted) ⊎ ((f : Fault) × (x ≡ faulted f))
ended (awaits request_line_handler s) z = absurd (omega arith)
ended (awaits headers_handler s) z = absurd (omega arith)
ended (awaits sent_handler s) z = absurd (omega arith)
ended deleted z = inl refl
ended (faulted f) z = inr (f, refl)

-- After three completions, or more, a service is deleted or has ended in a fault: no operation of
-- it is pending.
pub service_ends :
    (e : Errors) (events : List (World × Completion))
    → 3 ≤ length events
    → let x = (run e started events).exit in (x ≡ deleted) ⊎ ((f : Fault) × (x ≡ faulted f))
service_ends e events h =
    ended _ (omega (arith, (run-Within e events 3 started started-Within).sooner))

-- Whatever arrives, `http_status_table.at` never throws, and the loop over the header fields ends.
pub service_faults :
    (e : Errors) (events : List (World × Completion)) (f : Fault)
    → (run e started events).exit ≡ faulted f
    → (f ≢ out_of_range) × (f ≢ endless_loop)
service_faults e events f q =
    let fine = subst IsFine q (run-Within e events 3 started started-Within).fine in
    (fine.0, fine.1)
