-- ===== src/AsyncTcpClient/Program.antt =====
-- `AsyncTCPClient::AsyncTCPClient`, which starts the threads, and `main`.
use boost_asio_study.Asio.{ErrorCode, Errors, Completion}
use boost_asio_study.Base.{
  ap, ◌∙◌, ℕ, zero, suc, ◌+◌, ◌-◌, ◌%◌, ◌<◌, ◌≡◌, List, [], ◌∷◌, ◌++◌, Option, none, some, map,
  refl, arith, leb, if◌then◌else◌,
}
use boost_asio_study.AsyncTcpClient.{Client, Result, new_client}
use boost_asio_study.AsyncTcpClient.Runs.{Event, requests, cancels, completes, step, run, trace_of}

-- `for (unsigned char i = 1; i <= num_of_threads; i++)`, which counts the threads; `none` means that
-- the rounds ran out.
unfoldable pub start_threads : ℕ → ℕ → ℕ → ℕ → Option ℕ
start_threads zero num_of_threads i threads = none
start_threads (suc rounds) num_of_threads i threads =
    let rest = start_threads rounds num_of_threads ((i + 1) % 256) (threads + 1) in
    if leb i num_of_threads then rest else some threads

start_threads_count :
    (rounds num i threads : ℕ)
    → num < 255
    → i < num + 2
    → num + 1 - i < rounds
    → start_threads rounds num i threads ≡ some (threads + (num + 1 - i))
unfolding start_threads
start_threads_count zero num i threads small le enough = absurd (omega arith)
start_threads_count (suc rounds) num i threads small le enough =
    ground (arith, start_threads_count rounds num ((i + 1) % 256) (threads + 1))

start_threads_255 : (rounds i threads : ℕ) → i < 256 → start_threads rounds 255 i threads ≡ none
unfolding start_threads
start_threads_255 zero i threads h = refl
start_threads_255 (suc rounds) i threads h =
    ground (arith, start_threads_255 rounds ((i + 1) % 256) (threads + 1))

-- The constructor starts as many threads as it is told, in one round more than that, if it
-- is told fewer than 255; with 255, the largest `unsigned char`, its loop has no end.
pub threads_started :
    (num_of_threads : ℕ)
    → (num_of_threads < 255
        → start_threads (num_of_threads + 1) num_of_threads 1 0 ≡ some num_of_threads)
      × ((rounds : ℕ) → start_threads rounds 255 1 0 ≡ none)
threads_started num = (
  λ small.
      start_threads_count (num + 1) num 1 0 small (omega arith) (omega arith)
      ∙ ap some (omega arith),
  λ rounds. start_threads_255 rounds 1 0 (omega arith),
)

-- What `main` meets: the results of its calls, and what completes during each of its sleeps; during
-- the last one, what completes before `close` has joined the threads.
pub record World : Type 0 where
  pub opened : ℕ → ErrorCode
  pub cancelled : ErrorCode
  pub first : List (ℕ × Completion)
  pub second : List (ℕ × Completion)
  pub last : List (ℕ × Completion)

abbrev pub completions : List (ℕ × Completion) → List Event
completions = map (λ p. completes p.0 p.1)

-- The calls of `main`, each with what completes before the next one.
unfoldable pub main_calls : World → List (Event × List Event)
main_calls w =
    (requests (w.opened 1) 10 1, completions w.first)
    ∷ (requests (w.opened 2) 11 2, [])
    ∷ (cancels w.cancelled 1, completions w.second)
    ∷ (requests (w.opened 3) 12 3, completions w.last)
    ∷ []

-- An exception of a call ends the calls.
unfoldable pub unless_thrown : Option ErrorCode → Result → Result → Result
unless_thrown none r next = next
unless_thrown (some ec) r next = r

-- The calls up to the first one that throws.
unfoldable pub perform_calls : Errors → List (Event × List Event) → Client → Result
perform_calls e [] c = record { client = c; trace = []; thrown = none }
perform_calls e ((call, meanwhile) ∷ calls) c =
    let r = step e call c in
    let rest = perform_calls e calls (run e meanwhile r.client) in
    unless_thrown r.thrown r (record {
      client = rest.client;
      trace = r.trace ++ (trace_of e meanwhile r.client ++ rest.trace);
      thrown = rest.thrown;
    })

-- An exception destroys the client on its way to the handler of `main`, and with it threads that
-- have not been joined: `std::terminate` is called, and the handler is not reached.
pub data End : Type 0 where
  returned : ℕ → End
  terminated : End

unfoldable pub main_end : Result → End
main_end r = elim (r.thrown) [ none ↦ returned 0 | some ec ↦ terminated ]

unfoldable pub main : Errors → World → End
main e w = main_end (perform_calls e (main_calls w) new_client)
