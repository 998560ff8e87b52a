-- ===== src/HttpClient/Closing.antt =====
-- `HTTPClient`, and the end of `main`: `close` joins the thread that runs all handlers.
use boost_asio_study.Asio.{
  system_error, ErrorCode, endless_loop, out_of_range, null_write, assertion, Errors, Fault,
}
use boost_asio_study.Base.{
  refl, ◌≢◌, some, none, ap, Option, ℕ, ◌≤◌, Bool, true, false, List, ◌∷◌, ◌++◌, ◌≡◌, ◌⊎◌, inl, inr,
  if◌then◌else◌,
}
use boost_asio_study.HttpClient.{cancel, awaits, Exit, finished, faulted}
use boost_asio_study.HttpClient.Lifecycle.{
  Event, cancels, completions, request_callbacks, request_ends,
}
use boost_asio_study.HttpClient.Program.{Requests, configured, main}
use boost_asio_study.HttpClient.Rounds.{callbacks}

-- `HTTPClient`: whether `m_work` is held, which keeps `m_ios.run()` from returning.
pub record Client : Type 0 where
  pub work : Bool

-- `HTTPClient()`, which also starts the thread.
abbrev pub new_client : Client
new_client = record { work = true }

-- What has become of the thread of `m_ios.run()`: it has returned; an exception has left it, or an
-- `assert` has failed, which ends the process; a handler never returns; or it goes on. `run` returns
-- when no work is held and no operation is pending.
data ThreadEnd : Type 0 where
  returns dies hangs running : ThreadEnd

abbrev fault_end : Fault → ThreadEnd
fault_end endless_loop = hangs
fault_end _ = dies

-- What a request makes of the thread that runs its handlers.
abbrev exit_end : Exit → ThreadEnd
exit_end (awaits h r) = running
exit_end finished = returns
exit_end (faulted f) = fault_end f

-- Of two requests: a dead process is dead, and a handler that never returns keeps the thread.
abbrev both_end : ThreadEnd → ThreadEnd → ThreadEnd
both_end dies two = dies
both_end hangs dies = dies
both_end hangs two = hangs
both_end running dies = dies
both_end running hangs = hangs
both_end running two = running
both_end returns two = two

-- `run` goes on while work is held.
abbrev with_work : Client → ThreadEnd → ThreadEnd
with_work c returns = if c.work then running else returns
with_work c other = other

thread_end : Client → Exit → Exit → ThreadEnd
thread_end c one two = with_work c (both_end (exit_end one) (exit_end two))

-- `close`
pub close : Client → Client
close c = record c { work = false }

-- How `main` ends: it returns, the process is terminated, or it waits in `join`.
pub data End : Type 0 where
  returned : ℕ → End
  terminated waits : End

-- An exception of `cancel` destroys `client`, whose thread is not joined.
abbrev closed_by : Option ErrorCode → ThreadEnd → End
closed_by (some ec) thread = terminated
closed_by none returns = returned 0
closed_by none dies = terminated
closed_by none hangs = waits
closed_by none running = waits

pub main_end : Requests → End
main_end r = closed_by r.thrown (thread_end (close new_client) r.one.exit r.two.exit)

-- A fault of a handler that ends the process, and one that never ends.
abbrev pub Dies : Exit → Type 0
Dies x = (f : Fault) × (x ≡ faulted f) × (f ≢ endless_loop)

abbrev pub Hangs : Exit → Type 0
Hangs x = x ≡ faulted endless_loop

data Fate (x : Exit) : Type 0 where
  is_finished : x ≡ finished → exit_end x ≡ returns → Fate x
  is_dead : Dies x → exit_end x ≡ dies → Fate x
  is_hanging : Hangs x → exit_end x ≡ hangs → Fate x

fault_case : (x : Exit) (f : Fault) → x ≡ faulted f → Fate x
fault_case x endless_loop h = is_hanging h (ap exit_end h)
fault_case x (system_error ec) h = is_dead (system_error ec, h, λ q. cc) (ap exit_end h)
fault_case x out_of_range h = is_dead (out_of_range, h, λ q. cc) (ap exit_end h)
fault_case x null_write h = is_dead (null_write, h, λ q. cc) (ap exit_end h)
fault_case x assertion h = is_dead (assertion, h, λ q. cc) (ap exit_end h)

exit_case : (x : Exit) → (x ≡ finished) ⊎ ((f : Fault) × (x ≡ faulted f)) → Fate x
exit_case x (inl done) = is_finished done (ap exit_end done)
exit_case x (inr (f, h)) = fault_case x f h

-- How `main` ends, if both requests have ended.
abbrev pub EndsAs : Requests → Type 0
EndsAs r =
    ((main_end r ≡ returned 0)
      × (r.thrown ≡ none)
      × (r.one.exit ≡ finished)
      × (r.two.exit ≡ finished))
    ⊎ ((main_end r ≡ terminated)
        × ((((ec : ErrorCode) × (r.thrown ≡ some ec)) ⊎ Dies r.one.exit) ⊎ Dies r.two.exit))
    ⊎ ((main_end r ≡ waits) × (r.thrown ≡ none) × (Hangs r.one.exit ⊎ Hangs r.two.exit))

main_end_by :
    (r : Requests) (one two : ThreadEnd)
    → r.thrown ≡ none
    → exit_end r.one.exit ≡ one
    → exit_end r.two.exit ≡ two
    → main_end r ≡ closed_by none (with_work (record { work = false }) (both_end one two))
unfolding main_end thread_end close
main_end_by r one two quiet p q =
    λ i. closed_by (quiet i) (with_work (record { work = false }) (both_end (p i) (q i)))

unthrown_ended : (r : Requests) → r.thrown ≡ none → Fate r.one.exit → Fate r.two.exit → EndsAs r
unthrown_ended r quiet (is_finished a p) (is_finished b q) =
    inl (main_end_by r returns returns quiet p q, quiet, a, b)
unthrown_ended r quiet (is_finished a p) (is_dead b q) =
    inr (inl (main_end_by r returns dies quiet p q, inr b))
unthrown_ended r quiet (is_finished a p) (is_hanging b q) =
    inr (inr (main_end_by r returns hangs quiet p q, quiet, inr b))
unthrown_ended r quiet (is_dead a p) two =
    inr (inl (main_end_by r dies (exit_end r.two.exit) quiet p refl, inl (inr a)))
unthrown_ended r quiet (is_hanging a p) (is_finished b q) =
    inr (inr (main_end_by r hangs returns quiet p q, quiet, inl a))
unthrown_ended r quiet (is_hanging a p) (is_dead b q) =
    inr (inl (main_end_by r hangs dies quiet p q, inr b))
unthrown_ended r quiet (is_hanging a p) (is_hanging b q) =
    inr (inr (main_end_by r hangs hangs quiet p q, quiet, inl a))

thrown_cases : (x : Option ErrorCode) → (x ≡ none) ⊎ ((ec : ErrorCode) × (x ≡ some ec))
thrown_cases none = inl refl
thrown_cases (some ec) = inr (ec, refl)

requests_close : (r : Requests) → Fate r.one.exit → Fate r.two.exit → EndsAs r
unfolding main_end
requests_close r one two = elim (thrown_cases r.thrown) [
  | inl quiet ↦ unthrown_ended r quiet one two
  | inr (ec, h) ↦ inr (inl (rw h refl, inl (inl (ec, h))))
]

-- Once six operations have completed for each of the two requests of `main`, with `cancel` called for
-- the second one anywhere in between, one of three: `main` returns 0, `cancel` has thrown nothing,
-- and the callback was called exactly once for each request; or the process is terminated, as the
-- socket's `cancel` has thrown, or a handler has ended in a fault other than an endless loop; or
-- `main` waits in `join`, as a handler is in an endless loop.
pub main_ends :
    (e : Errors) (sock : Option ErrorCode) (first before second : List Event)
    → 6 ≤ completions first
    → 6 ≤ completions (before ++ cancels sock ∷ second)
    → let r = main e sock first before second in
      ((main_end r ≡ returned 0)
        × ((cancel sock (configured 2)).thrown ≡ none)
        × (callbacks r.one.actions ≡ 1)
        × (callbacks r.two.actions ≡ 1))
      ⊎ ((main_end r ≡ terminated)
          × ((((ec : ErrorCode) × ((cancel sock (configured 2)).thrown ≡ some ec))
                ⊎ Dies r.one.exit)
              ⊎ Dies r.two.exit))
      ⊎ ((main_end r ≡ waits)
          × ((cancel sock (configured 2)).thrown ≡ none)
          × (Hangs r.one.exit ⊎ Hangs r.two.exit))
unfolding main
main_ends e sock first before second h1 h2 =
    let later = before ++ cancels sock ∷ second in
    elim (requests_close (main e sock first before second)
      (exit_case _ (request_ends e (configured 1) first h1))
      (exit_case _ (request_ends e (configured 2) later h2))) [
        | inl (back, quiet, one, two) ↦ inl (
          back,
          quiet,
          (request_callbacks e (configured 1) first).1 one,
          (request_callbacks e (configured 2) later).1 two,
        )
        | inr other ↦ inr other
      ]
