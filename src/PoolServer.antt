-- ===== src/PoolServer.antt =====
-- `Server` and `main` of the asynchronous servers, which are alike in Chapter-04, Section-03,
-- 04-03-01-async_tcp_server.cpp and Chapter-05, Section-02, 05-02-01-http_server.cpp: a pool of threads
-- that run one `io_service`, and an acceptor with actions `A`.
pub mod Joins
pub mod Outcomes
use boost_asio_study.Asio.{ErrorCode, failed, Fault, endless_loop}
use boost_asio_study.Base.{
  Bool, ℕ, zero, suc, ◌+◌, ◌*◌, ◌%◌, ◌^◌, ◌<◌, List, [], ◌∷◌, ◌++◌, Option, none, some, arith, ◌==◌,
  if◌then◌else◌, map,
}

pub data Action (A : Type 0) : Type 0 where
  bind : ℕ → Action A
  acceptor : A → Action A
  start_thread sleep stop_acceptor stop_io join_thread : Action A

-- What leaves `Start`: the error of `bind` or `listen`, a failed `assert`, or the exception of the
-- constructor of a `std::thread`, which is no `boost::system::system_error`.
pub data Failure : Type 0 where
  throws : ErrorCode → Failure
  asserts no_thread : Failure

-- `m_thread_pool` by its length, and what was done; a failure ends the call.
pub record Server (A : Type 0) : Type 0 where
  pub threads : ℕ
  pub actions : List (Action A)
  pub failure : Option Failure

-- What `new Acceptor` and `listen` throw, or no error; `std::thread::hardware_concurrency()`; whether
-- a thread can be created when the pool has this many; and whether a handler that a thread of the
-- pool runs ends in a fault, which ends the process.
pub record World : Type 0 where
  pub bound : ErrorCode
  pub listening : ErrorCode
  pub hardware_concurrency : ℕ
  pub creates : ℕ → Bool
  pub pool_dies : Bool

-- `main` returns, or the process is terminated.
pub data Exit : Type 0 where
  returned : ℕ → Exit
  terminated : Exit

abbrev default_thread_pool_size : ℕ
default_thread_pool_size = 2

-- `hardware_concurrency() * 2` in `unsigned int`, or the default.
unfoldable pub thread_pool_size : ℕ → ℕ
thread_pool_size hardware_concurrency =
    let twice = hardware_concurrency * 2 % 2 ^ 32 in
    if twice == 0 then default_thread_pool_size else twice

module _ {A : Type 0} where
  abbrev pub new_server : Server A
  new_server = record { threads = 0; actions = []; failure = none }

  abbrev add_thread : Server A → Server A
  add_thread s = record s { threads = s.threads + 1; actions = s.actions ++ start_thread ∷ [] }

  -- `for (unsigned int i = 0; i < thread_pool_size; i++)`, by the rounds that are left.
  unfoldable pub start_threads : World → ℕ → Server A → Server A
  start_threads w zero s = s
  start_threads w (suc left) s =
      let rest = start_threads w left (add_thread s) in
      if w.creates s.threads then rest else record s { failure = some no_thread }

  abbrev pub throw : Failure → List (Action A) → Server A → Server A
  throw f more s = record s { actions = s.actions ++ more; failure = some f }

  -- `Server::Start`; `acceptor_start` is what `Acceptor::Start` does, `listen` first.
  unfoldable pub server_start : World → List A → ℕ → ℕ → Server A → Server A
  server_start w acceptor_start port thread_pool_size s =
      let before = s.actions ++ (bind port ∷ map acceptor acceptor_start) in
      if thread_pool_size == 0
      then throw asserts [] s
      else if failed w.bound
      then throw (throws w.bound) (bind port ∷ []) s
      else if failed w.listening
      then throw (throws w.listening) (bind port ∷ []) s
      else start_threads w thread_pool_size (record s { actions = before })

  unfoldable pub join_threads : ℕ → List (Action A)
  join_threads zero = []
  join_threads (suc left) = join_thread ∷ join_threads left

  -- `Server::Stop`
  unfoldable pub server_stop : Server A → Server A
  server_stop s = record s {
    actions = s.actions ++ (stop_acceptor ∷ stop_io ∷ join_threads s.threads);
  }

  -- `main` behind `Start`: the sleep, and `Stop`. A fault in the pool ends the process in the sleep: the
  -- handlers of the pool run until then.
  unfoldable pub sleep_and_stop : Bool → Server A → Server A × Exit
  sleep_and_stop pool_dies s =
      let slept : Server A = record s { actions = s.actions ++ sleep ∷ [] } in
      if pool_dies then (slept, terminated) else (server_stop slept, returned 0)

  -- `main`: the end of the exit code in the `catch` is the value of the error. The exception of a
  -- `std::thread` is not caught, and destroys the threads that have been started.
  unfoldable pub exit_of : Bool → Option Failure → Server A → Server A × Exit
  exit_of pool_dies none s = sleep_and_stop pool_dies s
  exit_of pool_dies (some (throws ec)) s = (s, returned ec.value)
  exit_of pool_dies (some f) s = (s, terminated)

  unfoldable pub server_main : World → List A → ℕ → Server A × Exit
  server_main w acceptor_start port =
      let s : Server A =
        server_start w acceptor_start port (thread_pool_size w.hardware_concurrency) new_server in
      exit_of w.pool_dies s.failure s

pub thread_pool_size_bounds : (h : ℕ) → (0 < thread_pool_size h) × (thread_pool_size h < 2 ^ 32)
unfolding thread_pool_size
thread_pool_size_bounds h = ground arith
