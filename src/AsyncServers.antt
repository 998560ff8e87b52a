-- ===== src/AsyncServers.antt =====
-- An asynchronous server as a whole, in Chapter-04, Section-03, 04-03-01-async_tcp_server.cpp and
-- Chapter-05, Section-02, 05-02-01-http_server.cpp: the acceptor and the services that it has
-- started, which run on the handlers of one `io_service`. The handlers of different services share
-- no state that they write, so a run is a sequence of whole handlers, whichever threads run them.
pub mod Independence
pub mod Halts
pub mod Mains
pub mod Tcp
pub mod Http
mod Tests
use boost_asio_study.Asio.{ErrorCode}
use boost_asio_study.Base.{
  ℕ, Bool, true, false, ◌||◌, List, [], ◌∷◌, ◌++◌, ◌==◌, if◌then◌else◌, replicate, modify,
}
use boost_asio_study.Listener
use boost_asio_study.Listener.{Listener, Listening, accepted, stops}

-- A service as `start_handling` leaves it, what a completion `C` makes of it, and whether it has
-- ended the process with an exception or a fault.
pub record ServiceKind (O C : Type 0) : Type 0 where
  pub begun : O
  pub continue : C → O → O
  pub is_fatal : O → Bool

-- `io_stopped` holds behind `m_ios.stop()`, which lets no handler start.
pub record Serving (S A O : Type 0) : Type 0 where
  pub listening : Listening S A
  pub services : List O
  pub io_stopped : Bool

-- An accept completes or another thread calls `Acceptor::Stop`; the pending operation of the service
-- at a position completes; another thread calls `m_ios.stop()`.
pub data Event (C : Type 0) : Type 0 where
  listens : Listener.Event → Event C
  completes : ℕ → C → Event C
  stops_io : Event C

module _ {S A O C : Type 0} (l : Listener S A) (k : ServiceKind O C) where
  unfoldable pub any_fatal : List O → Bool
  any_fatal [] = false
  any_fatal (o ∷ os) = k.is_fatal o || any_fatal os

  -- No handler runs any more.
  abbrev pub is_over : Serving S A O → Bool
  is_over x = x.io_stopped || any_fatal x.services

  -- The acceptor's `Start`
  abbrev pub start : S → Serving S A O
  start s = record { listening = Listener.started l s; services = []; io_stopped = false }

  unfoldable pub react : Event C → Serving S A O → Serving S A O
  react (listens event) x = record x {
    listening = Listener.step l event x.listening;
    services = x.services ++ replicate (Listener.started_by l event x.listening) k.begun;
  }
  react (completes i c) x = record x { services = modify i (k.continue c) x.services }
  react stops_io x = record x { io_stopped = true }

  unfoldable pub step : Event C → Serving S A O → Serving S A O
  step event x = if is_over x then x else react event x

  unfoldable pub run : List (Event C) → Serving S A O → Serving S A O
  run [] x = x
  run (event ∷ events) x = run events (step event x)
