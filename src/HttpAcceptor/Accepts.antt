-- ===== src/HttpAcceptor/Accepts.antt =====
-- Runs of the acceptor.
use boost_asio_study.Asio.{ErrorCode, failed}
use boost_asio_study.HttpAcceptor.{
  Acceptor, Action, async_accept, close, start_service, start, stop, on_accept, new_acceptor,
}
use boost_asio_study.Base.{true, List, [], ◌∷◌, ◌++◌, ◌≡◌, refl, arith, if◌then◌else◌}
use boost_asio_study.Listener
use boost_asio_study.Listener.{
  Counts, no_counts, add_counts, Listener, Event, accepted, stops, Listening,
}

counted : Action → Counts
counted async_accept = record { accepts = 1; closes = 0; serves = 0 }
counted close = record { accepts = 0; closes = 1; serves = 0 }
counted start_service = record { accepts = 0; closes = 0; serves = 1 }
counted _ = no_counts

unfoldable pub counts : List Action → Counts
unfolding counted
counts [] = no_counts
counts (a ∷ rest) = add_counts (counted a) (counts rest)

pub counts-append : (xs ys : List Action) → counts (xs ++ ys) ≡ add_counts (counts xs) (counts ys)
unfolding counts
counts-append [] ys = ground arith
counts-append (x ∷ xs) ys = ground (arith, counts-append xs ys)

pub counts-start : counts start ≡ record { accepts = 1; closes = 0; serves = 0 }
unfolding counts start
counts-start = refl

pub is_stopped-stop : (a : Acceptor) → (stop a).is_stopped ≡ true
unfolding stop
is_stopped-stop a = refl

pub counts-on_accept :
    (ec : ErrorCode) (a : Acceptor)
    → counts (on_accept ec a) ≡ record {
      accepts = if a.is_stopped then 0 else 1;
      closes = if a.is_stopped then 1 else 0;
      serves = if failed ec then 0 else 1;
    }
unfolding counts on_accept
counts-on_accept ec a = ground arith

abbrev pub listener : Listener Acceptor Action
listener = record {
  start = start;
  stop = stop;
  on_accept = on_accept;
  is_stopped = λ a. a.is_stopped;
  counts = counts;
  counts-append = counts-append;
  counts-start = counts-start;
  is_stopped-stop = is_stopped-stop;
  counts-on_accept = counts-on_accept;
}

-- Whatever has happened before: once `Stop` has been called, the next accept that completes, with or
-- without an error, is the last one. None is pending after it, and the socket that listens has been
-- closed exactly once.
pub stop_closes_acceptor :
    (events : List Event) (ec : ErrorCode)
    → let stopped =
        Listener.step listener stops
          (Listener.run listener events (Listener.started listener new_acceptor)) in
      let x = Listener.step listener (accepted ec) stopped in
      (x.pending ≡ 0) × ((counts x.actions).closes ≡ 1)
stop_closes_acceptor events ec = Listener.stop_closes listener events new_acceptor ec
