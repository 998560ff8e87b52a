-- ===== src/AsyncTcpServer/Accepts.antt =====
-- Runs of the acceptor, and `main`.
use boost_asio_study.Asio.{ErrorCode, failed}
use boost_asio_study.AsyncTcpServer.{
  Acceptor, AcceptorAction, async_accept, close, handle_client, start, stop, on_accept,
  new_acceptor,
}
use boost_asio_study.Base.{true, ◌+◌, List, [], ◌∷◌, ◌++◌, ◌≡◌, refl, arith, if◌then◌else◌}
use boost_asio_study.Listener
use boost_asio_study.Listener.{
  Counts, no_counts, add_counts, Listener, Event, accepted, stops, Listening,
}

counted : AcceptorAction → Counts
counted async_accept = record { accepts = 1; closes = 0; serves = 0 }
counted close = record { accepts = 0; closes = 1; serves = 0 }
counted handle_client = record { accepts = 0; closes = 0; serves = 1 }
counted _ = no_counts

unfoldable pub counts : List AcceptorAction → Counts
unfolding counted
counts [] = no_counts
counts (a ∷ rest) = add_counts (counted a) (counts rest)

pub counts-append :
    (xs ys : List AcceptorAction) → counts (xs ++ ys) ≡ add_counts (counts xs) (counts ys)
unfolding counts
counts-append [] ys = ground arith
counts-append (x ∷ xs) ys = ground (arith, counts-append xs ys)

pub counts-start : counts start ≡ record { accepts = 1; closes = 0; serves = 0 }
unfolding counts start
counts-start = refl

pub is_stopped-stop : (a : Acceptor) → (stop a).is_stopped ≡ true
unfolding stop
is_stopped-stop a = refl

pub counts-on_accept :
    (ec : ErrorCode) (a : Acceptor)
    → counts (on_accept ec a) ≡ record {
      accepts = if a.is_stopped then 0 else 1;
      closes = if a.is_stopped then 1 else 0;
      serves = if failed ec then 0 else 1;
    }
unfolding counts on_accept
counts-on_accept ec a = ground arith

abbrev pub listener : Listener Acceptor AcceptorAction
listener = record {
  start = start;
  stop = stop;
  on_accept = on_accept;
  is_stopped = λ a. a.is_stopped;
  counts = counts;
  counts-append = counts-append;
  counts-start = counts-start;
  is_stopped-stop = is_stopped-stop;
  counts-on_accept = counts-on_accept;
}

-- However accepts complete, with or without errors, and whenever `Stop` is called: either one
-- accept is pending, or none is and the socket that listens was closed, once; and every
-- connection has been given to one service.
pub accept_pending :
    (events : List Event)
    → let begun = Listener.started listener new_acceptor in
      let x = Listener.run listener events begun in
      (x.pending + (counts x.actions).closes ≡ 1)
      × ((counts x.actions).serves ≡ Listener.connections listener events begun)
accept_pending events = Listener.listening_lem listener events new_acceptor
