-- ===== src/Mains/Tests.antt =====
-- The programs with concrete results, and the theorems at concrete inputs.
use boost_asio_study.Asio.Sample.{sample, no_error, connection_reset}
use boost_asio_study.Base.{[], ◌∷◌, refl, ◌≡◌}
use boost_asio_study.Calls.{
  passes, end_by, perform, exited, from_string, open_socket, tcp_v4, connect,
}
use boost_asio_study.Mains
use boost_asio_study.Mains.{local_host}

refused :
    perform sample Mains.connect_socket (no_error ∷ no_error ∷ connection_reset ∷ []) ≡ record {
      made = from_string local_host ∷ open_socket tcp_v4 ∷ connect ∷ [];
      end = exited 10054;
    }
unfolding perform passes end_by
refused = refl
