-- ===== src/Mains/Exits.antt =====
-- How the `main`s end, and what they have called by then.
use boost_asio_study.Asio.{ErrorCode, Errors}
use boost_asio_study.Base.{
  ℕ, suc, Bool, true, false, ◌&&◌, List, [], ◌∷◌, some, map, ◌≡◌, ◌≢◌, inl, inr, refl, ap, arith,
  length, take, Bool-cases, get_elem?,
}
use boost_asio_study.Calls.{
  Call, Check, returned, escapes, ignored, until_eof, exited, terminated, Performed, Program,
  passes, end_by, perform,
}
use boost_asio_study.Mains
use boost_asio_study.SyncClients.Tcp
use boost_asio_study.SyncClients.Udp
use boost_asio_study.SyncClients.Ssl

-- The programs of `Mains` and `SyncClients`.
pub data Main : Type 0 where
  endpoint_client : Main
  endpoint_server : Main
  active_socket : Main
  udp_active_socket : Main
  passive_acceptor_socket : Main
  dns_query : Main
  socket_bind : Main
  udp_socket_bind : Main
  connect_socket : Main
  advance_connect_socket : Main
  tcp_listen : Main
  sync_write : Main
  sync_read : Main
  async_write_main : Main
  async_write_enhanced : Main
  async_read_main : Main
  async_read_enhanced : Main
  cancel_async : Main
  shutdown_client : Main
  shutdown_server : Main
  sync_tcp_client : Main
  sync_udp_client : Main
  ssl_client : Main
  socket_option : ℕ → Main
  stream_io stream_io_timer : Main

abbrev pub program : Main → Program
program endpoint_client = Mains.endpoint_client
program endpoint_server = Mains.endpoint_server
program active_socket = Mains.active_socket
program udp_active_socket = Mains.udp_active_socket
program passive_acceptor_socket = Mains.passive_acceptor_socket
program dns_query = Mains.dns_query
program socket_bind = Mains.socket_bind
program udp_socket_bind = Mains.udp_socket_bind
program connect_socket = Mains.connect_socket
program advance_connect_socket = Mains.advance_connect_socket
program tcp_listen = Mains.tcp_listen
program sync_write = Mains.sync_write
program sync_read = Mains.sync_read
program async_write_main = Mains.async_write_main
program async_write_enhanced = Mains.async_write_enhanced
program async_read_main = Mains.async_read_main
program async_read_enhanced = Mains.async_read_enhanced
program cancel_async = Mains.cancel_async
program shutdown_client = Mains.shutdown_client
program shutdown_server = Mains.shutdown_server
program sync_tcp_client = Tcp.main
program sync_udp_client = Udp.main
program ssl_client = Ssl.main
program (socket_option cur_buf_size) = Mains.socket_option cur_buf_size
program stream_io = Mains.stream_io
program stream_io_timer = Mains.stream_io_timer.1

abbrev pub calls : Program → List Call
calls = map (λ c. c.0)

-- Every error of a call is returned or ignored.
abbrev is_plain : Check → Bool
is_plain returned = true
is_plain ignored = true
is_plain _ = false

abbrev plain : Program → Bool
plain [] = true
plain ((call, check) ∷ rest) = is_plain check && plain rest

-- How a program ends: a value other than 0 is that of the error of the last call made, and with 0
-- all calls were made; what it has called is the first part of its calls.
pub record EndsPlainly (program : Program) (results : List ErrorCode) (p : Performed) : Type 0 where
  pub some_calls : p.made ≡ take (length p.made) (calls program)
  pub all_calls : p.end ≡ exited 0 → p.made ≡ calls program
  pub by_error :
      (n : ℕ)
      → n ≢ 0
      → p.end ≡ exited n
      → (i : ℕ) × (ec : ErrorCode) × (length p.made ≡ suc i)
        × (get_elem? results i ≡ some ec)
        × (ec.value ≡ n)
  pub not_terminated : p.end ≢ terminated

passed-EndsPlainly :
    (call : Call) (check : Check) (q : Program) (ec : ErrorCode) (results : List ErrorCode)
    (p : Performed)
    → EndsPlainly q results p
    → EndsPlainly ((call, check) ∷ q) (ec ∷ results) (record { made = call ∷ p.made; end = p.end })
passed-EndsPlainly call check q ec results p v = record {
  some_calls = ap (◌∷◌ call) v.some_calls;
  all_calls = λ z. ap (◌∷◌ call) (v.all_calls z);
  by_error = λ n ne z.
      let (i, code, last, found, value) = v.by_error n ne z in
      (suc i, code, ap suc last, found, value);
  not_terminated = v.not_terminated;
}

failed-EndsPlainly :
    (e : Errors) (call : Call) (check : Check) (q : Program) (ec : ErrorCode)
    (results : List ErrorCode)
    → is_plain check ≡ true
    → passes e check ec ≡ false
    → EndsPlainly
        ((call, check) ∷ q)
        (ec ∷ results)
        (record { made = call ∷ []; end = end_by check ec })
unfolding passes end_by
failed-EndsPlainly e call returned q ec results plain bad = record {
  some_calls = refl;
  all_calls = λ z. ground arith;
  by_error = λ n ne z. (0, ec, refl, refl, ground arith);
  not_terminated = λ z. cc;
}
failed-EndsPlainly e call ignored q ec results plain bad = cc
failed-EndsPlainly e call escapes q ec results plain bad = cc
failed-EndsPlainly e call until_eof q ec results plain bad = cc

perform-EndsPlainly :
    (e : Errors) (q : Program) (results : List ErrorCode)
    → plain q ≡ true
    → EndsPlainly q results (perform e q results)
unfolding perform
perform-EndsPlainly e [] results h = record {
  some_calls = refl;
  all_calls = λ q. refl;
  by_error = λ n ne q. absurd (ne (cc));
  not_terminated = λ q. cc;
}
perform-EndsPlainly e ((call, check) ∷ q) [] h = record {
  some_calls = refl;
  all_calls = λ z. cc;
  by_error = λ n ne z. cc;
  not_terminated = λ z. cc;
}
perform-EndsPlainly e ((call, check) ∷ q) (ec ∷ results) h = elim (Bool-cases (passes e check ec)) [
  | inl good ↦ rw good (
      passed-EndsPlainly call check q ec results (perform e q results)
        (perform-EndsPlainly e q results (ground arith)))
  | inr bad ↦ rw bad (failed-EndsPlainly e call check q ec results (ground arith) bad)
]

-- The programs with a call whose error is not returned: it leaves `main`, or destroys a thread that
-- is not joined, or `eof` is what is wanted.
abbrev is_exception : Main → Bool
is_exception socket_bind = true
is_exception udp_socket_bind = true
is_exception cancel_async = true
is_exception shutdown_client = true
is_exception shutdown_server = true
is_exception _ = false

plain_main : (m : Main) → is_exception m ≡ false → plain (program m) ≡ true
plain_main endpoint_client h = refl
plain_main _ h = ground arith

-- Each of the programs, but for five, with any results of its calls: it makes the first part of its
-- calls, in order; a value other than 0 that it returns is that of an error of the last call that it
-- made, and if it returns 0 it has made all its calls; it is not terminated by an exception.
pub main-EndsPlainly :
    (e : Errors) (m : Main) (results : List ErrorCode)
    → is_exception m ≡ false
    → EndsPlainly (program m) results (perform e (program m) results)
main-EndsPlainly e m results h = perform-EndsPlainly e (program m) results (plain_main m h)
