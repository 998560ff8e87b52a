-- ===== src/Calls.antt =====
-- Programs that are a sequence of calls of Boost.Asio: the calls with what the program does with an
-- error of each, and how far the program comes with the results of the calls.
use boost_asio_study.Asio.{ErrorCode, Errors, failed, code_eq, Side}
use boost_asio_study.Base.{ℕ, Bool, true, List, [], ◌∷◌, Bytes, map, if◌then◌else◌, not}

pub data Protocol : Type 0 where
  tcp_v4 tcp_v6 udp_v4 udp_v6 : Protocol

pub data Call : Type 0 where
  from_string : Bytes → Call
  resolve : (host service : Bytes) → Call
  open_socket open_acceptor : Protocol → Call
  bind listen : ℕ → Call
  connect connect_any accept listen_default handshake close ssl_context ssl_shutdown : Call
  set_verify_mode set_verify_callback set_options set_password_callback : Call
  write : Bytes → Call
  read_exactly : ℕ → Call
  read_until use_file : Bytes → Call
  read_all : Call
  send_to : Bytes → Call
  receive_from : ℕ → Call
  shutdown : Side → Call
  connect_stream : (host service : Bytes) → Call
  get_option : Call
  set_option : ℕ → Call
  async_connect start_thread cancel join run : Call
  async_write async_write_some : Bytes → Call
  async_read async_read_some : ℕ → Call

-- What becomes of an error: `main` returns its value, after a test of the `error_code` or in its
-- handler; it leaves `main`, or destroys a thread that is not joined; it is ignored. With `until_eof`
-- any result but `eof` is thrown, and `main` returns its value.
pub data Check : Type 0 where
  returned escapes ignored until_eof : Check

pub data End : Type 0 where
  exited : ℕ → End
  terminated : End  -- `std::terminate`
  waits : End  -- a call has not returned

-- The calls made, in order, and the end.
pub record Performed : Type 0 where
  pub made : List Call
  pub end : End

abbrev pub Program : Type 0
Program = List (Call × Check)

-- Whether the program goes on after the result.
unfoldable pub passes : Errors → Check → ErrorCode → Bool
passes e returned ec = not (failed ec)
passes e escapes ec = not (failed ec)
passes e ignored ec = true
passes e until_eof ec = code_eq ec e.eof

unfoldable pub end_by : Check → ErrorCode → End
end_by escapes ec = terminated
end_by _ ec = exited ec.value

-- The results of the calls, in order; a call with no result has not returned.
unfoldable pub perform : Errors → Program → List ErrorCode → Performed
perform e [] results = record { made = []; end = exited 0 }
perform e ((call, check) ∷ calls) [] = record { made = call ∷ []; end = waits }
perform e ((call, check) ∷ calls) (ec ∷ results) =
    let rest = perform e calls results in
    if passes e check ec
    then record { made = call ∷ rest.made; end = rest.end }
    else record { made = call ∷ []; end = end_by check ec }

-- Calls in a `try` block of `main`.
abbrev pub caught : List Call → Program
caught = map (λ c. (c, returned))
