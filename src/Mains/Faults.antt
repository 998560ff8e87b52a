-- ===== src/Mains/Faults.antt =====
-- The `main`s whose errors are not all returned.
use boost_asio_study.Asio.{shutdown_send, ErrorCode, Errors, failed, code_eq}
use boost_asio_study.Base.{false, true, List, ◌∷◌, [], ◌≡◌, inl, inr, if◌then◌else◌, Bool-cases}
use boost_asio_study.Calls.{
  bind, accept, read_all, write, shutdown, exited, terminated, passes, end_by, perform,
}
use boost_asio_study.Mains
use boost_asio_study.Mains.Exits.{program, socket_bind, udp_socket_bind, cancel_async}

-- With the sockets that the two programs for `bind` open outside of a handler, and with `cancel`
-- of the program that has a thread, an error terminates the process: if that call fails after
-- all before it succeeded, no value is returned.
mains_terminated :
    (e : Errors) (ec : ErrorCode) (results : List ErrorCode)
    → failed ec ≡ true
    → ((perform e (program socket_bind) (ec ∷ results)).end ≡ terminated)
      × ((perform e (program udp_socket_bind) (ec ∷ results)).end ≡ terminated)
      × ((a b c d : ErrorCode)
          → failed a ≡ false
          → failed b ≡ false
          → failed c ≡ false
          → failed d ≡ false
          → (perform e (program cancel_async) (a ∷ (b ∷ (c ∷ (d ∷ (ec ∷ results)))))).end
            ≡ terminated)
unfolding perform passes end_by
mains_terminated e ec results bad =
    (rw bad, rw bad, λ a b c d ok_a ok_b ok_c ok_d. rw (ok_a, ok_b, ok_c, ok_d, bad))

-- The server of the shutdown pair, once it has a connection: if the read ends in anything but `eof`,
-- also in no error, it neither writes nor shuts down, and `main` returns the value of that result;
-- after `eof` it writes its response and shuts its side down, and returns 0.
response_after_eof :
    (e : Errors) (bound accepted ec wrote shut : ErrorCode)
    → failed bound ≡ false
    → failed accepted ≡ false
    → failed wrote ≡ false
    → failed shut ≡ false
    → perform e Mains.shutdown_server (bound ∷ (accepted ∷ (ec ∷ (wrote ∷ (shut ∷ []))))) ≡ (
        if code_eq ec e.eof
        then record {
          made =
              bind 3333
              ∷ accept
              ∷ read_all
              ∷ write (0x48 ∷ 0x69 ∷ 0x21 ∷ [])
              ∷ shutdown shutdown_send
              ∷ [];
          end = exited 0;
        }
        else record { made = bind 3333 ∷ accept ∷ read_all ∷ []; end = exited ec.value })
unfolding perform passes end_by
response_after_eof e bound accepted ec wrote shut ok_bound ok_accepted ok_wrote ok_shut =
    elim (Bool-cases (code_eq ec e.eof)) [
      | inl ended ↦ rw (ok_bound, ok_accepted, ok_wrote, ok_shut, ended)
      | inr other ↦ rw (ok_bound, ok_accepted, ok_wrote, ok_shut, other)
    ]
