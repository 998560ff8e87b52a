-- ===== src/Transfer/Reads.antt =====
-- What `readFromSocket` reads, with synchronous and with asynchronous calls.
use boost_asio_study.Asio.{ErrorCode, failed}
use boost_asio_study.Base.{
  take-length, take, ℕ, ◌+◌, ◌-◌, ◌≤◌, ◌<◌, ◌≢◌, ◌≡◌, refl, true, false, List, [], ◌∷◌, ◌++◌, Bytes,
  length, ◌==◌, if◌then◌else◌, arith, Bool-cases, inl, inr, ◌∙◌, sym, append_assoc, length-append,
  subst,
}
use boost_asio_study.Transfer.{
  end_of, ReadSession, Next, read_some, log, finished, read_from_socket, read_callback, End,
  returned, waits, thrown, read_loop, message_size,
}

abbrev pub Chunks : Type 0
Chunks = List (ErrorCode × Bytes)

-- As documented of `read_some` into room that is left: with no error it puts at least one byte there,
-- and at most as many as there is room for.
abbrev Fits : ℕ → Chunks → Type 0
Fits room [] = Unit
Fits room ((ec, bytes) ∷ results) =
    (failed ec ≡ false → room ≢ 0 → (0 < length bytes) × (length bytes ≤ room))
    × Fits (room - length bytes) results

-- The bytes that arrive before the first error.
abbrev pub arrived : Chunks → Bytes
arrived [] = []
arrived ((ec, bytes) ∷ results) =
    let rest = arrived results in if failed ec then [] else bytes ++ rest

record IsRead (results : Chunks) (buf : Bytes) (r : End × Bytes) : Type 0 where
  within : length r.1 ≤ message_size
  complete : r.0 ≡ returned → length r.1 ≡ message_size
  short : r.0 ≡ waits → length results < message_size - length buf
  prefix : (later : Bytes) × (buf ++ arrived results ≡ r.1 ++ later)

stopped-IsRead :
    (results : Chunks) (buf : Bytes) (end : End)
    → length buf ≤ message_size
    → (end ≡ returned → length buf ≡ message_size)
    → (end ≡ waits → length results < message_size - length buf)
    → IsRead results buf (end, buf)
stopped-IsRead results buf end le full short = record {
  within = le;
  complete = full;
  short = short;
  prefix = (arrived results, refl);
}

read_loop-IsRead :
    (results : Chunks) (buf : Bytes)
    → length buf ≤ message_size
    → Fits (message_size - length buf) results
    → IsRead results buf (read_loop results buf)
unfolding read_loop
read_loop-IsRead [] buf le d = elim (Bool-cases (length buf == message_size)) [
  | inl full ↦ rw full (stopped-IsRead [] buf returned le (λ q. ground arith) (λ q. cc))
  | inr more ↦ rw more (stopped-IsRead [] buf waits le (λ q. cc) (λ q. ground arith))
]
read_loop-IsRead ((ec, bytes) ∷ results) buf le d = elim (Bool-cases (length buf == message_size)) [
  | inl full ↦ rw full (stopped-IsRead _ buf returned le (λ q. ground arith) (λ q. cc))
  | inr more ↦ elim (Bool-cases (failed ec)) [
    | inl bad ↦ rw (more, bad) (stopped-IsRead _ buf (thrown ec) le (λ q. cc) (λ q. cc))
    | inr fine ↦
        let arrives = d.0 fine (ground arith) in
        let size = length-append buf bytes in
        let fits : Fits (message_size - length (buf ++ bytes)) results =
          subst (λ (t : ℕ). Fits t results) (omega (arith, size)) d.1 in
        let v = read_loop-IsRead results (buf ++ bytes) (omega (arith, size, arrives.1)) fits in
        rw (more, fine)
          (record {
            within = v.within;
            complete = v.complete;
            short = λ q. omega (arith, v.short q, size, arrives.0);
            prefix =
                (v.prefix.0, rw fine (sym (append_assoc buf bytes (arrived results)) ∙ v.prefix.1));
          })
  ]
]

-- If each call of `read_some` that succeeds puts at least one byte into the room that is left, and no
-- more than there is room for: `readFromSocket` never has more than the seven bytes of its
-- buffer; what it has is the first part of what arrived, in order, however it was split; it has
-- seven bytes when it returns; and it waits for another call only after fewer than seven calls.
pub read_loop_lem :
    (results : Chunks)
    → Fits message_size results
    → let r = read_loop results [] in
      (length r.1 ≤ message_size)
      × (r.0 ≡ returned → length r.1 ≡ message_size)
      × (r.0 ≡ waits → length results < message_size)
      × ((later : Bytes) × (arrived results ≡ r.1 ++ later))
read_loop_lem results d =
    let v = read_loop-IsRead results [] (omega arith) d in (v.within, v.complete, v.short, v.prefix)

-- The completions of `async_read_some`, each calling `callback`, and what is in the buffer in the end.
-- A read into an offset puts its bytes behind those before the offset.
unfoldable pub run_next : Chunks → ReadSession → Next → Bytes → Next × Bytes
run_next [] s next buf = (next, buf)
run_next ((ec, bytes) ∷ results) s (read_some offset size) buf =
    let called = read_callback ec (length bytes) s in
    run_next results called.0 called.1 (if failed ec then buf else take offset buf ++ bytes)
run_next (result ∷ results) s next buf = (next, buf)

run_finished :
    (results : Chunks) (s : ReadSession) (buf : Bytes)
    → run_next results s finished buf ≡ (finished, buf)
unfolding run_next
run_finished [] s buf = refl
run_finished (result ∷ results) s buf = refl

run_log :
    (results : Chunks) (s : ReadSession) (ec : ErrorCode) (buf : Bytes)
    → run_next results s (log ec) buf ≡ (log ec, buf)
unfolding run_next
run_log [] s ec buf = refl
run_log (result ∷ results) s ec buf = refl

read_loop_full :
    (results : Chunks) (buf : Bytes)
    → (length buf == message_size) ≡ true
    → read_loop results buf ≡ (returned, buf)
unfolding read_loop
read_loop_full [] buf full = rw full
read_loop_full ((ec, bytes) ∷ results) buf full = rw full

abbrev pub as_loop : Next × Bytes → End × Bytes
as_loop r = (end_of r.0, r.1)

abbrev at : ℕ → ReadSession
at total = record { total_bytes_read = total; buf_size = message_size }

step_failed :
    (ec : ErrorCode) (bytes : Bytes) (results : Chunks) (s : ReadSession) (o n : ℕ) (buf : Bytes)
    → failed ec ≡ true
    → run_next ((ec, bytes) ∷ results) s (read_some o n) buf ≡ run_next results s (log ec) buf
unfolding run_next read_callback
step_failed ec bytes results s o n buf bad = ground arith

step_finished :
    (ec : ErrorCode) (bytes : Bytes) (results : Chunks) (s : ReadSession) (o n : ℕ) (buf : Bytes)
    → failed ec ≡ false
    → (s.total_bytes_read + length bytes == s.buf_size) ≡ true
    → run_next ((ec, bytes) ∷ results) s (read_some o n) buf
      ≡ run_next results
          (record s { total_bytes_read = s.total_bytes_read + length bytes })
          finished
          (take o buf ++ bytes)
unfolding run_next read_callback
step_finished ec bytes results s o n buf fine full = ground arith

step_more :
    (ec : ErrorCode) (bytes : Bytes) (results : Chunks) (s : ReadSession) (o n : ℕ) (buf : Bytes)
    → failed ec ≡ false
    → (s.total_bytes_read + length bytes == s.buf_size) ≡ false
    → let total = s.total_bytes_read + length bytes in
      run_next ((ec, bytes) ∷ results) s (read_some o n) buf
      ≡ run_next results
          (record s { total_bytes_read = total })
          (read_some total (s.buf_size - total))
          (take o buf ++ bytes)
unfolding run_next read_callback
step_more ec bytes results s o n buf fine still = ground arith

run_next_lem :
    (results : Chunks) (buf : Bytes) (total : ℕ)
    → total ≡ length buf
    → (total == message_size) ≡ false
    → as_loop (run_next results (at total) (read_some total (message_size - total)) buf)
      ≡ read_loop results buf
unfolding run_next read_loop
run_next_lem [] buf total e more = rw (← e) (rw more)
run_next_lem ((ec, bytes) ∷ results) buf total e more =
    let buf_more : (length buf == message_size) ≡ false = rw (← e) more in
    let taken : take total buf ≡ buf = rw e (take-length buf) in
    let size : total + length bytes ≡ length (buf ++ bytes) =
      omega (arith, e, length-append buf bytes) in
    elim (Bool-cases (failed ec)) [
      | inl bad ↦
          rw (step_failed ec bytes results (at total) total (message_size - total) buf bad)
            (rw (run_log results (at total) ec buf) (rw (bad, buf_more)))
      | inr fine ↦ elim (Bool-cases (total + length bytes == message_size)) [
        | inl full ↦
            let now_full : (length (buf ++ bytes) == message_size) ≡ true = rw (← size) full in
            rw
              (step_finished ec bytes results (at total) total (message_size - total) buf fine full)
              (rw (taken, fine, buf_more)
                (rw (run_finished results (at (total + length bytes)) (buf ++ bytes))
                  (rw (read_loop_full results (buf ++ bytes) now_full))))
        | inr still ↦
            rw (step_more ec bytes results (at total) total (message_size - total) buf fine still) (
              rw (taken, fine, buf_more)
                (run_next_lem results (buf ++ bytes) (total + length bytes) size still))
      ]
    ]

-- The asynchronous `readFromSocket` with its `callback` has the same bytes in its buffer as the loop
-- of synchronous calls with the same results, whatever these are, and ends as it does: after the
-- seventh byte, with the first error, or waiting.
pub async_read_same :
    (results : Chunks)
    → let begun = read_from_socket in
      as_loop (run_next results begun.0 begun.1 []) ≡ read_loop results []
unfolding read_from_socket
async_read_same results = run_next_lem results [] 0 refl refl
