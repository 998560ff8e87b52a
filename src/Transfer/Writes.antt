-- ===== src/Transfer/Writes.antt =====
-- What `writeToSocket` sends, with synchronous and with asynchronous calls.
use boost_asio_study.Asio.{ErrorCode, failed}
use boost_asio_study.Base.{
  subst, ℕ, ◌+◌, ◌-◌, ◌≤◌, ◌<◌, ◌≢◌, ◌≡◌, refl, true, false, [], ◌∷◌, ◌++◌, Bytes, length, take,
  drop, ◌==◌, if◌then◌else◌, arith, Bool-cases, inl, inr, ap, ◌∙◌, sym, take-add, drop-add,
  take-drop, drop-length,
}
use boost_asio_study.Transfer.{
  end_of, WriteSession, Next, write_some, log, finished, write_to_socket, write_callback, End,
  returned, waits, Results, write_loop,
}

-- As documented of `write_some` on bytes that are left: with no error it takes at least one of them,
-- and at most all.
abbrev Delivers : ℕ → Results → Type 0
Delivers left [] = Unit
Delivers left ((ec, n) ∷ results) =
    (failed ec ≡ false → left ≢ 0 → (0 < n) × (n ≤ left)) × Delivers (left - n) results

-- What goes out from `total` on: a prefix of the bytes that are left; all of them if the loop returns,
-- and it waits only after fewer calls than there were bytes left.
record IsWritten (results : Results) (buf : Bytes) (total : ℕ) (r : End × Bytes) : Type 0 where
  prefix : (m : ℕ) × (r.1 ≡ take m (drop total buf))
  complete : r.0 ≡ returned → r.1 ≡ drop total buf
  short : r.0 ≡ waits → length results < length buf - total

returned-IsWritten :
    (results : Results) (buf : Bytes) (total : ℕ)
    → (total == length buf) ≡ true
    → IsWritten results buf total (returned, [])
returned-IsWritten results buf total full =
    let e : total ≡ length buf = ground arith in
    record { prefix = (0, refl); complete = λ q. rw e (sym (drop-length buf)); short = λ q. cc }

chunk-IsWritten :
    (ec : ErrorCode) (n : ℕ) (results : Results) (buf : Bytes) (total : ℕ) (rest : End × Bytes)
    → 0 < n
    → n ≤ length buf - total
    → IsWritten results buf (total + n) rest
    → IsWritten ((ec, n) ∷ results) buf total (rest.0, take n (drop total buf) ++ rest.1)
chunk-IsWritten ec n results buf total rest some_bytes fits v =
    let (m, e) = v.prefix in
    record {
      prefix = (
        n + m,
        rw e (
            ap (λ (t : Bytes). take n (drop total buf) ++ take m t) (drop-add total n buf)
            ∙ sym (take-add n m (drop total buf))),
      );
      complete = λ q. rw (v.complete q) (
          ap (λ (t : Bytes). take n (drop total buf) ++ t) (drop-add total n buf)
          ∙ take-drop n (drop total buf));
      short = λ q. let less = v.short q in omega arith;
    }

write_loop-IsWritten :
    (results : Results) (buf : Bytes) (total : ℕ)
    → total ≤ length buf
    → Delivers (length buf - total) results
    → IsWritten results buf total (write_loop results buf total)
unfolding write_loop
write_loop-IsWritten [] buf total le d = elim (Bool-cases (total == length buf)) [
  | inl full ↦ rw full (returned-IsWritten [] buf total full)
  | inr more ↦
      rw more (record { prefix = (0, refl); complete = λ q. cc; short = λ q. ground arith })
]
write_loop-IsWritten ((ec, n) ∷ results) buf total le d = elim (Bool-cases (total == length buf)) [
  | inl full ↦ rw full (returned-IsWritten ((ec, n) ∷ results) buf total full)
  | inr more ↦ elim (Bool-cases (failed ec)) [
    | inl bad ↦ rw (more, bad) (record { prefix = (0, refl); complete = λ q. cc; short = λ q. cc })
    | inr fine ↦
        let left : length buf - total ≢ 0 = ground arith in
        let delivered = d.0 fine left in
        let e : length buf - total - n ≡ length buf - (total + n) = omega arith in
        rw (more, fine)
          (chunk-IsWritten ec n results buf total (write_loop results buf (total + n)) delivered.0
            delivered.1
            (write_loop-IsWritten results buf (total + n) (omega (arith, delivered.1))
              (subst (λ (t : ℕ). Delivers t results) e d.1)))
  ]
]

-- If each call of `write_some` that succeeds takes at least one and at most all of the bytes that it
-- is given: `writeToSocket` never sends anything but the first bytes of the buffer, in order; when
-- it returns it has sent exactly the buffer, however the bytes were split; and it waits for another
-- call only after fewer calls than the buffer has bytes, so with no error it returns.
pub write_loop_lem :
    (results : Results) (buf : Bytes)
    → Delivers (length buf) results
    → let r = write_loop results buf 0 in
      ((m : ℕ) × (r.1 ≡ take m buf))
      × (r.0 ≡ returned → r.1 ≡ buf)
      × (r.0 ≡ waits → length results < length buf)
write_loop_lem results buf d =
    let v =
      write_loop-IsWritten results buf 0 (omega arith)
        (subst (λ (t : ℕ). Delivers t results) (omega arith) d) in
    (v.prefix, v.complete, λ q. omega (arith, v.short q))

-- The completions of `async_write_some`, in order, each calling `callback`: what the last call of it
-- left, and the bytes that went out. After the end nothing completes.
unfoldable pub run_next : Results → WriteSession → Next → Next × Bytes
run_next [] s next = (next, [])
run_next ((ec, n) ∷ results) s (write_some bytes) =
    let called = write_callback ec n s in
    let rest = run_next results called.0 called.1 in
    (rest.0, (if failed ec then [] else take n bytes) ++ rest.1)
run_next (result ∷ results) s next = (next, [])

run_finished : (results : Results) (s : WriteSession) → run_next results s finished ≡ (finished, [])
unfolding run_next
run_finished [] s = refl
run_finished (result ∷ results) s = refl

run_log :
    (results : Results) (s : WriteSession) (ec : ErrorCode)
    → run_next results s (log ec) ≡ (log ec, [])
unfolding run_next
run_log [] s ec = refl
run_log (result ∷ results) s ec = refl

write_loop_full :
    (results : Results) (buf : Bytes) (total : ℕ)
    → (total == length buf) ≡ true
    → write_loop results buf total ≡ (returned, [])
unfolding write_loop
write_loop_full [] buf total full = rw full
write_loop_full ((ec, n) ∷ results) buf total full = rw full

-- Of a run, its end as one of the loop, and the bytes.
abbrev pub as_loop : Next × Bytes → End × Bytes
as_loop r = (end_of r.0, r.1)

run_next_lem :
    (results : Results) (buf : Bytes) (total : ℕ)
    → (total == length buf) ≡ false
    → let r =
        run_next results
          (record { buf = buf; total_bytes_written = total })
          (write_some (drop total buf)) in
      as_loop r ≡ write_loop results buf total
unfolding run_next write_loop write_callback
run_next_lem [] buf total more = rw more
run_next_lem ((ec, n) ∷ results) buf total more = elim (Bool-cases (failed ec)) [
  | inl bad ↦ rw (more, bad) (rw (run_log results _ ec))
  | inr fine ↦ elim (Bool-cases (total + n == length buf)) [
    | inl full ↦
        rw (more, fine, full)
          (rw (run_finished results _) (rw (write_loop_full results buf (total + n) full)))
    | inr still ↦
        rw (more, fine, still)
          (ap (λ (r : End × Bytes). (r.0, take n (drop total buf) ++ r.1))
            (run_next_lem results buf (total + n) still))
  ]
]

-- For a buffer that is not empty the asynchronous `writeToSocket` with its `callback` sends the same
-- bytes as the loop of synchronous calls with the same results, whatever these are, and ends as it
-- does: after the last byte, with the first error, or waiting.
pub async_write_same :
    (results : Results) (b : ℕ) (bytes : Bytes)
    → let begun = write_to_socket (b ∷ bytes) in
      as_loop (run_next results begun.0 begun.1) ≡ write_loop results (b ∷ bytes) 0
unfolding write_to_socket
async_write_same results b bytes = run_next_lem results (b ∷ bytes) 0 (ground arith)
