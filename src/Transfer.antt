-- ===== src/Transfer.antt =====
-- Chapter-02, Section-03, 02-03-01-sync_write.cpp, Section-04, 02-04-01-sync_read.cpp, Section-05,
-- 02-05-01-asnyc_write.cpp and Section-06, 02-06-01-asnyc_read.cpp: a message that is written, or read,
-- by as many partial operations as it takes.
pub mod Writes
pub mod Reads
mod Tests
use boost_asio_study.Asio.{ErrorCode, failed}
use boost_asio_study.Base.{
  ℕ, ◌+◌, ◌-◌, List, [], ◌∷◌, ◌++◌, Bytes, length, take, drop, ◌==◌, if◌then◌else◌, codes,
}
use boost_asio_study.Stream.{getline, open_stream}

-- `Session` of the writer, less the socket.
pub record WriteSession : Type 0 where
  pub buf : Bytes
  pub total_bytes_written : ℕ

-- `Session` of the reader, less the socket and the memory of the buffer.
pub record ReadSession : Type 0 where
  pub total_bytes_read : ℕ
  pub buf_size : ℕ

-- The end of a call: a write of these bytes is pending, or a read into the buffer at an offset of at
-- most so many bytes; or nothing is pending, after the line printed for an error, or without one.
pub data Next : Type 0 where
  write_some : Bytes → Next
  read_some : (offset size : ℕ) → Next
  log : ErrorCode → Next
  finished : Next

unfoldable pub write_to_socket : Bytes → WriteSession × Next
write_to_socket buf = (record { buf = buf; total_bytes_written = 0 }, write_some buf)

unfoldable pub write_callback : ErrorCode → ℕ → WriteSession → WriteSession × Next
write_callback ec bytes_transferred s =
    let total = s.total_bytes_written + bytes_transferred in
    let s' = record s { total_bytes_written = total } in
    if failed ec
    then (s, log ec)
    else if total == length s.buf
    then (s', finished)
    else (s', write_some (drop total s.buf))

abbrev pub message_size : ℕ
message_size = 7

unfoldable pub read_from_socket : ReadSession × Next
read_from_socket =
    (record { total_bytes_read = 0; buf_size = message_size }, read_some 0 message_size)

unfoldable pub read_callback : ErrorCode → ℕ → ReadSession → ReadSession × Next
read_callback ec bytes_transferred s =
    let total = s.total_bytes_read + bytes_transferred in
    let s' = record s { total_bytes_read = total } in
    if failed ec
    then (s, log ec)
    else if total == s.buf_size
    then (s', finished)
    else (s', read_some total (s.buf_size - total))

-- What a loop of synchronous calls has come to: it returned, an exception left it, or it waits for
-- a call that has not returned.
pub data End : Type 0 where
  returned waits : End
  thrown : ErrorCode → End

-- How an asynchronous end reads as one of the loop; a pending operation waits.
abbrev pub end_of : Next → End
end_of finished = returned
end_of (log ec) = thrown ec
end_of _ = waits

-- The results of the calls of `write_some`, in order: the code that is thrown, or no error and
-- the number of bytes written.
abbrev pub Results : Type 0
Results = List (ErrorCode × ℕ)

-- `writeToSocket`, from a number of bytes written on: its end, and the bytes that went out.
unfoldable pub write_loop : Results → Bytes → ℕ → End × Bytes
write_loop [] buf total = if total == length buf then (returned, []) else (waits, [])
write_loop ((ec, n) ∷ results) buf total =
    let rest = write_loop results buf (total + n) in
    if total == length buf
    then (returned, [])
    else if failed ec
    then (thrown ec, [])
    else (rest.0, take n (drop total buf) ++ rest.1)

-- `readFromSocket` with the results of `read_some`, the code that is thrown, or no error and the
-- bytes that arrived; the bytes that the buffer has so far.
unfoldable pub read_loop : List (ErrorCode × Bytes) → Bytes → End × Bytes
read_loop [] buf = if length buf == message_size then (returned, buf) else (waits, buf)
read_loop ((ec, bytes) ∷ results) buf =
    let rest = read_loop results (buf ++ bytes) in
    if length buf == message_size
    then (returned, buf)
    else if failed ec
    then (thrown ec, buf)
    else rest

-- `readFromSocketDelim`, on what `read_until` left in the buffer
unfoldable read_from_socket_delim : Bytes → Bytes
read_from_socket_delim buf = (getline b'\n' [] (open_stream buf)).0
