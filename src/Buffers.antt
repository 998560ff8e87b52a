-- ===== src/Buffers.antt =====
-- Chapter-02, Section-01 and Section-02, and Chapter-06, Section-01: the buffers that the programs
-- set up, as the bytes or the sizes that they stand for.
use boost_asio_study.Base.{ℕ, List, [], ◌∷◌, Bytes, codes}
use boost_asio_study.Stream.{Stream, open_stream, getline}

-- 02-01-01-fixed_size_output_buffer.cpp
output_buf : Bytes
output_buf = codes "Hello"

-- 02-01-02-fixed_size_input_buffer.cpp
buf_size_bytes : ℕ
buf_size_bytes = 20

-- 02-02-01-asio_streambuf.cpp: `message1`, and the stream after it.
asio_streambuf : Bytes × Stream
asio_streambuf = getline b'\n' [] (open_stream (codes "Message1\nMessage2"))

-- 06-01-01-combination_const_buffer.cpp
composite_const_buffer : List Bytes
composite_const_buffer = codes "Hello " ∷ codes "my " ∷ codes "friend!" ∷ []

-- 06-01-02-combination_mutable_buffer.cpp
composite_mutable_buffer : List ℕ
composite_mutable_buffer = 6 ∷ 3 ∷ 7 ∷ []
