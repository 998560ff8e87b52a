-- ===== src/HttpServer/Headers.antt =====
-- The loop of `on_headers_received` over the header fields.
use boost_asio_study.Base.{
  ℕ, zero, suc, ◌+◌, ◌≤◌, true, List, [], ◌∷◌, ◌++◌, some, ◌≡◌, refl, ap, ◌∙◌, inl, inr, arith,
  Bytes, All, Lacks, length,
}
use boost_asio_study.Dict.{insert}
use boost_asio_study.HttpText.{Field, IsField, render, assign_all}
use boost_asio_study.HttpServer.{HeaderLoop, read_value, read_header, header_loop}
use boost_asio_study.Stream.{getline, open_stream}
use boost_asio_study.Stream.Laws.{
  Shrinks, Shrinks-mono, getline_found, getline_last, get_next, getline-Shrinks, get-Shrinks,
}

read_value-Shrinks :
    (l : HeaderLoop) (n : ℕ) → Shrinks n l.request_stream → Shrinks n (read_value l).request_stream
unfolding read_value
read_value-Shrinks l n (inl e) = inl (ground arith)
read_value-Shrinks l n (inr (rest, e, h)) =
    rw e
      (Shrinks-mono _ (omega arith) (get-Shrinks _ _ (getline-Shrinks b'\r' l.header_value rest)))

read_header-Shrinks :
    (l : HeaderLoop) (bytes : Bytes)
    → l.request_stream ≡ open_stream bytes
    → Shrinks (length bytes) (read_header l).request_stream
unfolding read_header
read_header-Shrinks l bytes e =
    let r = getline b':' l.header_name l.request_stream in
    read_value-Shrinks (record l { request_stream = r.1; header_name = r.0 }) (length bytes)
      (rw e (getline-Shrinks b':' l.header_name bytes))

pub header_loop_done :
    (fuel : ℕ) (l : HeaderLoop) → l.request_stream.eof ≡ true → header_loop (suc fuel) l ≡ some l
unfolding header_loop
header_loop_done fuel l e = ground arith

pub header_loop_more :
    (fuel : ℕ) (l : HeaderLoop) (bytes : Bytes)
    → l.request_stream ≡ open_stream bytes
    → header_loop (suc fuel) l ≡ header_loop fuel (read_header l)
unfolding header_loop
header_loop_more fuel l bytes e = ground arith

-- The loop ends on every input: each round ends the stream or takes a byte from it.
pub header_loop_total :
    (fuel : ℕ) (l : HeaderLoop) (bytes : Bytes)
    → l.request_stream ≡ open_stream bytes
    → length bytes + 2 ≤ fuel
    → (l' : HeaderLoop) × (header_loop fuel l ≡ some l') × (l'.request_stream.eof ≡ true)
header_loop_total zero l bytes e h = absurd (omega arith)
header_loop_total (suc zero) l bytes e h = absurd (omega arith)
header_loop_total (suc (suc fuel)) l bytes e h = elim (read_header-Shrinks l bytes e) [
  | inl eof ↦
      (read_header l, header_loop_more (suc fuel) l bytes e ∙ header_loop_done fuel _ eof, eof)
  | inr (rest, e', lt) ↦
      let (l', loop, eof) = header_loop_total (suc fuel) (read_header l) rest e' (omega arith) in
      (l', header_loop_more (suc fuel) l bytes e ∙ loop, eof)
]

read_header_field :
    (f : Field) (rest : Bytes) (l : HeaderLoop)
    → IsField f
    → l.request_stream ≡ open_stream (f.0 ++ b':' ∷ (f.1 ++ b'\r' ∷ b'\n' ∷ rest))
    → read_header l ≡ record {
      request_stream = open_stream rest;
      header_name = f.0;
      header_value = f.1;
      headers = insert f.0 f.1 l.headers;
    }
unfolding read_header
read_header_field f rest l h e =
    rw (e, getline_found b':' l.header_name f.0 _ h.0)
      (unfold read_value in rw (getline_found b'\r' l.header_value f.1 _ h.1) (rw get_next))

pub read_header_last :
    (rest : Bytes) (l : HeaderLoop)
    → Lacks b':' rest
    → l.request_stream ≡ open_stream rest
    → ((read_header l).request_stream.eof ≡ true) × ((read_header l).headers ≡ l.headers)
unfolding read_header read_value
read_header_last rest l h e = ground (arith, getline_last b':' l.header_name rest h)

pub header_loop_fields :
    (fs : List Field) (rest : Bytes) (fuel : ℕ) (l : HeaderLoop)
    → All IsField fs
    → Lacks b':' rest
    → l.request_stream ≡ open_stream (render fs rest)
    → length fs + 2 ≤ fuel
    → (l' : HeaderLoop) × (header_loop fuel l ≡ some l') × (l'.headers ≡ assign_all fs l.headers)
unfolding render assign_all
header_loop_fields fs rest zero l h t e le = absurd (omega arith)
header_loop_fields fs rest (suc zero) l h t e le = absurd (omega arith)
header_loop_fields [] rest (suc (suc fuel)) l h t e le =
    let (eof, same) = read_header_last rest l t e in
    (read_header l, header_loop_more (suc fuel) l rest e ∙ header_loop_done fuel _ eof, same)
header_loop_fields (f ∷ fs) rest (suc (suc fuel)) l h t e le =
    let step = read_header_field f (render fs rest) l h.0 e in
    let (l', loop, same) =
      header_loop_fields fs rest (suc fuel) (read_header l) h.1 t (rw step refl) (omega arith) in
    (
      l',
      header_loop_more (suc fuel) l _ e ∙ loop,
      same ∙ ap (λ (x : HeaderLoop). assign_all fs x.headers) step,
    )
