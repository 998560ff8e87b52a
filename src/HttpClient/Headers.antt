-- ===== src/HttpClient/Headers.antt =====
-- The loop of `on_headers_received` over the header lines.
use boost_asio_study.Base.{
  ℕ, zero, suc, ◌+◌, ◌-◌, true, List, [], ◌∷◌, ◌++◌, some, none, ◌≡◌, ◌≢◌, refl, ap, ◌∙◌, sym,
  arith, Bytes, All, Lacks, length, length-append, find, drop, take-append_left, drop-append_cons,
  find-append_cons, bytes_eq, bytes_eq_iff, if◌then◌else◌, ltb, append_assoc, Lacks-append,
}
use boost_asio_study.Dict.{Dict, insert}
use boost_asio_study.HttpText.{Field, IsField, render, assign_all}
use boost_asio_study.HttpClient.{
  HeaderLoop, read_header, store_header, add_header_at, header_loop, crlf,
}
use boost_asio_study.Stream.{open_stream, getline, get}
use boost_asio_study.Stream.Laws.{getline_found, get_next}

pub header_loop_break :
    (fuel : ℕ) (l : HeaderLoop)
    → (read_header l).header ≡ []
    → header_loop (suc fuel) l ≡ some (read_header l)
unfolding header_loop bytes_eq
header_loop_break fuel l e = rw e

pub header_loop_more :
    (fuel : ℕ) (l : HeaderLoop)
    → (read_header l).header ≢ []
    → header_loop (suc fuel) l ≡ header_loop fuel (store_header (read_header l))
unfolding header_loop
header_loop_more fuel l ne = ground (arith, bytes_eq_iff (read_header l).header [])

-- At the end of the stream with a header line left over, every round is the same.
pub record IsStuck (l : HeaderLoop) : Type 0 where
  pub at_end : l.response_stream.eof ≡ true
  pub left_over : l.header ≢ []

read_header-IsStuck :
    (l : HeaderLoop)
    → IsStuck l
    → IsStuck (store_header (read_header l)) × ((read_header l).header ≡ l.header)
unfolding read_header store_header getline get
read_header-IsStuck l s = ground (arith, s.at_end, s.left_over)

pub header_loop_stuck : (fuel : ℕ) (l : HeaderLoop) → IsStuck l → header_loop fuel l ≡ none
header_loop_stuck zero l s = unfold header_loop in refl
header_loop_stuck (suc fuel) l s =
    let (s', same) = read_header-IsStuck l s in
    header_loop_more fuel l (λ e. s.left_over (sym same ∙ e)) ∙ header_loop_stuck fuel _ s'

pub read_header_line :
    (line rest : Bytes) (c : ℕ) (l : HeaderLoop)
    → Lacks b'\r' line
    → l.response_stream ≡ open_stream (line ++ b'\r' ∷ c ∷ rest)
    → read_header l
      ≡ record { response_stream = open_stream rest; header = line; headers = l.headers }
unfolding read_header
read_header_line line rest c l h e = rw (e, getline_found b'\r' l.header line _ h) (rw get_next)

value_at :
    (name value : Bytes)
    → let header = name ++ b':' ∷ value in
      (if ltb (length name) (length header - 1) then drop (length name + 1) header else []) ≡ value
value_at name [] = ground (arith, length-append name (b':' ∷ []), drop-append_cons name [] b':')
value_at name (c ∷ cs) =
    ground (arith, length-append name (b':' ∷ c ∷ cs), drop-append_cons name (c ∷ cs) b':')

add_header_field :
    (f : Field) (d : Dict)
    → Lacks b':' f.0
    → let header = f.0 ++ b':' ∷ f.1 in add_header_at header (find b':' header) d ≡ insert f.0 f.1 d
unfolding add_header_at
add_header_field f d h =
    rw (find-append_cons b':' f.0 f.1 h, take-append_left f.0 (b':' ∷ f.1), value_at f.0 f.1)

-- The name of a header field ends before a colon, and holds no carriage return either.
abbrev pub IsLine : Field → Type 0
IsLine f = IsField f × Lacks b'\r' f.0

IsLine-Lacks : (f : Field) → IsLine f → Lacks b'\r' (f.0 ++ b':' ∷ f.1)
IsLine-Lacks f h = Lacks-append b'\r' f.0 _ h.1 ((λ e. omega arith), h.0.1)

header-ne-nil : (name value : Bytes) → name ++ b':' ∷ value ≢ []
header-ne-nil [] value e = cc
header-ne-nil (x ∷ xs) value e = cc

-- One round reads one field and stores it.
round_field :
    (fuel : ℕ) (f : Field) (rest : Bytes) (l : HeaderLoop)
    → IsLine f
    → l.response_stream ≡ open_stream (render (f ∷ []) rest)
    → header_loop (suc fuel) l
      ≡ header_loop fuel (record {
        response_stream = open_stream rest;
        header = f.0 ++ b':' ∷ f.1;
        headers = insert f.0 f.1 l.headers;
      })
unfolding render
round_field fuel f rest l h e =
    let line =
      read_header_line (f.0 ++ b':' ∷ f.1) rest b'\n' l (IsLine-Lacks f h)
        (e ∙ ap open_stream (sym (append_assoc f.0 (b':' ∷ f.1) _))) in
    header_loop_more fuel l (rw line (header-ne-nil f.0 f.1))
    ∙ rw line (unfold store_header in rw (add_header_field f l.headers h.0.0))

-- The loop over `fs` and what follows it is the loop over what follows, with the fields stored.
pub rounds_fields :
    (fs : List Field) (rest : Bytes) (fuel : ℕ) (l : HeaderLoop)
    → All IsLine fs
    → l.response_stream ≡ open_stream (render fs rest)
    → (l' : HeaderLoop) × (header_loop (length fs + fuel) l ≡ header_loop fuel l')
      × (l'.response_stream ≡ open_stream rest)
      × (l'.headers ≡ assign_all fs l.headers)
unfolding render assign_all
rounds_fields [] rest fuel l h e = (l, ground arith, e, refl)
rounds_fields (f ∷ fs) rest fuel l h e =
    let (l', loop, at, stored) =
      rounds_fields fs rest fuel
        (record {
          response_stream = open_stream (render fs rest);
          header = f.0 ++ b':' ∷ f.1;
          headers = insert f.0 f.1 l.headers;
        })
        h.1 refl in
    (
      l',
      ground (arith, loop, round_field (length fs + fuel) f (render fs rest) l h.0 e),
      at,
      stored,
    )

-- Fields, the empty line and then any bytes: with fuel for one round each, the loop ends, the fields
-- are stored in order, and the stream stands at the bytes behind the empty line.
pub header_loop_fields :
    (fs : List Field) (body : Bytes) (fuel : ℕ) (l : HeaderLoop)
    → All IsLine fs
    → l.response_stream ≡ open_stream (render fs (crlf ++ body))
    → (l' : HeaderLoop) × (header_loop (length fs + suc fuel) l ≡ some l')
      × (l'.response_stream ≡ open_stream body)
      × (l'.headers ≡ assign_all fs l.headers)
header_loop_fields fs body fuel l h e =
    let (l', loop, at, stored) = rounds_fields fs (crlf ++ body) (suc fuel) l h e in
    let line = read_header_line [] body b'\n' l' tt at in
    (
      read_header l',
      loop ∙ header_loop_break fuel l' (ap (λ (x : HeaderLoop). x.header) line),
      ap (λ (x : HeaderLoop). x.response_stream) line,
      ap (λ (x : HeaderLoop). x.headers) line ∙ stored,
    )
