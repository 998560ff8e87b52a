-- ===== src/HttpClient/Endless.antt =====
-- When the loop of `on_headers_received` ends, and when it never does.
use boost_asio_study.Base.{
  false, ℕ, zero, suc, ◌+◌, ◌≤◌, List, [], ◌∷◌, ◌++◌, none, ◌≡◌, ◌≢◌, refl, ap, ◌∙◌, sym, inl, inr,
  arith, Bytes, All, Lacks, length, bytes_eq, bytes_eq_iff, Bool-cases,
}
use boost_asio_study.HttpText.{Field, render}
use boost_asio_study.HttpClient.{
  Dict, HeaderLoop, read_header, store_header, header_loop, header_fuel, start_loop,
}
use boost_asio_study.HttpClient.Headers.{
  IsLine, header_loop_stuck, header_loop_break, header_loop_more, read_header_line, rounds_fields,
}
use boost_asio_study.Stream.{open_stream, ended, get}
use boost_asio_study.Stream.Laws.{Shrinks, getline_rest, get-ended, getline-Shrinks, get-Shrinks}

read_header-Shrinks :
    (l : HeaderLoop) (bytes : Bytes)
    → l.response_stream ≡ open_stream bytes
    → Shrinks (length bytes) (read_header l).response_stream
unfolding read_header
read_header-Shrinks l bytes e = get-Shrinks _ _ (rw e (getline-Shrinks b'\r' l.header bytes))

header_loop_more_none :
    (l : HeaderLoop)
    → (read_header l).header ≢ []
    → ((fuel : ℕ) → header_loop fuel (store_header (read_header l)) ≡ none)
    → (fuel : ℕ) → header_loop fuel l ≡ none
header_loop_more_none l ne never zero = unfold header_loop in refl
header_loop_more_none l ne never (suc fuel) = header_loop_more fuel l ne ∙ never fuel

header_loop_decided :
    (fuel : ℕ) (l : HeaderLoop) (bytes : Bytes)
    → l.response_stream ≡ open_stream bytes
    → length bytes + 2 ≤ fuel
    → header_loop fuel l ≡ none
    → (more : ℕ) → header_loop more l ≡ none
unfolding store_header
header_loop_decided zero l bytes e h out = absurd (omega arith)
header_loop_decided (suc fuel) l bytes e h out =
    elim (Bool-cases (bytes_eq (read_header l).header [])) [
      | inl empty ↦
          let broke = header_loop_break fuel l ((bytes_eq_iff (read_header l).header []).0 empty) in
          absurd (cc)
      | inr full ↦
          let ne : (read_header l).header ≢ [] =
            λ q. cc ((bytes_eq_iff (read_header l).header []).1 q) in
          header_loop_more_none l ne (elim (read_header-Shrinks l bytes e) [
            | inl eof ↦ λ more. header_loop_stuck more _ (record { at_end = eof; left_over = ne })
            | inr (rest, e', lt) ↦
                header_loop_decided fuel (store_header (read_header l)) rest e' (omega arith)
                  (sym (header_loop_more fuel l ne) ∙ out)
          ])
    ]

-- `header_fuel` rounds decide the loop: if they do not end it, no number of rounds does.
pub header_fuel_decides :
    (bytes : Bytes) (headers : Dict)
    → header_loop (header_fuel bytes) (start_loop bytes headers) ≡ none
    → (fuel : ℕ) → header_loop fuel (start_loop bytes headers) ≡ none
header_fuel_decides bytes headers =
    header_loop_decided (header_fuel bytes) (start_loop bytes headers) bytes refl (omega arith)

-- A header line in which a stray carriage return stands before the end of the block.
abbrev pub stray_block : Bytes → Bytes → Bytes
stray_block line body = line ++ b'\r' ∷ b'\r' ∷ b'\n' ∷ b'\r' ∷ b'\n' ∷ body

Never : HeaderLoop → Type 0
Never l = (fuel : ℕ) → header_loop fuel l ≡ none

-- A round that reads a line which is not empty hands the question on to the rest of the stream.
line-Never :
    (line rest : Bytes) (c : ℕ) (l : HeaderLoop)
    → line ≢ []
    → Lacks b'\r' line
    → l.response_stream ≡ open_stream (line ++ b'\r' ∷ c ∷ rest)
    → ((l' : HeaderLoop) → l'.response_stream ≡ open_stream rest → Never l')
    → Never l
unfolding Never store_header
line-Never line rest c l ne h e next =
    let read = read_header_line line rest c l h e in
    header_loop_more_none l (λ q. ne (sym (ap (λ (x : HeaderLoop). x.header) read) ∙ q))
      (next (store_header (read_header l)) (ap (λ (x : HeaderLoop). x.response_stream) read))

rest_read :
    (c : ℕ) (cs : Bytes) (l : HeaderLoop)
    → Lacks b'\r' (c ∷ cs)
    → l.response_stream ≡ open_stream (c ∷ cs)
    → read_header l
      ≡ record { response_stream = get (ended false); header = c ∷ cs; headers = l.headers }
unfolding read_header
rest_read c cs l h e = rw (e, getline_rest b'\r' l.header c cs h)

rest-Never :
    (c : ℕ) (cs : Bytes) (l : HeaderLoop)
    → Lacks b'\r' (c ∷ cs)
    → l.response_stream ≡ open_stream (c ∷ cs)
    → Never l
unfolding Never store_header
rest-Never c cs l h e =
    let read = rest_read c cs l h e in
    let left : (read_header l).header ≢ [] =
      λ q. cc (sym (ap (λ (x : HeaderLoop). x.header) read) ∙ q) in
    header_loop_more_none l left (λ fuel.
      header_loop_stuck fuel (store_header (read_header l)) (record {
        at_end = ap (λ (x : HeaderLoop). x.response_stream.eof) read ∙ get-ended false;
        left_over = left;
      }))

-- Header fields, then a line with a stray carriage return, then a body with none: the loop over the
-- header lines never ends, with any number of rounds.
pub stray_never :
    (fs : List Field) (line : Bytes) (c : ℕ) (cs : Bytes) (headers : Dict)
    → All IsLine fs
    → line ≢ []
    → Lacks b'\r' line
    → Lacks b'\r' (c ∷ cs)
    → (fuel : ℕ)
    → header_loop (length fs + fuel) (start_loop (render fs (stray_block line (c ∷ cs))) headers)
      ≡ none
unfolding Never
stray_never fs line c cs headers hf ne h hb fuel =
    let (l, loop, at, _) =
      rounds_fields fs (stray_block line (c ∷ cs)) fuel
        (start_loop (render fs (stray_block line (c ∷ cs))) headers) hf refl in
    loop
    ∙ line-Never line _ b'\r' l ne h at
        (λ l₁ e₁.
          line-Never (b'\n' ∷ []) (c ∷ cs) b'\n' l₁ (λ q. cc) ((λ q. omega arith), tt) e₁
            (λ l₂ e₂. rest-Never c cs l₂ hb e₂))
        fuel
