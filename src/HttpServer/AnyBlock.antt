-- ===== src/HttpServer/AnyBlock.antt =====
-- The loop over the header fields on every block of bytes, well formed or not: which fields it reads.
use boost_asio_study.Asio.{ErrorCode, Errors}
use boost_asio_study.Base.{
  none, ℕ, zero, suc, ◌+◌, ◌≤◌, true, List, [], ◌∷◌, ◌++◌, some, ◌≡◌, refl, ap, ◌∙◌, arith, Bytes,
  Lacks, length,
}
use boost_asio_study.Dict.{insert, Dict}
use boost_asio_study.HttpServer.{
  HeaderLoop, read_value, read_header, header_loop, header_fuel, start_loop, Service, World, root,
  finish_headers, on_headers_received,
}
use boost_asio_study.HttpServer.Grammar.{
  HasFields, no_colon, cut_value, cut_end, field, HasFields-total,
}
use boost_asio_study.HttpServer.Headers.{header_loop_done, header_loop_more, read_header_last}
use boost_asio_study.HttpServer.Requests.{error_check-none}
use boost_asio_study.HttpServer.Responses.{answer_for, answered, respond_answer}
use boost_asio_study.HttpText.{Field, assign_all}
use boost_asio_study.Stream.{getline, open_stream}
use boost_asio_study.Stream.Laws.{
  get-eof, getline_all, get_nothing, getline_found, getline_last, get_next,
}

read_header_name :
    (name after : Bytes) (l : HeaderLoop)
    → Lacks b':' name
    → l.request_stream ≡ open_stream (name ++ b':' ∷ after)
    → read_header l
      ≡ read_value (record l { request_stream = open_stream after; header_name = name })
unfolding read_header
read_header_name name after l h e = rw (e, getline_found b':' l.header_name name after h)

read_value_cut :
    (value : Bytes) (l : HeaderLoop)
    → Lacks b'\r' value
    → l.request_stream ≡ open_stream value
    → ((read_value l).request_stream.eof ≡ true)
      × ((read_value l).headers ≡ insert l.header_name value l.headers)
unfolding read_value
read_value_cut value l h e = ground (
  arith,
  getline_all b'\r' l.header_value value h,
  get-eof (getline b'\r' l.header_value (open_stream value)).1
      (getline_last b'\r' l.header_value value h),
)

read_value_end :
    (value : Bytes) (l : HeaderLoop)
    → Lacks b'\r' value
    → l.request_stream ≡ open_stream (value ++ b'\r' ∷ [])
    → ((read_value l).request_stream.eof ≡ true)
      × ((read_value l).headers ≡ insert l.header_name value l.headers)
unfolding read_value
read_value_end value l h e =
    rw (e, getline_found b'\r' l.header_value value [] h) (get_nothing, refl)

read_value_field :
    (value : Bytes) (dropped : ℕ) (rest : Bytes) (l : HeaderLoop)
    → Lacks b'\r' value
    → l.request_stream ≡ open_stream (value ++ b'\r' ∷ dropped ∷ rest)
    → read_value l ≡ record l {
      request_stream = open_stream rest;
      header_value = value;
      headers = insert l.header_name value l.headers;
    }
unfolding read_value
read_value_field value dropped rest l h e =
    rw (e, getline_found b'\r' l.header_value value (dropped ∷ rest) h) (rw get_next refl)

-- A round that ends the stream is the last one.
last_round :
    (fuel : ℕ) (bytes : Bytes) (l : HeaderLoop)
    → l.request_stream ≡ open_stream bytes
    → (read_header l).request_stream.eof ≡ true
    → header_loop (suc (suc fuel)) l ≡ some (read_header l)
last_round fuel bytes l e eof =
    header_loop_more (suc fuel) l bytes e ∙ header_loop_done fuel (read_header l) eof

-- The loop behind the name of a field.
abbrev at_value : HeaderLoop → Bytes → Bytes → HeaderLoop
at_value l name after = record l { request_stream = open_stream after; header_name = name }

-- The loop stores the fields of the block, in order.
header_loop_block :
    (bytes : Bytes) (fs : List Field) (fuel : ℕ) (l : HeaderLoop)
    → HasFields bytes fs
    → l.request_stream ≡ open_stream bytes
    → length fs + 2 ≤ fuel
    → (l' : HeaderLoop) × (header_loop fuel l ≡ some l') × (l'.headers ≡ assign_all fs l.headers)
unfolding assign_all
header_loop_block bytes fs zero l block e h = absurd (omega arith)
header_loop_block bytes fs (suc zero) l block e h = absurd (omega arith)
header_loop_block bytes _ (suc (suc fuel)) l (no_colon lacks) e h =
    let (eof, same) = read_header_last bytes l lacks e in
    (read_header l, last_round fuel bytes l e eof, same)
header_loop_block bytes _ (suc (suc fuel)) l (cut_value name value hn hv same) e h =
    let named = read_header_name name value l hn (e ∙ ap open_stream same) in
    let (eof, stored) = read_value_cut value (at_value l name value) hv refl in
    (read_header l, last_round fuel bytes l e (rw named eof), rw named stored)
header_loop_block bytes _ (suc (suc fuel)) l (cut_end name value hn hv same) e h =
    let after : Bytes = value ++ b'\r' ∷ [] in
    let named = read_header_name name after l hn (e ∙ ap open_stream same) in
    let (eof, stored) = read_value_end value (at_value l name after) hv refl in
    (read_header l, last_round fuel bytes l e (rw named eof), rw named stored)
header_loop_block bytes _ (suc (suc fuel)) l (field {fs = fs} name value c rest hn hv same block) e
      h =
    let after : Bytes = value ++ b'\r' ∷ c ∷ rest in
    let named =
      read_header_name name after l hn (e ∙ ap open_stream same)
      ∙ read_value_field value c rest (at_value l name after) hv refl in
    let (l', loop, stored) =
      header_loop_block rest fs (suc fuel) (read_header l) block (rw named refl) (omega arith) in
    (
      l',
      header_loop_more (suc fuel) l bytes e ∙ loop,
      stored ∙ ap (λ (x : HeaderLoop). assign_all fs x.headers) named,
    )

-- Whatever bytes the block of header fields has, well formed or not: it has fields in the sense of
-- `HasFields`, these are stored in order, and the answer is that of the file at the requested path.
pub any_block_answer :
    (e : Errors) (w : World) (ec : ErrorCode) (s : Service)
    → ec.value ≡ 0
    → s.resource_buffer ≡ none
    → (fs : List Field) × HasFields s.request fs
      × (on_headers_received e w ec s
          ≡ answered w
              (record s { request = []; request_headers = assign_all fs s.request_headers })
              (answer_for w (root ++ s.requested_resource)))
unfolding on_headers_received finish_headers
any_block_answer e w ec s h none_yet =
    let (fs, block, few) = HasFields-total (length s.request) s.request (omega arith) in
    let (l, loop, stored) =
      header_loop_block s.request fs (header_fuel s.request)
        (start_loop s.request s.request_headers) block refl (omega (arith, few)) in
    let fields =
      λ (d : Dict). respond_answer w (record s { request = []; request_headers = d }) none_yet in
    (fs, block, rw (error_check-none e w ec s h, loop) (fields l.headers ∙ rw stored refl))
