-- ===== src/Stream.antt =====
-- `std::istream` over the bytes of a `streambuf` or a `std::string`, as the HTTP client and the
-- HTTP server read it: `std::getline` with a delimiter, `get()` and `>>` into a `std::string`.
pub mod Laws
pub mod Words
use boost_asio_study.Base.{
  ℕ, Bool, true, false, not, ◌&&◌, ◌||◌, List, [], ◌∷◌, Option, none, some, Bytes, leb, ◌==◌,
  if◌then◌else◌,
}

-- `badbit` is never set by these buffers.
pub record Stream : Type 0 where
  pub rest : Bytes
  pub eof : Bool
  pub fail : Bool

-- `std::istream stream(&buf)`
abbrev pub open_stream : Bytes → Stream
open_stream bytes = record { rest = bytes; eof = false; fail = false }

abbrev pub good : Stream → Bool
good s = not s.eof && not s.fail

-- The bytes before the first `d`, and those behind it if there is one.
unfoldable pub break_on : ℕ → Bytes → Bytes × Option Bytes
break_on d [] = ([], none)
break_on d (c ∷ cs) =
    let (before, after) = break_on d cs in if c == d then ([], some cs) else (c ∷ before, after)

abbrev pub ended : Bool → Stream
ended failed = record { rest = []; eof = true; fail = failed }

abbrev pub line_of : Bytes × Option Bytes → Bytes × Stream
line_of (line, none) = (line, ended false)
line_of (line, some rest) = (line, open_stream rest)

-- The extraction of `std::getline` on a good stream; with no byte left it sets `failbit` too.
unfoldable read_line : ℕ → Bytes → Bytes × Stream
unfolding break_on
read_line d [] = ([], ended true)
read_line d (c ∷ cs) = line_of (break_on d (c ∷ cs))

-- `std::getline(stream, str, d)`: the new `str`, which stays as it was if the stream is not good.
unfoldable pub getline : ℕ → Bytes → Stream → Bytes × Stream
unfolding read_line
getline d str s = if good s then read_line d s.rest else (str, record s { fail = true })

-- `stream.get()`, its result dropped
get_good : Bytes → Stream
get_good [] = ended true
get_good (c ∷ cs) = open_stream cs

unfoldable pub get : Stream → Stream
unfolding get_good
get s = if good s then get_good s.rest else record s { fail = true }

-- `std::isspace` in the "C" locale
unfoldable pub is_space : ℕ → Bool
is_space c = c == b' ' || leb 9 c && leb c 13

unfoldable pub skip_space : Bytes → Bytes
unfolding is_space
skip_space [] = []
skip_space (c ∷ cs) = if is_space c then skip_space cs else c ∷ cs

-- The bytes up to the next white space, and what stands from there.
unfoldable pub break_space : Bytes → Bytes × Bytes
unfolding is_space
break_space [] = ([], [])
break_space (c ∷ cs) =
    let (word, rest) = break_space cs in if is_space c then ([], c ∷ cs) else (c ∷ word, rest)

abbrev word_of : Bytes × Bytes → Bytes × Stream
word_of (word, []) = (word, ended false)
word_of (word, c ∷ cs) = (word, open_stream (c ∷ cs))

-- `stream >> str` behind the skipped white space; at the end `str` stays as it was.
unfoldable read_word : Bytes → Bytes → Bytes × Stream
unfolding break_space
read_word str [] = (str, ended true)
read_word str (c ∷ cs) = word_of (break_space (c ∷ cs))

unfoldable pub extract_word : Bytes → Stream → Bytes × Stream
unfolding read_word skip_space
extract_word str s =
    if good s then read_word str (skip_space s.rest) else (str, record s { fail = true })
