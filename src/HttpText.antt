-- ===== src/HttpText.antt =====
-- Header fields as the HTTP client and the HTTP server exchange them, independent of their parsers.
use boost_asio_study.Base.{List, [], ◌∷◌, ◌++◌, ◌≤◌, arith, Bytes, Lacks, length, length-append}
use boost_asio_study.Dict.{Dict, insert}

-- A header field: its name and its value.
abbrev pub Field : Type 0
Field = Bytes × Bytes

-- No colon in the name and no carriage return in the value.
abbrev pub IsField : Field → Type 0
IsField f = Lacks b':' f.0 × Lacks b'\r' f.1

-- As they are sent: the name, a colon, the value and the end of the line, for each.
unfoldable pub render : List Field → Bytes → Bytes
render [] rest = rest
render (f ∷ fs) rest = f.0 ++ b':' ∷ (f.1 ++ b'\r' ∷ b'\n' ∷ render fs rest)

-- The map after the fields are assigned in order, so that the last value of a name stays.
unfoldable pub assign_all : List Field → Dict → Dict
assign_all [] d = d
assign_all (f ∷ fs) d = assign_all fs (insert f.0 f.1 d)

pub length-render : (fs : List Field) (rest : Bytes) → length fs ≤ length (render fs rest)
unfolding render
length-render [] rest = omega arith
length-render (f ∷ fs) rest =
    omega (arith, length-render fs rest, length-append f.0, length-append f.1)
