-- ===== src/Stream/Laws.antt =====
-- What the extractions return on text of a known shape.
use boost_asio_study.Base.{
  Bool, ◌≤◌, ◌<◌, ◌⊎◌, inl, inr, Option, length, Bool-cases, ◌==◌, ℕ, true, false, [], ◌∷◌, ◌++◌,
  none, some, ◌≡◌, refl, arith, Bytes, Lacks, All,
}
use boost_asio_study.Stream.{
  Stream, line_of, open_stream, ended, break_on, getline, get, is_space, break_space, extract_word,
}

pub break_on_found :
    (d : ℕ) (line rest : Bytes) → Lacks d line → break_on d (line ++ d ∷ rest) ≡ (line, some rest)
unfolding break_on
break_on_found d [] rest h = ground arith
break_on_found d (c ∷ cs) rest h = ground (arith, break_on_found d cs rest h.1)

pub break_on_missing : (d : ℕ) (line : Bytes) → Lacks d line → break_on d line ≡ (line, none)
unfolding break_on
break_on_missing d [] h = refl
break_on_missing d (c ∷ cs) h = ground (arith, break_on_missing d cs h.1)

-- A line that ends in its delimiter is read whole, and the stream goes on behind it.
pub getline_found :
    (d : ℕ) (str line rest : Bytes)
    → Lacks d line
    → getline d str (open_stream (line ++ d ∷ rest)) ≡ (line, open_stream rest)
unfolding getline
getline_found d str [] rest h = ground (arith, break_on_found d [] rest h)
getline_found d str (c ∷ cs) rest h = ground (arith, break_on_found d (c ∷ cs) rest h)

pub get_next : (c : ℕ) (cs : Bytes) → get (open_stream (c ∷ cs)) ≡ open_stream cs
unfolding get
get_next c cs = refl

-- The bytes of a word: no white space.
abbrev pub IsWord : Bytes → Type 0
IsWord = All (λ c. is_space c ≡ false)

break_space_found :
    (word rest : Bytes) (c : ℕ)
    → IsWord word
    → is_space c ≡ true
    → break_space (word ++ c ∷ rest) ≡ (word, c ∷ rest)
unfolding break_space
break_space_found [] rest c w h = ground arith
break_space_found (x ∷ xs) rest c w h = ground (arith, break_space_found xs rest c w.1 h)

break_space_all : (word : Bytes) → IsWord word → break_space word ≡ (word, [])
unfolding break_space
break_space_all [] w = refl
break_space_all (x ∷ xs) w = ground (arith, break_space_all xs w.1)

-- A word that white space follows is read whole, and the stream stands before that white space.
pub extract_word_found :
    (str : Bytes) (x : ℕ) (xs rest : Bytes) (c : ℕ)
    → IsWord (x ∷ xs)
    → is_space c ≡ true
    → extract_word str (open_stream (x ∷ (xs ++ c ∷ rest))) ≡ (x ∷ xs, open_stream (c ∷ rest))
unfolding extract_word
extract_word_found str x xs rest c w h = ground (arith, break_space_found (x ∷ xs) rest c w h)

-- A word at the end of the stream is read whole, and sets `eofbit`.
pub extract_word_last :
    (str : Bytes) (x : ℕ) (xs : Bytes)
    → IsWord (x ∷ xs)
    → extract_word str (open_stream (x ∷ xs)) ≡ (x ∷ xs, ended false)
unfolding extract_word
extract_word_last str x xs w = ground (arith, break_space_all (x ∷ xs) w)

-- One blank before the word is skipped.
pub extract_word_space :
    (str : Bytes) (c : ℕ) (bytes : Bytes)
    → is_space c ≡ true
    → extract_word str (open_stream (c ∷ bytes)) ≡ extract_word str (open_stream bytes)
unfolding extract_word
extract_word_space str c bytes h = ground arith

-- An extraction either ends the stream or leaves fewer bytes in it.
abbrev pub Shrinks : ℕ → Stream → Type 0
Shrinks n s = (s.eof ≡ true) ⊎ ((rest : Bytes) × (s ≡ open_stream rest) × (length rest < n))

break_on_shorter :
    (d : ℕ) (bytes : Bytes) (r : Bytes × Option Bytes)
    → break_on d bytes ≡ r
    → Shrinks (length bytes) (line_of r).1
unfolding break_on
break_on_shorter d bytes (line, none) h = inl refl
break_on_shorter d [] (line, some rest) h = cc
break_on_shorter d (c ∷ cs) (line, some rest) h = elim (Bool-cases (c == d)) [
  | inl hit ↦ inr (rest, refl, ground arith)
  | inr miss ↦ inr (rest, refl, ground (arith, break_on_shorter d cs (break_on d cs) refl))
]

pub getline-Shrinks :
    (d : ℕ) (str bytes : Bytes) → Shrinks (length bytes) (getline d str (open_stream bytes)).1
unfolding getline
getline-Shrinks d str [] = inl refl
getline-Shrinks d str (c ∷ cs) = break_on_shorter d (c ∷ cs) (break_on d (c ∷ cs)) refl

pub get-Shrinks : (n : ℕ) (s : Stream) → Shrinks n s → Shrinks n (get s)
unfolding get
get-Shrinks n s (inl e) = inl (ground arith)
get-Shrinks n s (inr ([], e, h)) = inl (ground arith)
get-Shrinks n s (inr (c ∷ cs, e, h)) = inr (cs, ground arith, omega arith)

pub Shrinks-mono : {m n : ℕ} (s : Stream) → m ≤ n → Shrinks m s → Shrinks n s
Shrinks-mono s h (inl e) = inl e
Shrinks-mono s h (inr (rest, e, lt)) = inr (rest, e, omega arith)

-- The last, unterminated piece is read whole and sets `eofbit`.
pub getline_last :
    (d : ℕ) (str line : Bytes) → Lacks d line → (getline d str (open_stream line)).1.eof ≡ true
unfolding getline
getline_last d str [] h = refl
getline_last d str (c ∷ cs) h = ground (arith, break_on_missing d (c ∷ cs) h)

-- A white space byte stands in no word.
pub IsWord-Lacks : (c : ℕ) (word : Bytes) → is_space c ≡ true → IsWord word → Lacks c word
IsWord-Lacks c [] h w = tt
IsWord-Lacks c (x ∷ xs) h w = (λ e. cc, IsWord-Lacks c xs h w.1)

pub getline_rest :
    (d : ℕ) (str : Bytes) (c : ℕ) (cs : Bytes)
    → Lacks d (c ∷ cs)
    → getline d str (open_stream (c ∷ cs)) ≡ (c ∷ cs, ended false)
unfolding getline
getline_rest d str c cs h = ground (arith, break_on_missing d (c ∷ cs) h)

pub get-ended : (b : Bool) → (get (ended b)).eof ≡ true
unfolding get
get-ended b = refl

pub blank : is_space b' ' ≡ true
unfolding is_space
blank = refl

-- What is read of an unterminated piece is all of it, also if it is empty.
pub getline_all :
    (d : ℕ) (str line : Bytes) → Lacks d line → (getline d str (open_stream line)).0 ≡ line
unfolding getline
getline_all d str [] h = refl
getline_all d str (c ∷ cs) h = ground (arith, break_on_missing d (c ∷ cs) h)

pub get-eof : (s : Stream) → s.eof ≡ true → (get s).eof ≡ true
unfolding get
get-eof s h = ground arith

pub get_nothing : (get (open_stream [])).eof ≡ true
unfolding get
get_nothing = refl
