-- ===== src/Stream/Words.antt =====
-- The words of any bytes, and what `>>` reads of them one after the other.
use boost_asio_study.Base.{
  ℕ, sym, ℕ, Bool, true, false, not, List, [], ◌∷◌, ◌++◌, ◌≡◌, ◌⊎◌, inl, inr, refl, arith, Bytes,
  ap, ◌∙◌, if◌then◌else◌, Bool-cases,
}
use boost_asio_study.Stream.{
  Stream, open_stream, good, is_space, skip_space, break_space, extract_word, read_word, word_of,
}

abbrev begins_word : Bytes → Bool
begins_word [] = false
begins_word (c ∷ cs) = not (is_space c)

abbrev prepend : Bytes → List Bytes → List Bytes
prepend c [] = c ∷ []
prepend c (w ∷ ws) = (c ++ w) ∷ ws

-- The maximal pieces with no white space, in order.
unfoldable pub words_of : Bytes → List Bytes
words_of [] = []
words_of (c ∷ cs) =
    let rest = words_of cs in
    if is_space c then rest else if begins_word cs then prepend (c ∷ []) rest else (c ∷ []) ∷ rest

abbrev pub head_or : Bytes → List Bytes → Bytes
head_or str [] = str
head_or str (w ∷ ws) = w

abbrev pub tail : List Bytes → List Bytes
tail [] = []
tail (w ∷ ws) = ws

words_of-blank : (c : ℕ) (cs : Bytes) → is_space c ≡ true → words_of (c ∷ cs) ≡ words_of cs
unfolding words_of
words_of-blank c cs h = rw h

words_of-letter :
    (c : ℕ) (cs : Bytes)
    → is_space c ≡ false
    → words_of (c ∷ cs)
      ≡ (if begins_word cs then prepend (c ∷ []) (words_of cs) else (c ∷ []) ∷ words_of cs)
unfolding words_of
words_of-letter c cs h = rw h

break_space-blank : (c : ℕ) (cs : Bytes) → is_space c ≡ true → break_space (c ∷ cs) ≡ ([], c ∷ cs)
unfolding break_space
break_space-blank c cs h = ground arith

break_space-letter :
    (c : ℕ) (cs : Bytes)
    → is_space c ≡ false
    → break_space (c ∷ cs) ≡ (c ∷ (break_space cs).0, (break_space cs).1)
unfolding break_space
break_space-letter c cs h = ground arith

words_of-break_space :
    (c : ℕ) (cs : Bytes)
    → is_space c ≡ false
    → words_of (c ∷ cs) ≡ (break_space (c ∷ cs)).0 ∷ words_of (break_space (c ∷ cs)).1
words_of-break_space c [] h =
    rw (words_of-letter c [] h, break_space-letter c [] h) (unfold words_of break_space in refl)
words_of-break_space c (d ∷ ds) h = elim (Bool-cases (is_space d)) [
  | inl blank ↦
      rw
        (
          words_of-letter c (d ∷ ds) h,
          break_space-letter c (d ∷ ds) h,
          break_space-blank d ds blank,
        )
        (rw blank refl)
  | inr letter ↦
      rw (words_of-letter c (d ∷ ds) h, break_space-letter c (d ∷ ds) h)
        (rw letter (rw (words_of-break_space d ds letter) refl))
]

-- Skipping white space loses no word, and ends at a word.
skip_space-words :
    (bytes : Bytes)
    → (words_of (skip_space bytes) ≡ words_of bytes)
      × ((skip_space bytes ≡ [])
          ⊎ ((c : ℕ) × (cs : Bytes) × (skip_space bytes ≡ c ∷ cs) × (is_space c ≡ false)))
unfolding skip_space
skip_space-words [] = (refl, inl refl)
skip_space-words (c ∷ cs) = elim (Bool-cases (is_space c)) [
  | inl blank ↦
      let same : skip_space (c ∷ cs) ≡ skip_space cs = ground arith in
      let (words, next) = skip_space-words cs in
      (ap words_of same ∙ words ∙ sym (words_of-blank c cs blank), rw same next)
  | inr letter ↦
      let same : skip_space (c ∷ cs) ≡ c ∷ cs = ground arith in
      (ap words_of same, inr (c, cs, same, letter))
]

-- The words that a stream still gives.
abbrev pub Gives : Stream → List Bytes → Type 0
Gives s ws =
    ((rest : Bytes) × (s ≡ open_stream rest) × (words_of rest ≡ ws))
    ⊎ ((good s ≡ false) × (ws ≡ []))

read_word-Gives :
    (str : Bytes) (c : ℕ) (cs : Bytes) (r : Bytes × Bytes)
    → r ≡ break_space (c ∷ cs)
    → words_of (c ∷ cs) ≡ r.0 ∷ words_of r.1
    → ((word_of r).0 ≡ head_or str (words_of (c ∷ cs)))
      × Gives (word_of r).1 (tail (words_of (c ∷ cs)))
read_word-Gives str c cs (word, []) e h = rw h (refl, inr (refl, unfold words_of in refl))
read_word-Gives str c cs (word, d ∷ ds) e h = rw h (refl, inl (d ∷ ds, refl, refl))

read_word-found :
    (str bytes : Bytes) (ws : List Bytes)
    → words_of bytes ≡ ws
    → ((bytes ≡ []) ⊎ ((c : ℕ) × (cs : Bytes) × (bytes ≡ c ∷ cs) × (is_space c ≡ false)))
    → ((read_word str bytes).0 ≡ head_or str ws) × Gives (read_word str bytes).1 (tail ws)
unfolding read_word
read_word-found str bytes ws h (inl none_left) =
    let no_words : ws ≡ [] = sym h ∙ ap words_of none_left ∙ (unfold words_of in refl) in
    rw (none_left, no_words) (refl, inr (refl, refl))
read_word-found str bytes ws h (inr (c, cs, e, letter)) =
    rw (e, ← h)
      (rw e
        (read_word-Gives str c cs (break_space (c ∷ cs)) refl (words_of-break_space c cs letter)))

extract_word-good :
    (str rest : Bytes) → extract_word str (open_stream rest) ≡ read_word str (skip_space rest)
unfolding extract_word
extract_word-good str rest = refl

extract_word-over :
    (str : Bytes) (s : Stream)
    → good s ≡ false
    → (extract_word str s ≡ (str, record s { fail = true }))
      × (good (record s { fail = true }) ≡ false)
unfolding extract_word
extract_word-over str s h = ground arith

-- Reading a word gives the next one, or leaves the string as it was.
pub extract_word-Gives :
    (str : Bytes) (s : Stream) (ws : List Bytes)
    → Gives s ws
    → ((extract_word str s).0 ≡ head_or str ws) × Gives (extract_word str s).1 (tail ws)
extract_word-Gives str s ws (inl (rest, e, h)) =
    let (words, next) = skip_space-words rest in
    rw (e, extract_word-good str rest) (read_word-found str (skip_space rest) ws (words ∙ h) next)
extract_word-Gives str s ws (inr (over, h)) =
    let (same, still) = extract_word-over str s over in rw (same, h) (refl, inr (still, refl))
