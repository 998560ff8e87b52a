-- ===== src/HttpServer/Grammar.antt =====
-- The header fields of any bytes, as the server takes them, stated without its parser.
use native.Mathlib.Decide.{ℕ_discrete}
use boost_asio_study.Base.{
  Option, none, some, refl, sym, ◌∙◌, subst, ℕ, zero, suc, ◌+◌, ◌≤◌, ◌⊎◌, List, [], ◌∷◌, ◌++◌, ◌≡◌,
  ap, inl, inr, arith, Bytes, Lacks, length, length-append,
}
use boost_asio_study.HttpText.{Field}
use boost_asio_study.Stream.{break_on}
use boost_asio_study.Stream.Laws.{break_on_found, break_on_missing}

-- Which fields a block of bytes has: a name goes up to the next colon, its value to the next carriage
-- return, and the byte behind that is dropped, whatever it is. A name with no colon is no field; a
-- value with no carriage return goes up to the end.
pub data HasFields : Bytes → List Field → Type 0 where
  no_colon : {bytes : Bytes} → Lacks b':' bytes → HasFields bytes []
  cut_value :
      {bytes : Bytes} (name value : Bytes)
      → Lacks b':' name
      → Lacks b'\r' value
      → bytes ≡ name ++ b':' ∷ value
      → HasFields bytes ((name, value) ∷ [])
  cut_end :
      {bytes : Bytes} (name value : Bytes)
      → Lacks b':' name
      → Lacks b'\r' value
      → bytes ≡ name ++ b':' ∷ (value ++ b'\r' ∷ [])
      → HasFields bytes ((name, value) ∷ [])
  field :
      {bytes : Bytes} {fs : List Field} (name value : Bytes) (dropped : ℕ) (rest : Bytes)
      → Lacks b':' name
      → Lacks b'\r' value
      → bytes ≡ name ++ b':' ∷ (value ++ b'\r' ∷ dropped ∷ rest)
      → HasFields rest fs
      → HasFields bytes ((name, value) ∷ fs)

-- A byte string up to a delimiter, if it has one.
split_on :
    (d : ℕ) (bytes : Bytes)
    → Lacks d bytes
      ⊎ ((before : Bytes) × (after : Bytes) × Lacks d before × (bytes ≡ before ++ d ∷ after))
split_on d [] = inl tt
split_on d (c ∷ cs) = elim (ℕ_discrete c d) [
  | yes same ↦ inr ([], cs, tt, rw same)
  | no other ↦ elim (split_on d cs) [
    | inl none_there ↦ inl (other, none_there)
    | inr (before, after, lacks, e) ↦ inr (c ∷ before, after, (other, lacks), ap (◌∷◌ c) e)
  ]
]

-- Every block has fields, and fewer than it has bytes.
pub HasFields-total :
    (n : ℕ) (bytes : Bytes)
    → length bytes ≤ n
    → (fs : List Field) × HasFields bytes fs × (length fs ≤ length bytes)
HasFields-total zero [] h = ([], no_colon tt, omega arith)
HasFields-total zero (c ∷ cs) h = absurd (omega arith)
HasFields-total (suc n) bytes h = elim (split_on b':' bytes) [
  | inl lacks ↦ ([], no_colon lacks, omega arith)
  | inr (name, after, hn, e) ↦ elim (split_on b'\r' after) [
    | inl hv ↦ (
      (name, after) ∷ [],
      cut_value name after hn hv e,
      omega (arith, ap (length {A = ℕ}) e, length-append name (b':' ∷ after)),
    )
    | inr (value, [], hv, e') ↦ (
      (name, value) ∷ [],
      cut_end name value hn hv (rw (← e') e),
      omega (arith, ap (length {A = ℕ}) e, length-append name (b':' ∷ after)),
    )
    | inr (value, c ∷ rest, hv, e') ↦
        let shorter : length bytes ≡ length name + length value + length rest + 3 = omega (
          arith,
          ap (length {A = ℕ}) e,
          length-append name (b':' ∷ after),
          ap (length {A = ℕ}) e',
          length-append value (b'\r' ∷ c ∷ rest),
        ) in
        let (fs, block, few) = HasFields-total n rest (omega arith) in
        ((name, value) ∷ fs, field name value c rest hn hv (rw (← e') e) block, omega arith)
  ]
]

-- The fields by the first colon, and by the first carriage return behind it.
abbrev BehindName : Bytes → Bytes × Option Bytes → List Field → Type 0
BehindName name (value, none) fs = fs ≡ (name, value) ∷ []
BehindName name (value, some []) fs = fs ≡ (name, value) ∷ []
BehindName name (value, some (c ∷ rest)) fs =
    (gs : List Field) × HasFields rest gs × (fs ≡ (name, value) ∷ gs)

abbrev Breaks : Bytes × Option Bytes → List Field → Type 0
Breaks (name, none) fs = fs ≡ []
Breaks (name, some after) fs = BehindName name (break_on b'\r' after) fs

HasFields-Breaks :
    (bytes : Bytes) (fs : List Field) → HasFields bytes fs → Breaks (break_on b':' bytes) fs
HasFields-Breaks bytes _ (no_colon lacks) = rw (break_on_missing b':' bytes lacks) refl
HasFields-Breaks bytes _ (cut_value name value hn hv e) =
    rw (e, break_on_found b':' name value hn) (rw (break_on_missing b'\r' value hv) refl)
HasFields-Breaks bytes _ (cut_end name value hn hv e) =
    rw (e, break_on_found b':' name (value ++ b'\r' ∷ []) hn)
      (rw (break_on_found b'\r' value [] hv) refl)
HasFields-Breaks bytes _ (field {fs = fs} name value c rest hn hv e block) =
    rw (e, break_on_found b':' name (value ++ b'\r' ∷ c ∷ rest) hn)
      (rw (break_on_found b'\r' value (c ∷ rest) hv) (fs, block, refl))

-- A byte string has one list of fields.
HasFields-unique :
    (bytes : Bytes) (fs gs : List Field) → HasFields bytes fs → HasFields bytes gs → fs ≡ gs
HasFields-unique bytes _ gs (no_colon lacks) other =
    sym (rw (break_on_missing b':' bytes lacks) at (HasFields-Breaks bytes gs other))
HasFields-unique bytes _ gs (cut_value name value hn hv e) other = sym (
    subst (λ r. BehindName name r gs) (break_on_missing b'\r' value hv)
      (subst (λ r. Breaks r gs) (ap (break_on b':') e ∙ break_on_found b':' name value hn)
        (HasFields-Breaks bytes gs other)))
HasFields-unique bytes _ gs (cut_end name value hn hv e) other = sym (
    subst (λ r. BehindName name r gs) (break_on_found b'\r' value [] hv)
      (subst (λ r. Breaks r gs)
        (ap (break_on b':') e ∙ break_on_found b':' name (value ++ b'\r' ∷ []) hn)
        (HasFields-Breaks bytes gs other)))
HasFields-unique bytes _ gs (field {fs = fs} name value c rest hn hv e block) other =
    let (hs, others, same) =
      subst (λ r. BehindName name r gs) (break_on_found b'\r' value (c ∷ rest) hv)
        (subst (λ r. Breaks r gs)
          (ap (break_on b':') e ∙ break_on_found b':' name (value ++ b'\r' ∷ c ∷ rest) hn)
          (HasFields-Breaks bytes gs other)) in
    ap (◌∷◌ (name, value)) (HasFields-unique rest fs hs block others) ∙ sym same
