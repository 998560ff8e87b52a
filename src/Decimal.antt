-- ===== src/Decimal.antt =====
-- `std::to_string` of an unsigned number, and `std::stoul`.
use boost_asio_study.Base.{
  refl, subst, ◌∙◌, inr, sym, inl, ap, Bool-cases, ℕ, zero, suc, ◌+◌, ◌-◌, ◌*◌, ◌/◌, ◌%◌, ◌^◌, ◌<◌,
  Bool, true, false, ◌&&◌, [], ◌∷◌, ◌≡◌, arith, Bytes, leb, ltb, ◌==◌, if◌then◌else◌,
}
use boost_asio_study.Stream.{is_space, skip_space}

-- The last digit first, until the number has one digit; `n` rounds are more than enough.
to_digits : ℕ → ℕ → Bytes → Bytes
to_digits zero n out = out
to_digits (suc f) n out =
    let more = to_digits f (n / 10) ((b'0' + n % 10) ∷ out) in
    if ltb n 10 then (b'0' + n) ∷ out else more

unfoldable pub to_string : ℕ → Bytes
unfolding to_digits
to_string n = to_digits (suc n) n []

-- An `int` of 32 bits, printed.
pub int_to_string : ℕ → Bytes
int_to_string bits =
    if ltb bits (2 ^ 31) then to_string bits else b'-' ∷ to_string (2 ^ 32 - bits % 2 ^ 32)

abbrev is_digit : ℕ → Bool
is_digit c = leb b'0' c && leb c b'9'

-- `unsigned long` has 32 bits in the Windows builds that the project file is for.
abbrev pub ulong_mod : ℕ
ulong_mod = 2 ^ 32

pub data Stoul : Type 0 where
  parsed : ℕ → Stoul
  logic_error : Stoul  -- `std::invalid_argument` or `std::out_of_range`

-- The digits in front, read with no bound.
unfoldable pub read_digits : ℕ → Bytes → ℕ
read_digits n [] = n
read_digits n (c ∷ cs) =
    let rest = read_digits (n * 10 + (c - b'0')) cs in if is_digit c then rest else n

-- The value `n` behind the sign; `-n` is computed in `unsigned long`.
in_range : Bool → ℕ → Stoul
in_range negative n =
    if leb ulong_mod n
    then logic_error
    else parsed (if negative then (ulong_mod - n) % ulong_mod else n)

stoul_digits : Bool → Bytes → Stoul
unfolding in_range
stoul_digits negative [] = logic_error
stoul_digits negative (c ∷ cs) =
    if is_digit c then in_range negative (read_digits 0 (c ∷ cs)) else logic_error

stoul_sign : Bytes → Stoul
unfolding stoul_digits
stoul_sign [] = logic_error
stoul_sign (c ∷ cs) =
    if c == b'-'
    then stoul_digits true cs
    else if c == b'+'
    then stoul_digits false cs
    else stoul_digits false (c ∷ cs)

-- Blanks and a sign may stand in front; what follows the digits is ignored.
unfoldable pub stoul : Bytes → Stoul
unfolding stoul_sign skip_space
stoul s = stoul_sign (skip_space s)

abbrev pub AllDigits : Bytes → Type 0
AllDigits [] = Unit
AllDigits (c ∷ cs) = (is_digit c ≡ true) × AllDigits cs

to_digits_value :
    (f n : ℕ) (out : Bytes) → n < f → read_digits 0 (to_digits f n out) ≡ read_digits n out
unfolding to_digits read_digits
to_digits_value zero n out h = absurd (omega arith)
to_digits_value (suc f) n out h = ground (arith, to_digits_value f (n / 10) ((b'0' + n % 10) ∷ out))

to_digits-AllDigits :
    (f n : ℕ) (out : Bytes) → n < f → AllDigits out → AllDigits (to_digits f n out)
unfolding to_digits
to_digits-AllDigits zero n out h a = a
to_digits-AllDigits (suc f) n out h a =
    ground (arith, to_digits-AllDigits f (n / 10) ((b'0' + n % 10) ∷ out))

pub to_string-AllDigits : (n : ℕ) → AllDigits (to_string n)
unfolding to_string
to_string-AllDigits n = to_digits-AllDigits (suc n) n [] (omega arith) tt

to_string_value : (n : ℕ) → read_digits 0 (to_string n) ≡ n
unfolding to_string read_digits
to_string_value n = to_digits_value (suc n) n [] (omega arith)

to_digits_cons :
    (f n x : ℕ) (xs : Bytes) → (c : ℕ) × (cs : Bytes) × (to_digits f n (x ∷ xs) ≡ c ∷ cs)
unfolding to_digits
to_digits_cons zero n x xs = (x, xs, refl)
to_digits_cons (suc f) n x xs = elim (Bool-cases (ltb n 10)) [
  | inl last ↦ (b'0' + n, x ∷ xs, rw last)
  | inr more ↦
      let (c, cs, e) = to_digits_cons f (n / 10) (b'0' + n % 10) (x ∷ xs) in (c, cs, rw more e)
]

-- A printed number has a first digit.
pub to_string_cons : (n : ℕ) → (c : ℕ) × (cs : Bytes) × (to_string n ≡ c ∷ cs)
unfolding to_string to_digits
to_string_cons n = elim (Bool-cases (ltb n 10)) [
  | inl last ↦ (b'0' + n, [], rw last)
  | inr more ↦ let (c, cs, e) = to_digits_cons n (n / 10) (b'0' + n % 10) [] in (c, cs, rw more e)
]

stoul-AllDigits :
    (c : ℕ) (cs : Bytes)
    → AllDigits (c ∷ cs)
    → read_digits 0 (c ∷ cs) < ulong_mod
    → stoul (c ∷ cs) ≡ parsed (read_digits 0 (c ∷ cs))
unfolding stoul is_space
stoul-AllDigits c cs h small = ground arith

-- A printed number that fits is read back.
pub stoul-to_string : (n : ℕ) → n < ulong_mod → stoul (to_string n) ≡ parsed n
stoul-to_string n small =
    let (c, cs, e) = to_string_cons n in
    let value : read_digits 0 (c ∷ cs) ≡ n = ap (read_digits 0) (sym e) ∙ to_string_value n in
    rw e (
      stoul-AllDigits c cs (subst AllDigits e (to_string-AllDigits n)) (omega (arith, value))
      ∙ ap parsed value)
