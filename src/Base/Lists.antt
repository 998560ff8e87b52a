-- ===== src/Base/Lists.antt =====
-- Byte strings, their length over the native numbers, and predicates on lists.
use Prim.Native.Nat.{◌≤◌, ◌-◌, ℕ, zero, suc, ◌+◌}
use Prim.Native.Nat.{compare, Ordering}
use mathlib.Core.Option
use mathlib.Core.Option.{Option, none, some}
use native.Mathlib.Nat.{zero-add, suc-add}
use Prim.Native.Nat.{◌-◌, ◌≤◌}
use Prim.Native.Char.{code}
use Prim.Native.String.{String}
use mathlib.Core.Path.{◌≡◌, refl, ap}
use mathlib.Core.Logic.{◌≢◌}
use mathlib.Core.List.{List, [], ◌∷◌, ◌++◌}
use native.Mathlib.Omega.{arith}

abbrev pub Bytes : Type 0
Bytes = List ℕ

-- The bytes of a text literal; every literal of this library is ASCII.
abbrev pub codes : String → Bytes
codes String.[] = []
codes (String.◌∷◌ c s) = code c ∷ codes s

module _ {ℓ} {A : Type ℓ} where
  abbrev pub length : List A → ℕ
  length [] = 0
  length (x ∷ xs) = suc (length xs)

  pub length-append : (xs ys : List A) → length (xs ++ ys) ≡ length xs + length ys
  length-append [] ys = omega arith
  length-append (x ∷ xs) ys = omega (arith, length-append xs ys)

module _ {ℓ κ} {A : Type ℓ} (P : A → Type κ) where
  abbrev pub All : List A → Type κ
  All [] = Unit
  All (x ∷ xs) = P x × All xs

abbrev pub Lacks : ℕ → Bytes → Type 0
Lacks b = All (λ c. c ≢ b)

pub Lacks-append : (b : ℕ) (xs ys : Bytes) → Lacks b xs → Lacks b ys → Lacks b (xs ++ ys)
Lacks-append b [] ys hx hy = hy
Lacks-append b (x ∷ xs) ys hx hy = (hx.0, Lacks-append b xs ys hx.1 hy)

-- `str.find(c)`, `str.substr(0, n)` and `str.substr(n)`
abbrev pub find : ℕ → Bytes → Option ℕ
find c [] = none
find c (x ∷ xs) =
    let rest = Option.map suc (find c xs) in elim (compare x c) [ Ordering.eq ↦ some 0 | _ ↦ rest ]

module _ {ℓ} {A : Type ℓ} where
  abbrev pub take : ℕ → List A → List A
  take zero xs = []
  take (suc n) [] = []
  take (suc n) (x ∷ xs) = x ∷ take n xs

  abbrev pub drop : ℕ → List A → List A
  drop zero xs = xs
  drop (suc n) [] = []
  drop (suc n) (x ∷ xs) = drop n xs

  pub take-add : (m n : ℕ) (xs : List A) → take (m + n) xs ≡ take m xs ++ take n (drop m xs)
  take-add zero n xs = rw (zero-add n)
  take-add (suc m) zero [] = ground arith
  take-add (suc m) (suc n) [] = rw (suc-add m (suc n))
  take-add (suc m) n (x ∷ xs) = ground (arith, take-add m n xs, suc-add m n)

  pub drop-add : (m n : ℕ) (xs : List A) → drop (m + n) xs ≡ drop n (drop m xs)
  drop-add zero n xs = rw (zero-add n)
  drop-add (suc m) zero [] = ground arith
  drop-add (suc m) (suc n) [] = rw (suc-add m (suc n))
  drop-add (suc m) n (x ∷ xs) = ground (arith, drop-add m n xs, suc-add m n)

  pub length-drop : (n : ℕ) (xs : List A) → length (drop n xs) ≡ length xs - n
  length-drop zero xs = omega arith
  length-drop (suc n) [] = omega arith
  length-drop (suc n) (x ∷ xs) = omega (arith, length-drop n xs)

  pub length-take : (n : ℕ) (xs : List A) → n ≤ length xs → length (take n xs) ≡ n
  length-take zero xs h = refl
  length-take (suc n) [] h = absurd (omega arith)
  length-take (suc n) (x ∷ xs) h = omega (arith, length-take n xs)

  pub take-drop : (n : ℕ) (xs : List A) → take n xs ++ drop n xs ≡ xs
  take-drop zero xs = refl
  take-drop (suc n) [] = refl
  take-drop (suc n) (x ∷ xs) = ap (◌∷◌ x) (take-drop n xs)

  pub take-length : (xs : List A) → take (length xs) xs ≡ xs
  take-length [] = refl
  take-length (x ∷ xs) = ap (◌∷◌ x) (take-length xs)

  pub drop-length : (xs : List A) → drop (length xs) xs ≡ []
  drop-length [] = refl
  drop-length (x ∷ xs) = drop-length xs

  pub take-append_left : (xs ys : List A) → take (length xs) (xs ++ ys) ≡ xs
  take-append_left [] ys = refl
  take-append_left (x ∷ xs) ys = ap (◌∷◌ x) (take-append_left xs ys)

  pub drop-append_left : (xs ys : List A) → drop (length xs) (xs ++ ys) ≡ ys
  drop-append_left [] ys = refl
  drop-append_left (x ∷ xs) ys = drop-append_left xs ys

  pub drop-append_cons : (xs ys : List A) (y : A) → drop (length xs + 1) (xs ++ y ∷ ys) ≡ ys
  drop-append_cons [] ys y = refl
  drop-append_cons (x ∷ xs) ys y = ground (arith, drop-append_cons xs ys y)

pub find-append_cons :
    (c : ℕ) (xs ys : Bytes) → Lacks c xs → find c (xs ++ c ∷ ys) ≡ some (length xs)
find-append_cons c [] ys h = ground arith
find-append_cons c (x ∷ xs) ys h = ground (arith, find-append_cons c xs ys h.1)
