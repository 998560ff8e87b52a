-- ===== src/Base/Positions.antt =====
-- Lists by position: reading and writing an element, and a default where there is none.
use Prim.Native.Nat.{ℕ, zero, suc}
use boost_asio_study.Base.Lists.{length}
use boost_asio_study.Base.Tests.{if◌then◌else◌, ◌==◌, ltb}
use mathlib.Core.Bool.{false, ◌&&◌}
use mathlib.Core.List.{List, [], ◌∷◌, ◌++◌}
use mathlib.Core.Option.{Option, none, some}
use mathlib.Core.Path.{◌≡◌, refl, ap}
use native.Mathlib.Omega.{arith}

module _ {ℓ} {A : Type ℓ} where
  abbrev pub get_elem? : List A → ℕ → Option A
  get_elem? [] i = none
  get_elem? (x ∷ xs) zero = some x
  get_elem? (x ∷ xs) (suc i) = get_elem? xs i

  abbrev pub set : List A → ℕ → A → List A
  set [] i v = []
  set (x ∷ xs) zero v = v ∷ xs
  set (x ∷ xs) (suc i) v = x ∷ set xs i v

  pub length-set : (xs : List A) (i : ℕ) (v : A) → length (set xs i v) ≡ length xs
  length-set [] i v = refl
  length-set (x ∷ xs) zero v = omega arith
  length-set (x ∷ xs) (suc i) v = omega (arith, length-set xs i v)

  pub get_elem?-set :
      (xs : List A) (i j : ℕ) (v x : A)
      → get_elem? xs i ≡ some x
      → get_elem? (set xs i v) j ≡ (if i == j then some v else get_elem? xs j)
  get_elem?-set [] i j v x h = ground arith
  get_elem?-set (y ∷ xs) zero zero v x h = refl
  get_elem?-set (y ∷ xs) zero (suc j) v x h = ground arith
  get_elem?-set (y ∷ xs) (suc i) zero v x h = ground arith
  get_elem?-set (y ∷ xs) (suc i) (suc j) v x h = ground (arith, get_elem?-set xs i j v x h)

  pub get_elem?-set_self :
      (xs : List A) (i : ℕ) (v x : A) → get_elem? xs i ≡ some x → get_elem? (set xs i v) i ≡ some v
  get_elem?-set_self xs i v x h = ground (arith, get_elem?-set xs i i v x h)

  pub get_elem?-set_other :
      (xs : List A) (i j : ℕ) (v : A) → (i == j) ≡ false → get_elem? (set xs i v) j ≡ get_elem? xs j
  get_elem?-set_other [] i j v ne = refl
  get_elem?-set_other (x ∷ xs) zero zero v ne = ground arith
  get_elem?-set_other (x ∷ xs) zero (suc j) v ne = refl
  get_elem?-set_other (x ∷ xs) (suc i) zero v ne = refl
  get_elem?-set_other (x ∷ xs) (suc i) (suc j) v ne = get_elem?-set_other xs i j v (ground arith)

  pub get_elem?-length : (xs : List A) → get_elem? xs (length xs) ≡ none
  get_elem?-length [] = refl
  get_elem?-length (x ∷ xs) = get_elem?-length xs

  pub get_elem?-last : (xs : List A) (v : A) → get_elem? (xs ++ v ∷ []) (length xs) ≡ some v
  get_elem?-last [] v = refl
  get_elem?-last (x ∷ xs) v = get_elem?-last xs v

  pub set-last : (xs : List A) (v w : A) → set (xs ++ v ∷ []) (length xs) w ≡ xs ++ w ∷ []
  set-last [] v w = refl
  set-last (x ∷ xs) v w = ap (◌∷◌ x) (set-last xs v w)

  pub get_elem?-append :
      (xs : List A) (j : ℕ) (v : A)
      → get_elem? (xs ++ v ∷ []) j ≡ (if length xs == j then some v else get_elem? xs j)
  get_elem?-append [] zero v = refl
  get_elem?-append [] (suc j) v = ground arith
  get_elem?-append (x ∷ xs) zero v = ground arith
  get_elem?-append (x ∷ xs) (suc j) v = ground (arith, get_elem?-append xs j v)

module _ {ℓ} {A : Type ℓ} where
  abbrev pub replicate : ℕ → A → List A
  replicate zero v = []
  replicate (suc n) v = v ∷ replicate n v

  pub length-replicate : (n : ℕ) (v : A) → length (replicate n v) ≡ n
  length-replicate zero v = refl
  length-replicate (suc n) v = omega (arith, length-replicate n v)

  abbrev pub get_or : List A → ℕ → A → A
  get_or [] i v = v
  get_or (x ∷ xs) zero v = x
  get_or (x ∷ xs) (suc i) v = get_or xs i v

  -- Out of bounds nothing changes.
  abbrev pub modify : ℕ → (A → A) → List A → List A
  modify i f [] = []
  modify zero f (x ∷ xs) = f x ∷ xs
  modify (suc i) f (x ∷ xs) = x ∷ modify i f xs

  pub length-modify : (i : ℕ) (f : A → A) (xs : List A) → length (modify i f xs) ≡ length xs
  length-modify i f [] = refl
  length-modify zero f (x ∷ xs) = omega arith
  length-modify (suc i) f (x ∷ xs) = omega (arith, length-modify i f xs)

  pub get_or-modify :
      (i j : ℕ) (f : A → A) (xs : List A) (v : A)
      → get_or (modify j f xs) i v
        ≡ (if (j == i) && ltb i (length xs) then f (get_or xs i v) else get_or xs i v)
  get_or-modify i j f [] v = ground arith
  get_or-modify zero zero f (x ∷ xs) v = ground arith
  get_or-modify (suc i) zero f (x ∷ xs) v = ground arith
  get_or-modify zero (suc j) f (x ∷ xs) v = ground arith
  get_or-modify (suc i) (suc j) f (x ∷ xs) v = ground (arith, get_or-modify i j f xs v)

  get_or-replicate : (n i : ℕ) (v : A) → get_or (replicate n v) i v ≡ v
  get_or-replicate zero i v = refl
  get_or-replicate (suc n) zero v = refl
  get_or-replicate (suc n) (suc i) v = get_or-replicate n i v

  -- New elements that are the default show nothing new at any place.
  pub get_or-append_replicate :
      (xs : List A) (n i : ℕ) (v : A) → get_or (xs ++ replicate n v) i v ≡ get_or xs i v
  get_or-append_replicate [] n i v = get_or-replicate n i v
  get_or-append_replicate (x ∷ xs) n zero v = refl
  get_or-append_replicate (x ∷ xs) n (suc i) v = get_or-append_replicate xs n i v
