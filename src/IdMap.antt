-- ===== src/IdMap.antt =====
-- `std::map` from numbers to numbers as an association list: assignment through `operator[]`, `find`
-- and `erase`.
use boost_asio_study.Base.{
  ℕ, List, [], ◌∷◌, Option, none, some, ◌≡◌, refl, arith, ◌==◌, if◌then◌else◌,
}

abbrev pub IdMap : Type 0
IdMap = List (ℕ × ℕ)

unfoldable pub find_id : ℕ → IdMap → Option ℕ
find_id k [] = none
find_id k ((j, v) ∷ m) = let rest = find_id k m in if j == k then some v else rest

unfoldable pub assign_id : ℕ → ℕ → IdMap → IdMap
assign_id k v [] = (k, v) ∷ []
assign_id k v ((j, w) ∷ m) =
    let rest = assign_id k v m in if j == k then (j, v) ∷ m else (j, w) ∷ rest

-- The entry under the key, of which there is at most one.
unfoldable pub erase_id : ℕ → IdMap → IdMap
erase_id k [] = []
erase_id k ((j, w) ∷ m) = let rest = erase_id k m in if j == k then rest else (j, w) ∷ rest

pub find_id-assign_id :
    (k j v : ℕ) (m : IdMap) → find_id j (assign_id k v m) ≡ (if k == j then some v else find_id j m)
unfolding find_id assign_id
find_id-assign_id k j v [] = refl
find_id-assign_id k j v ((i, w) ∷ m) = ground (arith, find_id-assign_id k j v m)

pub find_id-erase_id :
    (k j : ℕ) (m : IdMap) → find_id j (erase_id k m) ≡ (if k == j then none else find_id j m)
unfolding find_id erase_id
find_id-erase_id k j [] = ground arith
find_id-erase_id k j ((i, w) ∷ m) = ground (arith, find_id-erase_id k j m)
