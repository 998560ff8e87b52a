-- ===== src/Dict.antt =====
-- `std::map<std::string, std::string>` as an association list: assignment through `operator[]`, and
-- the value under a key.
use boost_asio_study.Base.{
  Option, none, some, List, [], ◌∷◌, ◌≡◌, refl, arith, Bytes, bytes_eq, bytes_eq_iff, if◌then◌else◌,
}

abbrev pub Dict : Type 0
Dict = List (Bytes × Bytes)

unfoldable lookup : Bytes → Dict → Option Bytes
lookup k [] = none
lookup k ((j, v) ∷ m) = let rest = lookup k m in if bytes_eq j k then some v else rest

-- `m[k] = v`
unfoldable pub insert : Bytes → Bytes → Dict → Dict
insert k v [] = (k, v) ∷ []
insert k v ((j, w) ∷ m) =
    let rest = insert k v m in if bytes_eq j k then (j, v) ∷ m else (j, w) ∷ rest

lookup-insert :
    (k j v : Bytes) (m : Dict)
    → lookup j (insert k v m) ≡ (if bytes_eq k j then some v else lookup j m)
unfolding lookup insert
lookup-insert k j v [] = refl
lookup-insert k j v ((i, w) ∷ m) =
    ground (arith, bytes_eq_iff k j, bytes_eq_iff i k, bytes_eq_iff i j, lookup-insert k j v m)
