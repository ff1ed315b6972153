-- ===== src/Isaac/BlockTests.antt =====
-- The theorem on rows of manifests at a concrete input.
use mitum.Common.{ℕ, zero, ◌≡◌, refl, ◌↔◌, ◌≢◌, [], ◌∷◌, none, some, get_elem?, string_discrete}
use mitum.Common.Int.{pos, negsuc, ◌+ℤ◌}
use mitum.Common.Errors.{panicked}
use mitum.Isaac.BlockChecker.{Manifest, check_serialized}
use mitum.Isaac.BlockChecker.Serialized.{AllLinked, check_serialized_iff}

abbrev genesis_manifest : Manifest
genesis_manifest = record {
  hash = "genesis";
  height = negsuc 0;
  previous_block = "none";
  is_valid = λ id. none;
}

abbrev second_manifest : Manifest
second_manifest = record {
  hash = "second";
  height = pos 0;
  previous_block = "genesis";
  is_valid = λ id. none;
}

two_manifests_pass : check_serialized [] (some genesis_manifest ∷ some second_manifest ∷ []) ≡ none
unfolding check_serialized string_discrete
two_manifests_pass = refl

-- A nil manifest behind another is not reported as an error.
nil_behind_panics : check_serialized [] (some genesis_manifest ∷ none ∷ []) ≡ some panicked
unfolding check_serialized
nil_behind_panics = refl

check_serialized_iff_example :
    ((check_serialized [] (some genesis_manifest ∷ some second_manifest ∷ []) ≡ none) ↔ (
      (some genesis_manifest ∷ some second_manifest ∷ [] ≢ [])
      × AllLinked [] (some genesis_manifest ∷ some second_manifest ∷ [])))
    × (check_serialized [] (some genesis_manifest ∷ some second_manifest ∷ []) ≡ none
        → (first m : Manifest) (i : ℕ)
        → get_elem? (some genesis_manifest ∷ some second_manifest ∷ []) zero ≡ some (some first)
        → get_elem? (some genesis_manifest ∷ some second_manifest ∷ []) i ≡ some (some m)
        → m.height ≡ first.height +ℤ pos i)
check_serialized_iff_example =
    check_serialized_iff [] (some genesis_manifest ∷ some second_manifest ∷ [])
