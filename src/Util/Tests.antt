-- ===== src/Util/Tests.antt =====
-- The theorems of the package at concrete inputs.
use mitum.Common.{ℕ, ◌≡◌, ◌↔◌, Bool, true, false, List, [], ◌∷◌, ◌++◌, Option, none, some, arith}
use mitum.Common.Int.{negsuc}
use mitum.Common.Errors.{Error, ok, invalid, failed}
use mitum.Util.Bytes
use mitum.Util.Bytes.{
  bytes_to_uint64-uint64_to_bytes, bytes_to_int64-int64_to_bytes, uint64_to_bytes-injective,
}
use mitum.Util.Checks
use mitum.Util.Checks.{
  Validity, AllValid, ValidToNil, check_valid_iff, LetsPass, pure_checks, check_iff,
}

bytes_to_int64-int64_to_bytes_example :
    Bytes.bytes_to_int64 (Bytes.int64_to_bytes (negsuc 4) ++ 1 ∷ []) ≡ ok (negsuc 4)
bytes_to_int64-int64_to_bytes_example =
    bytes_to_int64-int64_to_bytes (negsuc 4) (1 ∷ []) (omega arith) (omega arith)

abbrev two_bytes : ℕ
two_bytes = 258

abbrev validities : List Validity
validities = some none ∷ none ∷ some (some invalid) ∷ []

check_valid_iff_example :
    ((Checks.check_valid false validities ≡ none) ↔ AllValid validities)
    × ((Checks.check_func validities ≡ none) ↔ AllValid validities)
    × ((Checks.check_valid true validities ≡ none) ↔ ValidToNil validities)
check_valid_iff_example = check_valid_iff validities

abbrev results : List (Bool × Option Error)
results = (true, none) ∷ (false, none) ∷ (false, some failed) ∷ []
