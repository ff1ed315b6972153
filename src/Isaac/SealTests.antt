-- ===== src/Isaac/SealTests.antt =====
-- The theorems on seals at concrete inputs.
use mitum.Common.{
  ◌≡◌, refl, ◌↔◌, Bool, true, false, List, [], ◌∷◌, none, some, arith, ℕ, string_discrete, ite,
}
use mitum.Common.Errors.{ok, err, failed}
use mitum.Util.Checks.{check}
use mitum.Base.Env.{Hash}
use mitum.Isaac.SealChecker.{Seal, SealCache, SealView, new_seal}
use mitum.Isaac.SealChecker.Handled.{SealCacheLaws, IsAccepted, new_seal_iff}
use mitum.Isaac.SealChecker.Once.{new_seal-once}
use mitum.Samples.{in_order, percents, small_env}

-- A cache that keeps all it is given.
unfoldable in_list : List Hash → Hash → Bool
in_list [] h = false
in_list (k ∷ ks) h = let rest = in_list ks h in ite (string_discrete k h) true rest

abbrev list_cache : SealCache
list_cache = record { Cache = List Hash; has = in_list; set = λ c h. (h ∷ c, none) }

list_cache_laws : SealCacheLaws list_cache
unfolding in_list
list_cache_laws = record { has-set = λ c h _. ground arith }

abbrev seal_view : SealView ℕ
seal_view = record {
  local_view = record {
    network_id = [];
    threshold_ratio = 66;
    timespan = 10;
    is_inside = λ a. true;
    local_address = "localsas";
    public_key = λ a. some "key";
    has_channel = λ a. true;
    proposal_fact = λ h. ok none;
    request_proposal = λ h. err failed;
  };
  max_operations = 2;
  has_operation_fact = λ h. ite (string_discrete h "old") (ok true) (ok false);
}

-- A seal of an operation that is there already and one that is new.
abbrev two_operations : Seal ℕ
two_operations = record {
  hash = "two";
  is_valid = λ id. none;
  operation_facts = some ("old" ∷ "new" ∷ []);
  ballot = none;
}

new_seal_iff_example :
    ((new_seal small_env percents in_order list_cache seal_view 6 none two_operations
        (some ("one" ∷ []))).handed_on
      ≡ true)
    ↔ IsAccepted small_env percents in_order list_cache seal_view 6 none two_operations
        (some ("one" ∷ []))
new_seal_iff_example =
    new_seal_iff small_env percents in_order list_cache seal_view 6 none two_operations
      (some ("one" ∷ []))

two_operations_handed_on :
    (new_seal small_env percents in_order list_cache seal_view 6 none two_operations
      (some ("one" ∷ []))).handed_on
    ≡ true
unfolding new_seal check in_list string_discrete
two_operations_handed_on = refl

new_seal-once_example :
    new_seal small_env percents in_order list_cache seal_view 7 none two_operations
      (new_seal small_env percents in_order list_cache seal_view 6 none two_operations
        (some ("one" ∷ []))).cache
    ≡ record {
      cache =
          (new_seal small_env percents in_order list_cache seal_view 6 none two_operations
            (some ("one" ∷ []))).cache;
      handed_on = false;
      error = none;
    }
new_seal-once_example =
    new_seal-once small_env percents in_order list_cache seal_view list_cache_laws two_operations
      ("one" ∷ []) 6 none two_operations_handed_on 7 none
