-- ===== src/Base/Threshold.antt =====
-- base/threshold.go. A ratio is a float64; the operations on it are a parameter (`RatioOps`).
use mitum.Common.{
  ℕ, Bool, ◌≡◌, ◌≤◌, Option, none, some, arith, ltb, ◌==◌, if◌then◌else◌, true, false, ◌<◌,
}
use mitum.Common.Errors.{Error, Result, ok, err, invalid, panicked}

-- The float64 arithmetic that the file uses of the language: the comparisons of `IsValid`, `!=`,
-- and `uint(math.Ceil(float64(total) * (ratio / 100)))`.
pub record RatioOps : Type 1 where
  pub Ratio : Type 0
  pub lt_one : Ratio → Bool
  pub gt_hundred : Ratio → Bool
  pub equal : Ratio → Ratio → Bool
  pub ceil_share : ℕ → Ratio → ℕ

pub record Threshold (Ratio : Type 0) : Type 0 where
  pub total : ℕ
  pub threshold : ℕ
  pub ratio : Ratio

module _ (ops : RatioOps) where
  open ops use {Ratio, lt_one, gt_hundred, ceil_share}

  unfoldable pub ratio_is_valid : Ratio → Option Error
  ratio_is_valid tr =
      if lt_one tr then some invalid else if gt_hundred tr then some invalid else none

  unfoldable pub is_valid : Threshold Ratio → Option Error
  unfolding ratio_is_valid
  is_valid thr = elim (ratio_is_valid thr.ratio) [
    | some e ↦ some e
    | none ↦
        if ltb thr.total 1
        then some invalid
        else if ltb thr.total thr.threshold
        then some invalid
        else none
  ]

  -- The threshold is returned beside the error, as in the source.
  unfoldable pub new_threshold : ℕ → Ratio → Threshold Ratio × Option Error
  unfolding is_valid
  new_threshold total ratio =
      let thr : Threshold Ratio = record {
        total = total;
        threshold = ceil_share total ratio;
        ratio = ratio;
      } in
      (thr, is_valid thr)

  -- `panic(err)` is the result `panicked`.
  unfoldable pub must_new_threshold : ℕ → Ratio → Result (Threshold Ratio)
  unfolding new_threshold
  must_new_threshold total ratio =
      let (thr, e) = new_threshold total ratio in elim e [ some _ ↦ err panicked | none ↦ ok thr ]

  unfoldable pub equal : Threshold Ratio → Threshold Ratio → Bool
  equal thr b =
      if thr.total == b.total
      then if ops.equal thr.ratio b.ratio
        then if thr.threshold == b.threshold then true else false
        else false
      else false

  -- A threshold without error counts at least one node and asks for no more votes than there are
  -- nodes; its ratio is neither found to be less than 1 nor to be greater than 100.
  new_threshold_bounds :
      (total : ℕ) (ratio : Ratio)
      → (new_threshold total ratio).1 ≡ none
      → (0 < total)
        × ((new_threshold total ratio).0.total ≡ total)
        × ((new_threshold total ratio).0.threshold ≤ total)
        × (lt_one ratio ≡ false)
        × (gt_hundred ratio ≡ false)
  unfolding new_threshold
  new_threshold_bounds total ratio h = ground arith

  -- `MustNewThreshold` panics exactly where `NewThreshold` returns an error, and gives the same
  -- threshold otherwise.
  pub must_new_threshold-new_threshold :
      (total : ℕ) (ratio : Ratio)
      → must_new_threshold total ratio ≡ (elim ((new_threshold total ratio).1) [
        | none ↦ ok ((new_threshold total ratio).0)
        | some _ ↦ err panicked
      ])
  unfolding must_new_threshold
  must_new_threshold-new_threshold total ratio = ground arith
