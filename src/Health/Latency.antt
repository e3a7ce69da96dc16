-- ===== src/Health/Latency.antt =====
-- internal/health/monitor.go, `LatencyTracker`: the last latencies, and their percentiles.
pub mod Sort
pub mod Percentile
pub mod Kept
use coinex_bot.Prelude.{
  ℕ, zero, ◌-◌, Option, none, some, List, [], ◌∷◌, ◌++◌, if◌then◌else◌, ltb, length, drop,
  get_elem?,
}
use coinex_bot.Number.{Float}
use coinex_bot.Models.{Duration}

pub record LatencyTracker : Type 0 where
  pub samples : List Duration
  pub max_len : ℕ

unfoldable pub new_latency_tracker : ℕ → LatencyTracker
new_latency_tracker max_len = record { samples = []; max_len = max_len }

unfoldable pub record_sample : Duration → LatencyTracker → LatencyTracker
record_sample d lt =
    let samples = lt.samples ++ (d ∷ []) in
    if ltb lt.max_len (length samples)
    then record lt { samples = drop 1 samples }
    else record lt { samples = samples }

-- The inner loop of the sort, which swaps `x` to the left while it is the smaller of the two. The
-- part of the array to the left of `x` is held with the nearest element first.
unfoldable pub slide : Duration → List Duration → List Duration
slide x [] = x ∷ []
slide x (y ∷ left) = if ltb x y then y ∷ slide x left else x ∷ y ∷ left

-- The outer loop: `left` is sorted, nearest element first, and `right` is still to be read.
unfoldable pub sort_from : List Duration → List Duration → List Duration
unfolding slide
sort_from left [] = left
sort_from left (x ∷ right) = sort_from (slide x left) right

-- The array from its first element on.
unfoldable pub onto : List Duration → List Duration → List Duration
onto [] ys = ys
onto (x ∷ xs) ys = onto xs (x ∷ ys)

unfoldable pub sort : List Duration → List Duration
unfolding sort_from onto
sort xs = onto (sort_from [] xs) []

module _ {F : Type 0} ⦃f : Float F⦄ where
  -- `none` is the panic of an index out of range.
  unfoldable pub percentile_of : F → List Duration → Option Duration
  percentile_of p [] = some 0
  percentile_of p (x ∷ xs) =
      get_elem? (sort (x ∷ xs)) (f.trunc (f.times (f.of_int (length (x ∷ xs) - 1)) p))

  unfoldable pub percentile : F → LatencyTracker → Option Duration
  unfolding percentile_of
  percentile p lt = percentile_of p lt.samples

module _ (F : Type 0) ⦃f : Float F⦄ where
  unfoldable pub p50 : LatencyTracker → Option Duration
  p50 = percentile (f.literal 50 100)

  unfoldable pub p95 : LatencyTracker → Option Duration
  p95 = percentile (f.literal 95 100)

  unfoldable pub p99 : LatencyTracker → Option Duration
  p99 = percentile (f.literal 99 100)
