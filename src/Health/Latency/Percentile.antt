-- ===== src/Health/Latency/Percentile.antt =====
-- internal/health/monitor.go, `percentile`: what the percentiles are.

use coinex_bot.Prelude.{
  ℕ, zero, suc, ◌-◌, ◌≤◌, ◌<◌, ◌≡◌, refl, List, [], ◌∷◌, some, arith, length, get_elem?, All,
}
use coinex_bot.Number.{Float}
use coinex_bot.Models.{Duration}
use coinex_bot.Health.Latency.{LatencyTracker, sort, percentile_of, percentile}
use coinex_bot.Health.Latency.Sort.{IsAscending, sort_lem, length-perm}

get_elem?-lt :
    (xs : List Duration) (i : ℕ) → i < length xs → (d : Duration) × (get_elem? xs i ≡ some d)
get_elem?-lt [] i h = absurd (omega arith)
get_elem?-lt (x ∷ xs) zero h = (x, refl)
get_elem?-lt (x ∷ xs) (suc i) h = get_elem?-lt xs i (omega arith)

All-get_elem? :
    (b : Duration) (xs : List Duration) (i : ℕ) (d : Duration)
    → All (λ y. b ≤ y) xs
    → get_elem? xs i ≡ some d
    → b ≤ d
All-get_elem? b [] i d a e = cc
All-get_elem? b (x ∷ xs) zero d a e = ground arith
All-get_elem? b (x ∷ xs) (suc i) d a e = All-get_elem? b xs i d a.1 e

IsAscending-get_elem? :
    (xs : List Duration) (i j : ℕ) (d e : Duration)
    → IsAscending xs
    → i ≤ j
    → get_elem? xs i ≡ some d
    → get_elem? xs j ≡ some e
    → d ≤ e
IsAscending-get_elem? [] i j d e v h p q = cc
IsAscending-get_elem? (x ∷ xs) zero zero d e v h p q = ground arith
IsAscending-get_elem? (x ∷ xs) zero (suc j) d e v h p q =
    ground (arith, All-get_elem? x xs j e v.0 q)
IsAscending-get_elem? (x ∷ xs) (suc i) zero d e v h p q = absurd (omega arith)
IsAscending-get_elem? (x ∷ xs) (suc i) (suc j) d e v h p q =
    IsAscending-get_elem? xs i j d e v.1 (omega arith) p q

module _ {F : Type 0} ⦃f : Float F⦄ where
  -- The rank of a percentile among `n + 1` samples: the product rounded to zero.
  abbrev pub rank : F → ℕ → ℕ
  rank p n = f.trunc (f.times (f.of_int n) p)

  percentile_of_mono :
      (p q : F) (xs : List Duration)
      → ((n : ℕ) → (rank p n ≤ rank q n) × (rank q n ≤ n))
      → (d : Duration) × (e : Duration) × (percentile_of p xs ≡ some d)
        × (percentile_of q xs ≡ some e)
        × (d ≤ e)
  unfolding percentile_of
  percentile_of_mono p q [] h = (0, 0, refl, refl, omega arith)
  percentile_of_mono p q (x ∷ xs) h =
      let ys = sort (x ∷ xs) in
      let n = length (x ∷ xs) - 1 in
      let len = length-perm (sort_lem (x ∷ xs)).1 in
      let (d, hd) = get_elem?-lt ys (rank p n) (omega (arith, h n, len)) in
      let (e, he) = get_elem?-lt ys (rank q n) (omega (arith, h n, len)) in
      (
        d,
        e,
        hd,
        he,
        IsAscending-get_elem? ys (rank p n) (rank q n) d e (sort_lem (x ∷ xs)).0 (h n).0 hd he,
      )

  -- Where the rank stays inside the samples, as it does for a `p` from 0 to 1, `percentile` never
  -- indexes out of range, and a percentile of a higher rank is at least as long.
  pub percentile_mono :
      (p q : F) (lt : LatencyTracker)
      → ((n : ℕ) → (rank p n ≤ rank q n) × (rank q n ≤ n))
      → (d : Duration) × (e : Duration) × (percentile p lt ≡ some d)
        × (percentile q lt ≡ some e)
        × (d ≤ e)
  unfolding percentile
  percentile_mono p q lt h = percentile_of_mono p q lt.samples h
