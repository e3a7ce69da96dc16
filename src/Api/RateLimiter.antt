-- ===== src/Api/RateLimiter.antt =====
-- internal/api/rate_limiter.go: the token bucket. The clock and the wake-ups of the wait are given.
use coinex_bot.Prelude.{
  ◌-◌, ◌≡◌, inl, inr, Bool, Bool-cases, true, false, List, [], ◌∷◌, Option, none, some,
  Option-cases, if◌then◌else◌,
}
use coinex_bot.Number.{Float}
use coinex_bot.Models.{Time}
use coinex_bot.Health.Errors.{seconds}

pub record RateLimiter (F : Type 0) : Type 0 where
  pub tokens : F
  pub max_tokens : F
  pub refill_rate : F
  pub last_refill : Time

-- What comes after a round: the next wake-up, or the end of the context.
pub data Wake : Type 0 where
  wakes : Time → Wake
  cancelled : Wake

module _ {F : Type 0} ⦃f : Float F⦄ where
  open f use {of_int, plus, minus, times, over, lt, le}

  unfoldable pub new_rate_limiter : Time → F → RateLimiter F
  new_rate_limiter now rps = record {
    tokens = rps;
    max_tokens = rps;
    refill_rate = rps;
    last_refill = now;
  }

  -- The clock is monotonic, so `now` is not before the last refill.
  unfoldable pub refill : Time → RateLimiter F → RateLimiter F
  unfolding seconds
  refill now r =
      let filled = plus r.tokens (times (seconds (now - r.last_refill)) r.refill_rate) in
      record r {
        tokens = if lt r.max_tokens filled then r.max_tokens else filled;
        last_refill = now;
      }

  -- One round of `Wait`: `none` lets the caller through, `some needed` waits that many seconds.
  unfoldable pub attempt : Time → RateLimiter F → RateLimiter F × Option F
  unfolding refill
  attempt now r =
      let r' = refill now r in
      if le (of_int 1) r'.tokens
      then (record r' { tokens = minus r'.tokens (of_int 1) }, none)
      else (r', some (over (minus (of_int 1) r'.tokens) r'.refill_rate))

  -- `true` is a token, `false` the error of the context. `Wait` goes on for as long as it is woken;
  -- what is left is the pair of `none`.
  unfoldable pub wait : Time → RateLimiter F → List Wake → RateLimiter F × Option Bool
  wait now r [] =
      let (r', needed) = attempt now r in (r', elim needed [ none ↦ some true | some _ ↦ none ])
  wait now r (cancelled ∷ ws) =
      let (r', needed) = attempt now r in
      (r', elim needed [ none ↦ some true | some _ ↦ some false ])
  wait now r (wakes t ∷ ws) =
      let (r', needed) = attempt now r in
      let rest = wait t r' ws in elim needed [ none ↦ (r', some true) | some _ ↦ rest ]

  abbrev IsBounded : RateLimiter F → Type 0
  IsBounded r = lt r.max_tokens r.tokens ≡ false

  module _ (lt_irrefl : (x : F) → lt x x ≡ false) where
    refill-IsBounded : (now : Time) (r : RateLimiter F) → IsBounded (refill now r)
    unfolding refill
    refill-IsBounded now r =
        let filled = plus r.tokens (times (seconds (now - r.last_refill)) r.refill_rate) in
        elim (Bool-cases (lt r.max_tokens filled)) [
          | inl e ↦ rw e (lt_irrefl r.max_tokens)
          | inr e ↦ rw e e
        ]

    module _ (minus_lem : (x y : F) → lt y x ≡ false → lt y (minus x (of_int 1)) ≡ false) where
      attempt-IsBounded : (now : Time) (r : RateLimiter F) → IsBounded (attempt now r).0
      unfolding attempt
      attempt-IsBounded now r =
          let r' = refill now r in
          elim (Bool-cases (le (of_int 1) r'.tokens)) [
            | inl e ↦ rw e (minus_lem r'.tokens r'.max_tokens (refill-IsBounded now r))
            | inr e ↦ rw e (refill-IsBounded now r)
          ]

      -- Once `Wait` has tried, however often it is woken, the bucket holds at most its maximum. It is
      -- supposed of the floats that no number is below itself, and that taking 1 from a number does
      -- not bring it above a bound.
      pub wait-IsBounded :
          (now : Time) (r : RateLimiter F) (ws : List Wake) → IsBounded (wait now r ws).0
      unfolding wait
      wait-IsBounded now r [] = attempt-IsBounded now r
      wait-IsBounded now r (cancelled ∷ ws) = attempt-IsBounded now r
      wait-IsBounded now r (wakes t ∷ ws) = elim (Option-cases (attempt now r).1) [
        | inl e ↦ rw (e, wait) (attempt-IsBounded now r)
        | inr (needed, e) ↦ rw (e, wait) (wait-IsBounded t (attempt now r).0 ws)
      ]
