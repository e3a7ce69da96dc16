-- ===== src/Engine/Backoff.antt =====
-- internal/engine/engine.go, `Run`: the wait after a tick that failed.
use coinex_bot.Prelude.{
  ℕ, zero, suc, ◌*◌, ◌^◌, ◌≡◌, refl, ◌∙◌, ap, Bool, true, false, List, [], ◌∷◌, ◌++◌, arith, ltb,
  if◌then◌else◌,
}
use coinex_bot.Engine.{next_backoff, backoff_after, backoff_start, backoff_cap}

abbrev pub failures : ℕ → List Bool
failures zero = []
failures (suc n) = true ∷ failures n

abbrev pub capped : ℕ → ℕ
capped b = if ltb backoff_cap b then backoff_cap else b

next_backoff-capped : (b : ℕ) → next_backoff true (capped b) ≡ capped (b * 2)
unfolding next_backoff
next_backoff-capped b = ground arith

pow_suc : (b n : ℕ) → b * 2 * 2 ^ n ≡ b * 2 ^ suc n
pow_suc b n = grind arith

failures-capped : (n b : ℕ) → backoff_after (failures n) (capped b) ≡ capped (b * 2 ^ n)
unfolding backoff_after
failures-capped zero b = ap capped {x = b} {y = b * 2 ^ 0} (omega arith)
failures-capped (suc n) b =
    ap (backoff_after (failures n)) (next_backoff-capped b)
    ∙ failures-capped n (b * 2)
    ∙ ap capped (pow_suc b n)

backoff_after-append :
    (xs ys : List Bool) (b : ℕ) → backoff_after (xs ++ ys) b ≡ backoff_after ys (backoff_after xs b)
unfolding backoff_after
backoff_after-append [] ys b = refl
backoff_after-append (x ∷ xs) ys b = backoff_after-append xs ys (next_backoff x b)

-- After n failed ticks in a row that follow a tick that succeeded, whatever came before, the next
-- wait is five seconds doubled n times, and five minutes where that is more.
pub backoff_after-failures :
    (before : List Bool) (n b : ℕ)
    → backoff_after (before ++ (false ∷ failures n)) b
      ≡ (if ltb backoff_cap (backoff_start * 2 ^ n) then backoff_cap else backoff_start * 2 ^ n)
unfolding backoff_after next_backoff
backoff_after-failures before n b =
    backoff_after-append before (false ∷ failures n) b ∙ failures-capped n backoff_start
