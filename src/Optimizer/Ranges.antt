-- ===== src/Optimizer/Ranges.antt =====
-- internal/optimizer/optimizer.go: the values of a range and the grid of several.
use coinex_bot.Prelude.{
  ℕ, zero, suc, ◌+◌, ◌-◌, ◌*◌, ◌%◌, ◌^◌, ◌≤◌, ◌<◌, ◌≡◌, refl, sym, ap, ap₂, ◌∙◌, inl, inr, true,
  false, List, [], ◌∷◌, Option, none, some, arith, leb, length, length-append, All, Bool-cases,
  Text,
}
use coinex_bot.Optimizer.{
  ParamRange, ParamSet, values_from, range_values, extend_with, extend_all, combine, grid, le_int,
}

-- The numbers v, v + step, v + 2 step and so on, all those up to `end`.
abbrev pub IsSweep : ℕ → ℕ → ℕ → List ℕ → Type 0
IsSweep v end step [] = end < v
IsSweep v end step (x ∷ xs) = (x ≡ v) × (v ≤ end) × IsSweep (v + step) end step xs

-- The step is positive, and neither the start nor the sum after the last value leaves the integers
-- of 64 bits.
abbrev pub IsSweepable : ParamRange → Type 0
IsSweepable r = (0 < r.step) × (r.start < 2 ^ 63) × (r.end + r.step < 2 ^ 63)

values_from-step :
    (fuel v next : ℕ) (r : ParamRange) (vs : List ℕ)
    → le_int v r.end ≡ true
    → (v + r.step) % 2 ^ 64 ≡ next
    → values_from fuel next r ≡ some vs
    → values_from (suc fuel) v r ≡ some (v ∷ vs)
unfolding values_from
values_from-step fuel v next r vs t n e = rw (t, n, values_from) (rw e refl)

values_from-ok :
    (fuel v : ℕ) (r : ParamRange)
    → 0 < r.step
    → r.end + r.step < 2 ^ 63
    → v < 2 ^ 63
    → r.end + 1 ≤ fuel + v
    → (vs : List ℕ) × (values_from (suc fuel) v r ≡ some vs) × IsSweep v r.end r.step vs
unfolding values_from
values_from-ok zero v r pos room small enough =
    let over : le_int v r.end ≡ false = ground arith in
    ([], rw (over, values_from) refl, omega arith)
values_from-ok (suc fuel) v r pos room small enough = elim (Bool-cases (leb v r.end)) [
  | inr over ↦
      let stop : le_int v r.end ≡ false = ground (arith, over) in
      ([], rw (stop, values_from) refl, ground (arith, over))
  | inl more ↦
      let inside : v ≤ r.end = ground (arith, more) in
      let go_on : le_int v r.end ≡ true = ground (arith, more) in
      let no_wrap : (v + r.step) % 2 ^ 64 ≡ v + r.step = omega arith in
      let (vs, e, sweep) =
        values_from-ok fuel (v + r.step) r pos room (omega arith) (omega arith) in
      (
        v ∷ vs,
        values_from-step (suc fuel) v (v + r.step) r vs go_on no_wrap e,
        (refl, inside, sweep),
      )
]

-- With a positive step, and no sum that leaves the integers, Values returns, and what it returns is the
-- start and then every step up to the end, and nothing else.
pub range_values-IsSweep :
    (r : ParamRange)
    → IsSweepable r
    → (vs : List ℕ) × (range_values r ≡ some vs) × IsSweep r.start r.end r.step vs
unfolding range_values
range_values-IsSweep r h = values_from-ok (2 ^ 64 - 1) r.start r h.0 h.2 h.1 (omega arith)

-- With a step of 0 the loop of Values goes on for ever, if it is entered at all.
pub values_from-diverges :
    (fuel : ℕ) (r : ParamRange)
    → r.step ≡ 0
    → r.end < 2 ^ 63
    → r.start ≤ r.end
    → values_from fuel r.start r ≡ none
unfolding values_from
values_from-diverges zero r z small h = refl
values_from-diverges (suc fuel) r z small h =
    let more : le_int r.start r.end ≡ true = ground arith in
    let same : (r.start + r.step) % 2 ^ 64 ≡ r.start = omega arith in
    rw (more, same, values_from-diverges fuel r z small h, values_from) refl

length-extend_with :
    (name : Text) (v : ℕ) (tail : List ParamSet) → length (extend_with name v tail) ≡ length tail
unfolding extend_with
length-extend_with name v [] = refl
length-extend_with name v (rest ∷ tail) = ap suc (length-extend_with name v tail)

length-extend_all :
    (name : Text) (vs : List ℕ) (tail : List ParamSet)
    → length (extend_all name vs tail) ≡ length vs * length tail
unfolding extend_all
length-extend_all name [] tail = omega arith
length-extend_all name (v ∷ vs) tail = grind (
  arith,
  length-append (extend_with name v tail) (extend_all name vs tail),
  length-extend_with name v tail,
  length-extend_all name vs tail,
)

abbrev pub AreSweepable : List ParamRange → Type 0
AreSweepable = All IsSweepable

abbrev pub length_or_zero : Option (List ℕ) → ℕ
length_or_zero none = 0
length_or_zero (some vs) = length vs

-- How many values a range has.
abbrev pub size : ParamRange → ℕ
size r = length_or_zero (range_values r)

abbrev pub combinations : List ParamRange → ℕ
combinations [] = 1
combinations (r ∷ rs) = size r * combinations rs

-- For such ranges Grid returns, and as many sets as the numbers of values of the ranges multiply
-- to.
pub length-grid :
    (rs : List ParamRange)
    → AreSweepable rs
    → (sets : List ParamSet) × (grid rs ≡ some sets) × (length sets ≡ combinations rs)
unfolding grid combine
length-grid [] pos = ([] ∷ [], refl, refl)
length-grid (r ∷ rs) pos =
    let (tail, e, n) = length-grid rs pos.1 in
    let (vs, e', _) = range_values-IsSweep r pos.0 in
    (
      extend_all r.name vs tail,
      ap₂ (combine r.name) e' e,
      length-extend_all r.name vs tail ∙ ap₂ (λ a b. a * b) (sym (ap length_or_zero e')) n,
    )
