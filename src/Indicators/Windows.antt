-- ===== src/Indicators/Windows.antt =====
-- internal/indicators/indicators.go: the running sum of `SMA` against the windows that it stands for.
use coinex_bot.Prelude.{
  ℕ, zero, suc, ◌≤◌, ◌<◌, ◌≡◌, refl, sym, ap, ◌∙◌, inl, inr, true, false, List, [], ◌∷◌, ◌++◌,
  arith, if◌then◌else◌, ltb, ◌==◌, length, take, drop, map, Bool-cases, length-drop,
}
use coinex_bot.Prelude.Results.{ok}
use coinex_bot.Number.{Decimal}
use coinex_bot.Number.Laws.{IsDecimal}
use coinex_bot.Number.Sums.{sum_by, sum_by-append, sum_by-add}
use coinex_bot.Indicators.{seed_sum, roll, sma}

-- All runs of `n` neighbours, from the first on.
pub windows {ℓ} : {A : Type ℓ} → ℕ → List A → List (List A)
windows n [] = []
windows n (x ∷ xs) =
    let rest = windows n xs in if ltb (length (x ∷ xs)) n then rest else take n (x ∷ xs) ∷ rest

pub windows_short {ℓ} : {A : Type ℓ} (n : ℕ) (xs : List A) → length xs < n → windows n xs ≡ []
unfolding windows
windows_short n [] h = refl
windows_short n (x ∷ xs) h = ground (arith, windows_short n xs)

pub windows_long {ℓ} :
    {A : Type ℓ} (n : ℕ) (x : A) (xs : List A)
    → n ≤ length (x ∷ xs)
    → windows n (x ∷ xs) ≡ take n (x ∷ xs) ∷ windows n xs
unfolding windows
windows_long n x xs h = ground arith

-- One more element of a list that goes on.
take-drop_next {ℓ} :
    {A : Type ℓ} (n : ℕ) (xs : List A) (a : A) (rest : List A)
    → drop n xs ≡ a ∷ rest
    → (take (suc n) xs ≡ take n xs ++ (a ∷ [])) × (drop (suc n) xs ≡ rest)
take-drop_next zero [] a rest h = absurd (ground (arith, h))
take-drop_next zero (x ∷ xs) a rest h = let e : x ≡ a = cc in (ap (λ y. y ∷ []) e, cc)
take-drop_next (suc n) [] a rest h = absurd (ground (arith, h))
take-drop_next (suc n) (x ∷ xs) a rest h =
    let (t, d) = take-drop_next n xs a rest h in (ap (◌∷◌ x) t, d)

module _ {D : Type 0} ⦃d : Decimal D⦄ where
  abbrev pub mean : D → List D → D
  mean n xs = d.div (sum_by (λ x. x) d.zero_dec xs) n

  module _ (laws : IsDecimal D) where
    open laws use {add_comm, add_assoc, add_zero, add_sub}

    -- The window moves on by one: the new value comes in, the oldest goes out.
    shift_sum :
        (x a : D) (w : List D)
        → d.sub (d.add (sum_by (λ y. y) d.zero_dec (x ∷ w)) a) x
          ≡ sum_by (λ y. y) d.zero_dec (w ++ (a ∷ []))
    unfolding sum_by
    shift_sum x a w =
        let s = sum_by (λ y. y) d.zero_dec w in
        let first = sum_by-add (λ y. y) laws x d.zero_dec w in
        let last = sum_by-append (λ y. y) d.zero_dec w (a ∷ []) in
        cc (first, last, add_assoc s x a, add_comm x a, add_assoc s a x, add_sub (d.add s a) x)

    roll-windows :
        (n : D) (q : ℕ) (xs : List D) (x : D) (ahead : List D)
        → drop q xs ≡ ahead
        → roll n (seed_sum (suc q) (x ∷ xs)) ahead (x ∷ xs) ≡ map (mean n) (windows (suc q) xs)
    unfolding roll
    roll-windows n q xs x [] e =
        let short = windows_short (suc q) xs (omega (arith, ap length e, length-drop q xs)) in
        rw short refl
    roll-windows n q [] x (a ∷ rest) e =
        absurd (omega (arith, ap length e, length-drop {A = D} q []))
    roll-windows n q (y ∷ ys) x (a ∷ rest) e =
        let (t, e') = take-drop_next q (y ∷ ys) a rest e in
        let long : suc q ≤ length (y ∷ ys) = omega (arith, ap length e, length-drop q (y ∷ ys)) in
        let sum_eq = shift_sum x a (take q (y ∷ ys)) ∙ sym (ap (sum_by (λ z. z) d.zero_dec) t) in
        ap (λ s. d.div s n ∷ roll n s rest (y ∷ ys)) sum_eq
        ∙ ap (◌∷◌ (mean n (take (suc q) (y ∷ ys)))) (roll-windows n q ys y rest e')
        ∙ sym (ap (map (mean n)) (windows_long (suc q) y ys long))

    -- With the laws of exact addition, SMA with a positive period gives the mean of each window of that
    -- many neighbours, in order, though it adds each value only once and takes it off once.
    pub sma-windows :
        (vals : List D) (period : ℕ)
        → 0 < period
        → sma vals period ≡ ok (map (mean (d.new_from_int period)) (windows period vals))
    unfolding sma windows
    sma-windows vals zero pos = absurd (omega arith)
    sma-windows [] (suc q) pos = let few : ltb 0 (suc q) ≡ true = ground arith in rw few refl
    sma-windows (x ∷ xs) (suc q) pos = elim (Bool-cases (ltb (length (x ∷ xs)) (suc q))) [
      | inl few ↦ let short = windows_short (suc q) xs (ground (arith, few)) in rw (few, short) refl
      | inr many ↦
          let positive : (suc q == 0) ≡ false = ground arith in
          rw (many, positive, sym (roll-windows (d.new_from_int (suc q)) q xs x (drop q xs) refl))
            refl
    ]
