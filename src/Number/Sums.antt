-- ===== src/Number/Sums.antt =====
-- The loops `total := decimal.Zero; for … { total = total.Add(x) }`.
use mathlib.Core.List.{Permᴰ}
use coinex_bot.Prelude.{◌≡◌, refl, ap, ◌∙◌, List, [], ◌∷◌, ◌++◌}
use coinex_bot.Number.{Decimal}
use coinex_bot.Number.Laws.{IsDecimal}

module _ {ℓ} {A : Type ℓ} {D : Type 0} ⦃d : Decimal D⦄ (amount : A → D) where
  unfoldable pub sum_by : D → List A → D
  sum_by total [] = total
  sum_by total (x ∷ xs) = sum_by (d.add total (amount x)) xs

  pub sum_by-append :
      (total : D) (xs ys : List A) → sum_by total (xs ++ ys) ≡ sum_by (sum_by total xs) ys
  unfolding sum_by
  sum_by-append total [] ys = refl
  sum_by-append total (x ∷ xs) ys = sum_by-append (d.add total (amount x)) xs ys

  module _ (laws : IsDecimal D) where
    open laws use {add_comm, add_assoc, add_zero}

    add_right_comm : (x y z : D) → d.add (d.add x y) z ≡ d.add (d.add x z) y
    add_right_comm x y z = cc (add_assoc x y z, add_assoc x z y, add_comm y z)

    -- What is added first can be added last.
    pub sum_by-add :
        (a total : D) (xs : List A) → sum_by (d.add total a) xs ≡ d.add (sum_by total xs) a
    unfolding sum_by
    sum_by-add a total [] = refl
    sum_by-add a total (x ∷ xs) =
        rw (add_right_comm total a (amount x)) (sum_by-add a (d.add total (amount x)) xs)

    -- The order of the summands does not matter.
    pub sum_by-perm : (total : D) {xs ys : List A} → Permᴰ xs ys → sum_by total xs ≡ sum_by total ys
    unfolding sum_by
    sum_by-perm total Permᴰ.nil = refl
    sum_by-perm total (Permᴰ.cons {a = a} {l₂ = l₂} e p) =
        sum_by-perm (d.add total (amount a)) p ∙ ap (λ x. sum_by (d.add total (amount x)) l₂) e
    sum_by-perm total (Permᴰ.swap {a = a} {b = b} {l = l} e e') =
        rw (← e, ← e') (rw (add_right_comm total (amount a) (amount b)))
    sum_by-perm total (Permᴰ.trans p q) = sum_by-perm total p ∙ sum_by-perm total q
