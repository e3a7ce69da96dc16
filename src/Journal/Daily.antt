-- ===== src/Journal/Daily.antt =====
-- internal/journal/journal.go: the profits of the days.
use coinex_bot.Prelude.{
  ◌≡◌, refl, ap, ◌∙◌, inl, inr, List, [], ◌∷◌, none, some, foldl, Option-cases, arith, Text,
}
use coinex_bot.Prelude.Dict.{Dict, lookup, insert, values}
use coinex_bot.Number.{Decimal, Float, Convert}
use coinex_bot.Number.Laws.{IsDecimal}
use coinex_bot.Number.Sums.{sum_by, sum_by-add}
use coinex_bot.Journal.{TradeRecord, Journal, add_day, daily_pnl}
use coinex_bot.Journal.Clock.{day_text}
use coinex_bot.Journal.Counts.{pnl_of}

module _ {D : Type 0} ⦃d : Decimal D⦄ where
  abbrev sum_values : D → Dict D → D
  sum_values a m = sum_by (λ x. x) a (values m)

module _ {D : Type 0} ⦃d : Decimal D⦄ (laws : IsDecimal D) where
  open laws use {add_comm, add_assoc, add_zero}

  sum_values-insert_new :
      (a x : D) (k : Text) (m : Dict D)
      → lookup k m ≡ none
      → sum_values a (insert k (d.add d.zero_dec x) m) ≡ d.add (sum_values a m) x
  unfolding sum_by insert lookup
  sum_values-insert_new a x k [] h = cc (add_comm d.zero_dec x, add_zero x)
  sum_values-insert_new a x k ((j, w) ∷ m) h =
      ground (arith, sum_values-insert_new (d.add a w) x k m)

  sum_values-insert_old :
      (a x v : D) (k : Text) (m : Dict D)
      → lookup k m ≡ some v
      → sum_values a (insert k (d.add v x) m) ≡ d.add (sum_values a m) x
  unfolding sum_by insert lookup
  sum_values-insert_old a x v k [] h = ground arith
  sum_values-insert_old a x v k ((j, w) ∷ m) h = ground (
    arith,
    sum_values-insert_old (d.add a w) x v k m,
    add_assoc a v x,
    sum_by-add (λ y. y) laws x (d.add a v) (values m),
  )

module _ {D F : Type 0} ⦃d : Decimal D⦄ ⦃f : Float F⦄ ⦃c : Convert D F⦄ (laws : IsDecimal D) where
  sum_values-add_day :
      (a : D) (m : Dict D) (t : TradeRecord D F)
      → sum_values a (add_day m t) ≡ d.add (sum_values a m) t.pnl
  unfolding add_day
  sum_values-add_day a m t =
      let day = day_text t.exit_time in
      elim (Option-cases (lookup day m)) [
        | inl e ↦ rw e (sum_values-insert_new laws a t.pnl day m e)
        | inr (v, e) ↦ rw e (sum_values-insert_old laws a t.pnl v day m e)
      ]

  sum_values-foldl :
      (m : Dict D) (ts : List (TradeRecord D F))
      → sum_values d.zero_dec (foldl add_day m ts) ≡ sum_by pnl_of (sum_values d.zero_dec m) ts
  unfolding sum_by
  sum_values-foldl m [] = refl
  sum_values-foldl m (t ∷ ts) =
      sum_values-foldl (add_day m t) ts
      ∙ ap (λ x. sum_by pnl_of x ts) (sum_values-add_day d.zero_dec m t)

  -- With exact decimal addition, the profits of the days add up to the profit of all trades.
  pub daily_pnl-sum :
      (j : Journal D F)
      → sum_by (λ (x : D). x) d.zero_dec (values (daily_pnl j)) ≡ sum_by pnl_of d.zero_dec j.trades
  unfolding daily_pnl sum_by
  daily_pnl-sum j = sum_values-foldl [] j.trades
