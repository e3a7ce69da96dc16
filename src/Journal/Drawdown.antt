-- ===== src/Journal/Drawdown.antt =====
-- internal/journal/journal.go: the greatest of the drawdowns.
use coinex_bot.Prelude.{
  suc, ◌≡◌, refl, ap, subst, inl, inr, true, false, List, [], ◌∷◌, length, if◌then◌else◌,
  Bool-cases, All,
}
use coinex_bot.Number.{Decimal, Float, Convert}
use coinex_bot.Number.Laws.{IsFloatOrder}
use coinex_bot.Journal.{TradeRecord, Journal, drawdowns, drawdown_series, max_from, max_drawdown}

module _ {F : Type 0} ⦃f : Float F⦄ (order : IsFloatOrder F) where
  open order use {lt_irrefl, lt_asym, not_lt_trans}

  abbrev IsAbove : F → List F → F → Type 0
  IsAbove m vs best = (f.lt best m ≡ false) × All (λ v. f.lt best v ≡ false) vs

  take_new : (m v : F) (vs : List F) → f.lt m v ≡ true → max_from v vs ≡ max_from m (v ∷ vs)
  unfolding max_from
  take_new m v vs e = rw e refl

  keep_old : (m v : F) (vs : List F) → f.lt m v ≡ false → max_from m vs ≡ max_from m (v ∷ vs)
  unfolding max_from
  keep_old m v vs e = rw e refl

  max_from_bound : (m : F) (vs : List F) → IsAbove m vs (max_from m vs)
  unfolding max_from
  max_from_bound m [] = (lt_irrefl m, tt)
  max_from_bound m (v ∷ vs) = elim (Bool-cases (f.lt m v)) [
    | inl e ↦
        let (above, all) = max_from_bound v vs in
        subst (IsAbove m (v ∷ vs)) (take_new m v vs e)
          (not_lt_trans (max_from v vs) v m above (lt_asym m v e), (above, all))
    | inr e ↦
        let (above, all) = max_from_bound m vs in
        subst (IsAbove m (v ∷ vs)) (keep_old m v vs e)
          (above, (not_lt_trans (max_from m vs) m v above e, all))
  ]

module _ {D F : Type 0} ⦃d : Decimal D⦄ ⦃f : Float F⦄ ⦃c : Convert D F⦄ where
  length-drawdowns :
      (equity peak : D) (ts : List (TradeRecord D F))
      → length (drawdowns equity peak ts) ≡ length ts
  unfolding drawdowns
  length-drawdowns equity peak [] = refl
  length-drawdowns equity peak (t ∷ ts) =
      let equity' = d.add equity t.pnl in
      ap suc (length-drawdowns equity' (if d.greater_than equity' peak then equity' else peak) ts)

  -- If the order of the floats is that of numbers, MaxDrawdown is at least 0 and at least each of the
  -- drawdowns in the series, of which there is one for each trade.
  pub max_drawdown_bound :
      IsFloatOrder F
      → (j : Journal D F) (capital : D)
      → (length (drawdown_series j capital) ≡ length j.trades)
        × (f.lt (max_drawdown j capital) (f.of_int 0) ≡ false)
        × All (λ v. f.lt (max_drawdown j capital) v ≡ false) (drawdown_series j capital)
  unfolding max_drawdown drawdown_series
  max_drawdown_bound order j capital =
      let (above, all) = max_from_bound order (f.of_int 0) (drawdown_series j capital) in
      (length-drawdowns capital capital j.trades, above, all)
