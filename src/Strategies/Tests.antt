-- ===== src/Strategies/Tests.antt =====
-- internal/strategies at concrete inputs.
use coinex_bot.Prelude.{
  ℕ, ◌≡◌, refl, List, [], ◌∷◌, some, arith, bytes, Text, All, All-replicate, replicate,
}
use coinex_bot.Prelude.Results.{panic, Gives}
use coinex_bot.Prelude.Int.{ℤ, pos, ◌+ℤ◌, ◌-ℤ◌, ◌*ℤ◌}
use coinex_bot.Number.Whole.{
  all_finite, whole_decimal, whole_float, whole_convert, Whole-IsDecimal, quot, root,
}
use coinex_bot.Models.{Candle, OrderBook}
use coinex_bot.Indicators.Bands.{vwap, vwap_sums}
use coinex_bot.Strategies.Registry.{
  BuiltIn, macd_cross, vwap_revert, momentum, name_of, get_strategy, register_strategy,
  register_all, built_ins, evaluate,
}
use coinex_bot.Strategies.Registered.{IsOther, get_strategy-built_ins}
use coinex_bot.Strategies.Totals.Outcome.{IsSignalOf}
use coinex_bot.Strategies.Totals.Evaluate.{evaluate-Gives, built_ins-Give}
use coinex_bot.Strategies.Totals.Panics.{vwap_revert-no_volume}

abbrev candle : ℕ → ℕ → Candle ℤ
candle price volume = record {
  open_time = 0;
  open_price = pos price;
  high = pos price;
  low = pos price;
  close = pos price;
  volume = pos volume;
  timeframe = bytes "1hour";
}

abbrev book : OrderBook ℤ
book = record { market = bytes "BTC"; bids = []; asks = []; updated_at = 0 }

abbrev rising : List (Candle ℤ)
rising = candle 4 1 ∷ candle 6 1 ∷ candle 9 1 ∷ candle 13 1 ∷ []

evaluate-Gives_example :
    Gives (IsSignalOf {F = ℤ} (bytes "macd_cross") 7) (evaluate 7 (macd_cross 1 2 1) rising book)
unfolding name_of
evaluate-Gives_example =
    evaluate-Gives 7 (macd_cross 1 2 1) rising book (omega arith)
      (omega arith, omega arith, omega arith)

built_ins-Give_example :
    All (λ (s : BuiltIn ℤ). Gives (IsSignalOf (name_of s) 7) (evaluate 7 s rising book)) built_ins
unfolding root vwap vwap_sums quot ◌+ℤ◌ ◌-ℤ◌ ◌*ℤ◌
built_ins-Give_example =
    built_ins-Give ℤ 7 rising book (omega arith) (omega arith)
      (record { two = refl; three = refl; keltner = refl; thrust = refl; steps = λ n. refl })
      (λ mids e. all_finite _) (refl, (refl, (refl, (refl, tt)))) refl

abbrev still : List (Candle ℤ)
still = replicate 20 (candle 5 0)

vwap_revert-no_volume_example : evaluate {F = ℤ} 7 vwap_revert still book ≡ panic
vwap_revert-no_volume_example =
    vwap_revert-no_volume ℤ Whole-IsDecimal 7 still book (omega arith)
      (All-replicate (λ (x : Candle ℤ). x.volume ≡ pos 0) 20 (candle 5 0) refl)

get_strategy-built_ins_example :
    let r = register_strategy (momentum 3) [] in
    All (λ (s : BuiltIn ℤ). get_strategy (name_of s) (register_all built_ins r) ≡ some s) built_ins
    × ((name : Text)
        → IsOther name (built_ins {F = ℤ})
        → get_strategy name (register_all built_ins r) ≡ get_strategy name r)
get_strategy-built_ins_example = get_strategy-built_ins ℤ (register_strategy (momentum 3) [])
