-- ===== src/Strategies/Totals/Replays.antt =====
-- internal/strategies through the interface that internal/backtest calls: a registered strategy, given
-- to a replay.
use coinex_bot.Prelude.{ℕ, suc, ◌≤◌, ◌<◌, List, arith, length, take, length-take}
use coinex_bot.Prelude.Results.{Gives-imp}
use coinex_bot.Number.{Decimal, Float, Convert}
use coinex_bot.Models.{Time, Candle}
use coinex_bot.Backtest.{Strategy, Config, empty_book}
use coinex_bot.Backtest.Trades.{IsAnswering}
use coinex_bot.Strategies.Registry.{BuiltIn, name_of, evaluate}
use coinex_bot.Strategies.Totals.Evaluate.{CanRun, evaluate-Gives}

module _ {D F : Type 0} ⦃d : Decimal D⦄ ⦃f : Float F⦄ ⦃c : Convert D F⦄ (now : Time)
    (s : BuiltIn F) where
  abbrev strategy_of : Strategy D F
  strategy_of = record { name = name_of s; evaluate = evaluate now s }

  -- A strategy that can run on each part of the candles that a replay shows it answers throughout.
  strategy_of-IsAnswering :
      (cfg : Config F) (candles : List (Candle D))
      → ((i : ℕ) → cfg.warmup_bars ≤ i → i < length candles → CanRun s (take (suc i) candles))
      → IsAnswering cfg strategy_of candles
  strategy_of-IsAnswering cfg candles can i late inside =
      let shown = take (suc i) candles in
      Gives-imp
        (evaluate-Gives now s shown empty_book (omega (arith, length-take (suc i) candles))
          (can i late inside))
        (λ _ _. tt)
