-- ===== src/Optimizer/Tests.antt =====
-- internal/optimizer/optimizer.go at concrete inputs.
use coinex_bot.Prelude.{ℕ, ◌≡◌, false, List, [], ◌∷◌, some, arith, bytes}
use coinex_bot.Prelude.Results.{Result, ok, gives}
use coinex_bot.Prelude.Int.{ℤ, pos}
use coinex_bot.Number.Whole.{whole_decimal, whole_float, whole_convert}
use coinex_bot.Models.{Candle, long}
use coinex_bot.Backtest.{Strategy}
use coinex_bot.Optimizer.{
  ParamRange, ParamSet, WalkForwardWindow, Optimizer, Scored, TrialResult, Summary, build_windows,
  optimize,
}
use coinex_bot.Optimizer.Windows.{AreRolling, build_windows-AreRolling}
use coinex_bot.Optimizer.Search.{IsOutcome, AreAnswering, optimize-IsOutcome}

abbrev fast : ParamRange
fast = record { name = bytes "fast"; start = 5; end = 9; step = 2 }

abbrev slow : ParamRange
slow = record { name = bytes "slow"; start = 20; end = 21; step = 1 }

build_windows-AreRolling_example :
    (ws : List WalkForwardWindow) × (build_windows 10 4 2 2 ≡ some ws) × AreRolling 0 10 4 2 2 ws
build_windows-AreRolling_example = build_windows-AreRolling 10 4 2 2 (omega arith)

abbrev scored : List (Scored ℤ)
scored =
    record { params = some []; score = pos 3 } ∷ record { params = some []; score = pos 7 } ∷ []

abbrev candle : ℕ → Candle ℤ
candle n = record {
  open_time = n;
  open_price = pos n;
  high = pos n;
  low = pos n;
  close = pos n;
  volume = pos 1;
  timeframe = bytes "1hour";
}

abbrev factory : ParamSet → Strategy ℤ ℤ
factory ps = record {
  name = bytes "always_long";
  evaluate = λ candles book. ok (record {
    strategy = bytes "always_long";
    market = [];
    signal = long;
    confidence = pos 1;
    reason = [];
    timestamp = 0;
  });
}

abbrev optimizer : Optimizer ℤ
optimizer = record {
  cfg = record {
    in_sample_bars = 2;
    out_sample_bars = 1;
    step_bars = 1;
    workers = 4;
    metric = bytes "return";
  };
  bt_cfg = record {
    initial_capital = pos 1000;
    fee_rate = pos 0;
    slippage_pct = pos 0;
    stop_loss_pct = pos 1;
    take_profit_pct = pos 1;
    position_size_pct = pos 1;
    warmup_bars = 1;
  };
}

abbrev candles : List (Candle ℤ)
candles = candle 10 ∷ candle 20 ∷ candle 30 ∷ candle 40 ∷ []

answering : AreAnswering optimizer factory candles
answering ps start end i late inside = gives tt

optimize-IsOutcome_example :
    (out : Result (List (TrialResult ℤ) × Summary ℤ)) × (optimize optimizer factory
        (λ ps. false)
        (λ ss. ss)
        candles
        (fast ∷ [])
      ≡ some out)
    × IsOutcome 4 3 out
optimize-IsOutcome_example =
    optimize-IsOutcome optimizer factory (λ ps. false) (λ ss. ss) candles answering (fast ∷ [])
      (omega arith) ((omega arith, omega arith, omega arith), tt)
