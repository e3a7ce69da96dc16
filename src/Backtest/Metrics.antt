-- ===== src/Backtest/Metrics.antt =====
-- internal/backtest/backtest.go: `buildResult` with its metrics and `Run` as a whole.
use coinex_bot.Prelude.{
  ℕ, suc, ◌-◌, ◌*◌, ◌/◌, ◌%◌, ◌^◌, List, [], ◌∷◌, none, some, if◌then◌else◌, ltb, length, get_elem?,
  map, Text,
}
use coinex_bot.Prelude.Results.{Result, ok, panic, ◌>>=◌}
use coinex_bot.Number.{sum_floats, Float, Convert}
use coinex_bot.Models.{Duration, Candle}
use coinex_bot.Backtest.{Strategy, Config, Trade, replay, close_end}

pub record Report (F : Type 0) : Type 0 where
  pub strategy_name : Text
  pub trades : List (Trade F)
  pub final_capital : F
  pub total_return : F
  pub cagr : F
  pub max_drawdown : F
  pub sharpe_ratio : F
  pub win_rate : F
  pub profit_factor : F
  pub total_trades : ℕ
  pub winning_trades : ℕ
  pub losing_trades : ℕ
  pub avg_win : F
  pub avg_loss : F
  pub largest_win : F
  pub largest_loss : F
  pub equity_curve : List F

-- The variables of the loop over the trades.
pub record Tally (F : Type 0) : Type 0 where
  pub total : ℕ
  pub winning : ℕ
  pub losing : ℕ
  pub gross_profit : F
  pub gross_loss : F
  pub largest_win : F
  pub largest_loss : F

module _ {F : Type 0} ⦃f : Float F⦄ where
  open f use {of_int, plus, minus, times, over, negate, lt, eq, absolute, sqrt, pow}

  abbrev pub no_tally : Tally F
  no_tally = record {
    total = 0;
    winning = 0;
    losing = 0;
    gross_profit = of_int 0;
    gross_loss = of_int 0;
    largest_win = of_int 0;
    largest_loss = of_int 0;
  }

  unfoldable pub tally_trade : Tally F → Trade F → Tally F
  tally_trade k t =
      if lt (of_int 0) t.pnl
      then record k {
        total = suc k.total;
        winning = suc k.winning;
        gross_profit = plus k.gross_profit t.pnl;
        largest_win = if lt k.largest_win t.pnl then t.pnl else k.largest_win;
      }
      else record k {
        total = suc k.total;
        losing = suc k.losing;
        gross_loss = plus k.gross_loss (absolute t.pnl);
        largest_loss = if lt t.pnl k.largest_loss then t.pnl else k.largest_loss;
      }

  unfoldable pub tally : Tally F → List (Trade F) → Tally F
  tally k [] = k
  tally k (t ∷ ts) = tally (tally_trade k t) ts

  -- The loop over the equity curve, from the peak and the drawdown so far.
  unfoldable pub worst : F → F → List F → F
  worst peak m [] = m
  worst peak m (eq' ∷ es) =
      let peak' = if lt peak eq' then eq' else peak in
      let dd = over (minus peak' eq') peak' in worst peak' (if lt m dd then dd else m) es

  -- peak := equityCurve[0] panics on an empty curve.
  unfoldable pub curve_drawdown : List F → Result F
  unfolding worst
  curve_drawdown [] = panic
  curve_drawdown (e ∷ es) = ok (worst e (of_int 0) (e ∷ es))

  unfoldable pub returns_from : F → List F → List F
  returns_from prev [] = []
  returns_from prev (e ∷ es) =
      (if eq prev (of_int 0) then of_int 0 else over (minus e prev) prev) ∷ returns_from e es

  unfoldable pub mean_std : List F → F × F
  unfolding sum_floats
  mean_std [] = (of_int 0, of_int 0)
  mean_std (v ∷ vs) =
      let n = of_int (length (v ∷ vs)) in
      let mean = over (sum_floats (v ∷ vs)) n in
      let squares = map (λ x. times (minus x mean) (minus x mean)) (v ∷ vs) in
      (mean, sqrt (over (sum_floats squares) n))

  unfoldable pub sharpe_of : List F → F
  unfolding returns_from mean_std
  sharpe_of [] = of_int 0
  sharpe_of (e ∷ es) =
      let (mean, std) = mean_std (returns_from e es) in
      if ltb 0 (length es)
      then (if lt (of_int 0) std then times (over mean std) (sqrt (of_int 8760)) else of_int 0)
      else of_int 0

  -- Hours of a duration; the clock of candles that run back gives 0.
  unfoldable pub hours : Duration → F
  hours ns =
      let hour = 3600 * 10 ^ 9 in
      plus (of_int (ns / hour)) (over (of_int (ns % hour)) (of_int hour))

module _ {D F : Type 0} ⦃f : Float F⦄ where
  open f use {of_int, minus, over, negate, lt, pow}

  unfoldable pub cagr_of : List (Candle D) → F → F → F
  unfolding hours
  cagr_of candles initial final =
      if ltb 1 (length candles)
      then elim (get_elem? candles 0) [
        | none ↦ of_int 0
        | some first ↦ elim (get_elem? candles (length candles - 1)) [
          | none ↦ of_int 0
          | some last ↦
              let years = over (hours (last.open_time - first.open_time)) (of_int 8760) in
              if lt (of_int 0) years
              then minus (pow (over final initial) (over (of_int 1) years)) (of_int 1)
              else of_int 0
        ]
      ]
      else of_int 0

  unfoldable pub build_result :
      Text → List (Trade F) → List F → F → F → List (Candle D) → Result (Report F)
  unfolding cagr_of tally curve_drawdown sharpe_of
  build_result name trades curve initial final candles =
      let base : Report F = record {
        strategy_name = name;
        trades = trades;
        final_capital = final;
        total_return = over (minus final initial) initial;
        cagr = of_int 0;
        max_drawdown = of_int 0;
        sharpe_ratio = of_int 0;
        win_rate = of_int 0;
        profit_factor = of_int 0;
        total_trades = 0;
        winning_trades = 0;
        losing_trades = 0;
        avg_win = of_int 0;
        avg_loss = of_int 0;
        largest_win = of_int 0;
        largest_loss = of_int 0;
        equity_curve = curve;
      } in
      let k = tally no_tally trades in
      elim trades [
        | [] ↦ ok base
        | _ ∷ _ ↦ (do
          dd ← curve_drawdown curve
          ok (record base {
            cagr = cagr_of candles initial final;
            total_trades = k.total;
            winning_trades = k.winning;
            losing_trades = k.losing;
            largest_win = k.largest_win;
            largest_loss = k.largest_loss;
            win_rate =
                (if ltb 0 k.total then over (of_int k.winning) (of_int k.total) else of_int 0);
            avg_win =
                (if ltb 0 k.winning then over k.gross_profit (of_int k.winning) else of_int 0);
            avg_loss =
                (if ltb 0 k.losing then over (negate k.gross_loss) (of_int k.losing) else of_int 0);
            profit_factor =
                (if lt (of_int 0) k.gross_loss then over k.gross_profit k.gross_loss else of_int 0);
            max_drawdown = dd;
            sharpe_ratio = sharpe_of curve;
          }))
      ]

  unfoldable pub run :
      ⦃c : Convert D F⦄ → Config F → Strategy D F → List (Candle D) → Result (Report F)
  unfolding replay close_end build_result
  run cfg strategy candles = replay cfg strategy candles >>= λ replayed.
      let s = close_end cfg candles replayed in
      build_result strategy.name s.trades s.equity_curve cfg.initial_capital s.equity candles
