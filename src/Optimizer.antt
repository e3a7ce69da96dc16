-- ===== src/Optimizer.antt =====
-- internal/optimizer/optimizer.go: the walk-forward search over a parameter grid. The integers of
-- a range are 64-bit words in two's complement, negative from 2 ^ 63 on. The trials run in parallel; the order in which they end is given.
pub mod Ranges
pub mod Windows
pub mod Search
mod Tests
use coinex_bot.Prelude.{
  ℕ, zero, suc, ◌+◌, ◌-◌, ◌*◌, ◌%◌, ◌^◌, ◌||◌, ◌≡◌, Bool, true, false, not, List, [], ◌∷◌, ◌++◌,
  Option, none, some, if◌then◌else◌, leb, ltb, length, take, drop, map, Text, bytes, text_eq,
}
use coinex_bot.Prelude.Dict.{Dict, lookup, insert}
use coinex_bot.Prelude.Results.{Result, ok, err, panic, ◌>>=◌}
use coinex_bot.Number.{Float, Convert}
use coinex_bot.Models.{Candle}
use coinex_bot.Backtest.{Strategy}
use coinex_bot.Backtest as Backtest
use coinex_bot.Backtest.Metrics.{Report, run}

pub record ParamRange : Type 0 where
  pub name : Text
  pub start : ℕ
  pub end : ℕ
  pub step : ℕ

abbrev pub ParamSet : Type 0
ParamSet = Dict ℕ

-- `a <= b` of two such words.
abbrev pub le_int : ℕ → ℕ → Bool
le_int a b = leb ((a + 2 ^ 63) % 2 ^ 64) ((b + 2 ^ 63) % 2 ^ 64)

-- The loop from v on, for at most `fuel` rounds; `none` is a loop that goes on. The sum wraps around.
unfoldable pub values_from : ℕ → ℕ → ParamRange → Option (List ℕ)
values_from zero v r = none
values_from (suc fuel) v r = elim (le_int v r.end) [
  | true ↦ elim (values_from fuel ((v + r.step) % 2 ^ 64) r) [
    | none ↦ none
    | some vs ↦ some (v ∷ vs)
  ]
  | false ↦ some []
]

-- A loop that has not ended after as many rounds as there are words never ends.
unfoldable pub range_values : ParamRange → Option (List ℕ)
unfolding values_from
range_values r = values_from (2 ^ 64) r.start r

-- for k, val := range rest { ps[k] = val }
unfoldable pub overlay : ParamSet → ParamSet → ParamSet
overlay ps [] = ps
overlay ps ((k, v) ∷ rest) = overlay (insert k v ps) rest

unfoldable pub extend_with : Text → ℕ → List ParamSet → List ParamSet
unfolding overlay
extend_with name v [] = []
extend_with name v (rest ∷ tail) = overlay ((name, v) ∷ []) rest ∷ extend_with name v tail

unfoldable pub extend_all : Text → List ℕ → List ParamSet → List ParamSet
unfolding extend_with
extend_all name [] tail = []
extend_all name (v ∷ vs) tail = extend_with name v tail ++ extend_all name vs tail

-- The sets of a range's values with those of the ranges behind it.
unfoldable pub combine : Text → Option (List ℕ) → Option (List ParamSet) → Option (List ParamSet)
unfolding extend_all
combine name vs none = none
combine name none (some tail) = none
combine name (some vs) (some tail) = some (extend_all name vs tail)

unfoldable pub grid : List ParamRange → Option (List ParamSet)
unfolding combine
grid [] = some ([] ∷ [])
grid (r ∷ rs) = combine r.name (range_values r) (grid rs)

pub record WalkForwardWindow : Type 0 where
  pub in_sample_start : ℕ
  pub in_sample_end : ℕ
  pub out_sample_start : ℕ
  pub out_sample_end : ℕ

-- The loop from `start` on.
unfoldable pub windows_from : ℕ → ℕ → ℕ → ℕ → ℕ → ℕ → Option (List WalkForwardWindow)
windows_from zero start total in_sample out_sample step = none
windows_from (suc fuel) start total in_sample out_sample step =
    let rest = windows_from fuel (start + step) total in_sample out_sample step in
    let w : WalkForwardWindow = record {
      in_sample_start = start;
      in_sample_end = start + in_sample;
      out_sample_start = start + in_sample;
      out_sample_end = start + in_sample + out_sample;
    } in
    if leb (start + in_sample + out_sample) total
    then elim rest [ none ↦ none | some ws ↦ some (w ∷ ws) ]
    else some []

unfoldable pub build_windows : ℕ → ℕ → ℕ → ℕ → Option (List WalkForwardWindow)
unfolding windows_from
build_windows total in_sample out_sample step =
    windows_from (suc (total + 1)) 0 total in_sample out_sample step

pub data Metric : Type 0 where
  sharpe total_return profit_factor : Metric

pub record Config : Type 0 where
  pub in_sample_bars : ℕ
  pub out_sample_bars : ℕ
  pub step_bars : ℕ
  pub workers : ℕ
  pub metric : Text

unfoldable pub default_config : Config
default_config = record {
  in_sample_bars = 200;
  out_sample_bars = 50;
  step_bars = 50;
  workers = 4;
  metric = bytes "sharpe";
}

pub record Optimizer (F : Type 0) : Type 0 where
  pub cfg : Config
  pub bt_cfg : Backtest.Config F

unfoldable pub new_optimizer : {F : Type 0} → Config → Backtest.Config F → Optimizer F
new_optimizer cfg bt_cfg = record {
  cfg = record cfg { workers = (if leb cfg.workers 0 then 4 else cfg.workers) };
  bt_cfg = bt_cfg;
}

pub record Scored (F : Type 0) : Type 0 where
  pub params : Option ParamSet
  pub score : F

pub record TrialResult (F : Type 0) : Type 0 where
  pub params : Option ParamSet
  pub in_sample_metric : F
  pub out_sample_metric : F
  pub window : WalkForwardWindow

pub record Summary (F : Type 0) : Type 0 where
  pub total_windows : ℕ
  pub avg_in_sample_metric : F
  pub avg_out_sample_metric : F
  pub efficiency_ratio : F
  pub best_params : Option ParamSet
  pub best_out_metric : F

module _ {F : Type 0} ⦃f : Float F⦄ where
  open f use {literal, of_int, plus, over, negate, lt, eq}

  unfoldable pub metric_of : Text → Report F → F
  metric_of name r =
      if text_eq name (bytes "return")
      then r.total_return
      else if text_eq name (bytes "profit_factor")
      then r.profit_factor
      else r.sharpe_ratio

  -- best := scored{metric: -1e18}, whose parameters are the nil map
  abbrev pub no_score : Scored F
  no_score = record { params = none; score = negate (of_int (10 ^ 18)) }

  -- The loop over what the channel holds once all trials have sent.
  unfoldable pub best_from : Scored F → List (Scored F) → Scored F
  best_from best [] = best
  best_from best (s ∷ ss) = best_from (if lt best.score s.score then s else best) ss

  unfoldable pub sum_in : F → List (TrialResult F) → F
  sum_in total [] = total
  sum_in total (r ∷ rs) = sum_in (plus total r.in_sample_metric) rs

  unfoldable pub sum_out : F → List (TrialResult F) → F
  sum_out total [] = total
  sum_out total (r ∷ rs) = sum_out (plus total r.out_sample_metric) rs

  unfoldable pub build_summary : List (TrialResult F) → Summary F
  unfolding sum_in sum_out
  build_summary [] = record {
    total_windows = 0;
    avg_in_sample_metric = of_int 0;
    avg_out_sample_metric = of_int 0;
    efficiency_ratio = of_int 0;
    best_params = none;
    best_out_metric = of_int 0;
  }
  build_summary (r ∷ rs) =
      let n = of_int (length (r ∷ rs)) in
      let avg_in = over (sum_in (of_int 0) (r ∷ rs)) n in
      let avg_out = over (sum_out (of_int 0) (r ∷ rs)) n in
      record {
        total_windows = length (r ∷ rs);
        avg_in_sample_metric = avg_in;
        avg_out_sample_metric = avg_out;
        efficiency_ratio = if eq avg_in (of_int 0) then of_int 0 else over avg_out avg_in;
        best_params = r.params;
        best_out_metric = r.out_sample_metric;
      }

  -- `sort.Slice` on the results; of equal metrics it may leave either order, here the given one.
  unfoldable pub place : TrialResult F → List (TrialResult F) → List (TrialResult F)
  place r [] = r ∷ []
  place r (x ∷ xs) =
      if lt r.out_sample_metric x.out_sample_metric then x ∷ place r xs else r ∷ x ∷ xs

  unfoldable pub rank : List (TrialResult F) → List (TrialResult F)
  unfolding place
  rank [] = []
  rank (r ∷ rs) = place r (rank rs)

-- candles[start:end]
unfoldable pub slice : {D : Type 0} → ℕ → ℕ → List (Candle D) → List (Candle D)
slice start end candles = take (end - start) (drop start candles)

-- The nil map reads as an empty one.
abbrev or_empty : Option ParamSet → ParamSet
or_empty none = []
or_empty (some ps) = ps

module _ {D F : Type 0} ⦃f : Float F⦄ ⦃c : Convert D F⦄ where
  -- The trials that are not cancelled, in the order of the grid; `cancelled` says which are.
  unfoldable pub score_all :
      Optimizer F
      → (ParamSet → Strategy D F)
      → (ParamSet → Bool)
      → List (Candle D)
      → List ParamSet
      → Result (List (Scored F))
  unfolding metric_of
  score_all o factory cancelled candles [] = ok []
  score_all o factory cancelled candles (ps ∷ sets) =
      let rest = score_all o factory cancelled candles sets in
      if cancelled ps then rest else (do
        r ← run o.bt_cfg (factory ps) candles
        scores ← rest
        ok (record { params = some ps; score = metric_of o.cfg.metric r } ∷ scores))

  -- `ended` puts the scores in the order in which the trials end.
  unfoldable pub best_params :
      Optimizer F
      → (ParamSet → Strategy D F)
      → (ParamSet → Bool)
      → (List (Scored F) → List (Scored F))
      → List (Candle D)
      → List ParamSet
      → Result (Scored F)
  unfolding score_all best_from
  best_params o factory cancelled ended candles sets = do
    scores ← score_all o factory cancelled candles sets
    ok (best_from no_score (ended scores))

  -- The body of the loop over the windows.
  unfoldable pub trial :
      Optimizer F
      → (ParamSet → Strategy D F)
      → (ParamSet → Bool)
      → (List (Scored F) → List (Scored F))
      → List (Candle D)
      → List ParamSet
      → WalkForwardWindow
      → Result (TrialResult F)
  unfolding best_params slice metric_of
  trial o factory cancelled ended candles sets w = do
    best ←
        best_params o factory cancelled ended (slice w.in_sample_start w.in_sample_end candles) sets
    r ←
        run o.bt_cfg (factory (or_empty best.params))
          (slice w.out_sample_start w.out_sample_end candles)
    ok (record {
      params = best.params;
      in_sample_metric = best.score;
      out_sample_metric = metric_of o.cfg.metric r;
      window = w;
    })

  unfoldable pub trials :
      Optimizer F
      → (ParamSet → Strategy D F)
      → (ParamSet → Bool)
      → (List (Scored F) → List (Scored F))
      → List (Candle D)
      → List ParamSet
      → List WalkForwardWindow
      → Result (List (TrialResult F))
  unfolding trial
  trials o factory cancelled ended candles sets [] = ok []
  trials o factory cancelled ended candles sets (w ∷ ws) = do
    t ← trial o factory cancelled ended candles sets w
    ts ← trials o factory cancelled ended candles sets ws
    ok (t ∷ ts)

  -- What `Run` does with its windows; `none` is a run that never returns.
  unfoldable pub search :
      Optimizer F
      → (ParamSet → Strategy D F)
      → (ParamSet → Bool)
      → (List (Scored F) → List (Scored F))
      → List (Candle D)
      → List ParamRange
      → List WalkForwardWindow
      → Option (Result (List (TrialResult F) × Summary F))
  unfolding grid trials rank build_summary
  search o factory cancelled ended candles ranges [] =
      some (err (bytes "insufficient candles for walk-forward"))
  search o factory cancelled ended candles ranges (w ∷ ws) = elim (grid ranges) [
    | none ↦ none
    | some sets ↦ some (do
      results ← trials o factory cancelled ended candles sets (w ∷ ws)
      ok (rank results, build_summary (rank results)))
  ]

  unfoldable pub optimize :
      Optimizer F
      → (ParamSet → Strategy D F)
      → (ParamSet → Bool)
      → (List (Scored F) → List (Scored F))
      → List (Candle D)
      → List ParamRange
      → Option (Result (List (TrialResult F) × Summary F))
  unfolding build_windows search
  optimize o factory cancelled ended candles ranges =
      elim (build_windows (length candles) o.cfg.in_sample_bars o.cfg.out_sample_bars
        o.cfg.step_bars) [
          | none ↦ none
          | some ws ↦ search o factory cancelled ended candles ranges ws
        ]
