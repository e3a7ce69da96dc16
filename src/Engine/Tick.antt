-- ===== src/Engine/Tick.antt =====
-- internal/engine/engine.go: the list of strategies of `New`, the candles, the signals and `tick`.
-- The exchange's answers are arguments, and so is the snapshot of the live order book.
use coinex_bot.Prelude.{
  ℕ, Bool, true, ◌&&◌, List, [], ◌∷◌, ◌++◌, Option, none, some, if◌then◌else◌, length, Text, bytes,
  digits,
}
use coinex_bot.Prelude.Dict.{Dict, lookup}
use coinex_bot.Prelude.Results.{Result, ok, err, panic, ◌>>=◌}
use coinex_bot.Number.{Decimal, Float, Convert}
use coinex_bot.Models.{Time, Candle, OrderBook, long, short, is_long, is_short, is_flat, Signal}
use coinex_bot.Api.Client.{PlaceOrderReq, RawOrder, KlineResp, get_klines}
use coinex_bot.MultiMarket.{confidence_of, consensus_signal, no_signal}
use coinex_bot.Strategies.Registry.{BuiltIn, name_of, evaluate}
use coinex_bot.Engine.{Engine, Managed, execute_signal}

-- The whole of the struct `Engine` that a tick reads and writes.
pub record Bot (D F : Type 0) : Type 0 where
  pub engine : Engine D F
  pub strats : List (BuiltIn F)
  pub candles : List (Candle D)
  pub signal_log : List (Signal F)

-- `cfg.Strategies`, by name: the Boolean `enabled` of its entry, where it has one.
abbrev pub Switches : Type 0
Switches = Dict (Option Bool)

abbrev is_on : Option (Option Bool) → Bool
is_on none = true
is_on (some none) = true
is_on (some (some enabled)) = enabled

module _ {F : Type 0} where
  -- The loop over the registered strategies.
  unfoldable pub build_strategies : Switches → List (BuiltIn F) → List (BuiltIn F)
  unfolding lookup name_of
  build_strategies cfg [] = []
  build_strategies cfg (s ∷ ss) =
      let rest = build_strategies cfg ss in
      if is_on (lookup (name_of s) cfg) then s ∷ rest else rest

module _ {F : Type 0} ⦃f : Float F⦄ where
  open f use {of_int, plus, times, over, lt, eq, show_whole}

  -- fmt.Sprintf("%.0f%% long confidence across %d strategies", conf*100, len(signals))
  abbrev pub vote_text : Text → F → ℕ → Text
  vote_text kind conf n =
      show_whole (times conf (of_int 100))
      ++ kind
      ++ bytes " confidence across "
      ++ digits 20 n
      ++ bytes " strategies"

  -- aggregateSignals
  unfoldable pub vote : Time → List (Signal F) → Signal F
  unfolding confidence_of
  vote now signals =
      let long_conf = confidence_of is_long (of_int 0) signals in
      let short_conf = confidence_of is_short (of_int 0) signals in
      let n = length signals in
      if eq long_conf (of_int 0) && eq short_conf (of_int 0)
      then no_signal
      else if lt short_conf long_conf
      then (let conf = over long_conf (plus long_conf short_conf) in
          consensus_signal now long conf (vote_text (bytes "% long") conf n))
      else (let conf = over short_conf (plus long_conf short_conf) in
          consensus_signal now short conf (vote_text (bytes "% short") conf n))

module _ {D F : Type 0} ⦃d : Decimal D⦄ ⦃f : Float F⦄ ⦃c : Convert D F⦄ where
  -- Each strategy runs in a goroutine of its own, where a panic ends the program.
  unfoldable pub gather :
      Time → List (BuiltIn F) → List (Candle D) → OrderBook D → Result (List (Signal F))
  unfolding evaluate
  gather now [] candles ob = ok []
  gather now (s ∷ ss) candles ob = evaluate now s candles ob >>= λ sig.
      gather now ss candles ob >>= λ rest. ok (if is_flat sig.signal then rest else sig ∷ rest)

  -- From the test `len(signals) == 0` on.
  unfoldable pub act_on_signals :
      Time
      → Text
      → (PlaceOrderReq → Result RawOrder)
      → OrderBook D
      → Bot D F
      → List (Signal F)
      → Bot D F × Result (Option (Managed D))
  unfolding vote execute_signal
  act_on_signals now stamp reply ob b [] = (b, ok none)
  act_on_signals now stamp reply ob b (s ∷ ss) =
      let consensus = vote now (s ∷ ss) in
      let r = execute_signal now stamp reply b.engine consensus ob in
      if is_flat consensus.signal
      then (b, ok none)
      else (record b { engine = r.0; signal_log = b.signal_log ++ (consensus ∷ []) }, r.1)

  -- `ended` puts the signals in the order in which the goroutines end; `klines` is the answer to
  -- refreshCandles.
  unfoldable pub tick :
      Time
      → Text
      → (PlaceOrderReq → Result RawOrder)
      → (List (Signal F) → List (Signal F))
      → Result (List KlineResp)
      → OrderBook D
      → Bot D F
      → Bot D F × Result (Option (Managed D))
  unfolding get_klines gather act_on_signals
  tick now stamp reply ended klines ob b = elim (get_klines {D = D} (bytes "1hour") klines) [
    | err msg ↦ (b, err msg)
    | panic ↦ (b, panic)
    | ok candles ↦
        let b' = record b { candles = candles } in
        elim (gather now b.strats candles ob) [
          | err msg ↦ (b', err msg)
          | panic ↦ (b', panic)
          | ok signals ↦ act_on_signals now stamp reply ob b' (ended signals)
        ]
  ]
