-- ===== src/Engine/Ticks.antt =====
-- internal/engine/engine.go, `tick`: the strategies, the vote, the order and the client together.
use coinex_bot.Prelude.{
  ◌≤◌, ◌<◌, ◌≡◌, refl, ◌⊎◌, inl, inr, true, false, List, [], ◌∷◌, ◌++◌, Option, some, length, All,
  Bool-cases, Text, bytes, text_eq, leb,
}
use coinex_bot.Prelude.Results.{Result, ok, Gives, gives, Gives-bind, Gives-value}
use coinex_bot.Number.{Decimal, Float, Convert}
use coinex_bot.Models.{Time, Candle, OrderBook, Signal, is_flat, mid_price}
use coinex_bot.Api.Client.{
  PlaceOrderReq, RawOrder, KlineResp, get_klines, Client, place_spot_order, place_futures_order,
}
use coinex_bot.Indicators.Totals.{Returns}
use coinex_bot.Strategies.Registry.{BuiltIn}
use coinex_bot.Strategies.Totals.Evaluate.{CanRun, evaluate-Gives}
use coinex_bot.Engine.{Engine, Managed, submit, limit_order_req, execute_signal}
use coinex_bot.Engine.Trades.{IsKept, execute_signal-IsKept}
use coinex_bot.Engine.Tick.{Bot, vote, gather, act_on_signals, tick}

-- The signals that a strategy may send on: none of them is flat.
abbrev AreCalls : {F : Type 0} → List (Signal F) → Type 0
AreCalls signals = All (λ s. is_flat s.signal ≡ false) signals

module _ {D : Type 0} ⦃d : Decimal D⦄ where
  submit-paper :
      (client : Client) (market_type stamp : Text) (req : PlaceOrderReq)
      (reply : PlaceOrderReq → Result RawOrder)
      → client.paper ≡ true
      → Returns (submit {D = D} client market_type stamp req reply)
  unfolding submit place_spot_order place_futures_order
  submit-paper client market_type stamp req reply h =
      elim (Bool-cases (text_eq market_type (bytes "futures"))) [
        | inl e ↦ rw (e, h) (gives tt)
        | inr e ↦ rw (e, h) (gives tt)
      ]

module _ {D F : Type 0} ⦃d : Decimal D⦄ ⦃f : Float F⦄ ⦃c : Convert D F⦄ where
  gather-Gives :
      (now : Time) (ss : List (BuiltIn F)) (candles : List (Candle D)) (ob : OrderBook D)
      → 0 < length candles
      → All (λ s. CanRun s candles) ss
      → Gives AreCalls (gather now ss candles ob)
  unfolding gather
  gather-Gives now [] candles ob n h = gives tt
  gather-Gives now (s ∷ ss) candles ob n h =
      Gives-bind (evaluate-Gives now s candles ob n h.0) λ sig _.
        Gives-bind (gather-Gives now ss candles ob n h.1) λ rest p.
          elim (Bool-cases (is_flat sig.signal)) [
            | inl e ↦ rw e (gives p)
            | inr e ↦ rw e (gives (e, p))
          ]

  execute_signal-paper :
      (now : Time) (stamp : Text) (reply : PlaceOrderReq → Result RawOrder) (e : Engine D F)
      (sig : Signal F) (ob : OrderBook D) (qty : D)
      → e.client.paper ≡ true
      → d.new_from_string e.cfg.base_qty ≡ some qty
      → Returns (execute_signal now stamp reply e sig ob).1
  unfolding execute_signal
  execute_signal-paper now stamp reply e sig ob qty paper good =
      let price = mid_price ob in
      elim (Bool-cases (leb e.cfg.max_open_orders (length e.open_orders))) [
        | inl full ↦ rw full (gives tt)
        | inr free ↦ elim (Bool-cases (d.is_zero price)) [
          | inl z ↦ rw (free, z) (gives tt)
          | inr nz ↦
              let (order, taken, _) = Gives-value (
                submit-paper {D = D} e.client e.cfg.market_type stamp
                  (limit_order_req e.cfg now sig.signal qty price) reply paper) in
              rw (free, nz, good, taken) (gives tt)
        ]
      ]

  -- The tick came back, the limit of open orders holds, the candles are the new ones, the
  -- strategies the same, and the log has
  -- at most one signal more, which is not flat.
  pub record IsTicked (b : Bot D F) (candles : List (Candle D))
      (r : Bot D F × Result (Option (Managed D))) : Type 0 where
    pub came : Returns r.1
    pub kept : IsKept b.engine r.0.engine
    pub fresh : r.0.candles ≡ candles
    pub same : r.0.strats ≡ b.strats
    pub logged :
        (r.0.signal_log ≡ b.signal_log)
        ⊎ ((sig : Signal F) × (is_flat sig.signal ≡ false)
            × (r.0.signal_log ≡ b.signal_log ++ (sig ∷ [])))

  act_on_signals-IsTicked :
      (now : Time) (stamp : Text) (reply : PlaceOrderReq → Result RawOrder) (ob : OrderBook D)
      (b : Bot D F) (signals : List (Signal F)) (qty : D)
      → b.engine.client.paper ≡ true
      → d.new_from_string b.engine.cfg.base_qty ≡ some qty
      → length b.engine.open_orders ≤ b.engine.cfg.max_open_orders
      → IsTicked b b.candles (act_on_signals now stamp reply ob b signals)
  unfolding act_on_signals
  act_on_signals-IsTicked now stamp reply ob b [] qty paper good h = record {
    came = gives tt;
    kept = (h, refl, refl);
    fresh = refl;
    same = refl;
    logged = inl refl;
  }
  act_on_signals-IsTicked now stamp reply ob b (s ∷ ss) qty paper good h =
      let sig = vote now (s ∷ ss) in
      elim (Bool-cases (is_flat sig.signal)) [
        | inl e ↦ rw e (record {
          came = gives tt;
          kept = (h, refl, refl);
          fresh = refl;
          same = refl;
          logged = inl refl;
        })
        | inr e ↦ rw e (record {
          came = execute_signal-paper now stamp reply b.engine sig ob qty paper good;
          kept = execute_signal-IsKept now stamp reply b.engine sig ob h;
          fresh = refl;
          same = refl;
          logged = inr (sig, e, refl);
        })
      ]

  -- In paper mode, with a base quantity that parses, open orders within the limit, an answer with
  -- candles, and strategies that can run on them, a tick comes back with neither an error nor a
  -- panic, in whatever order the goroutines end and whatever the order book holds. The limit of open
  -- orders and the configuration are kept, the candles are those of the answer, and the log has at
  -- most one signal more, which is not flat.
  pub tick-IsTicked :
      (now : Time) (stamp : Text) (reply : PlaceOrderReq → Result RawOrder)
      (ended : List (Signal F) → List (Signal F)) (klines : Result (List KlineResp))
      (ob : OrderBook D) (b : Bot D F) (candles : List (Candle D)) (qty : D)
      → get_klines (bytes "1hour") klines ≡ ok candles
      → 0 < length candles
      → All (λ s. CanRun s candles) b.strats
      → b.engine.client.paper ≡ true
      → d.new_from_string b.engine.cfg.base_qty ≡ some qty
      → length b.engine.open_orders ≤ b.engine.cfg.max_open_orders
      → IsTicked b candles (tick now stamp reply ended klines ob b)
  unfolding tick
  tick-IsTicked now stamp reply ended klines ob b candles qty fetched n can paper good h =
      let (signals, gathered, _) = Gives-value (gather-Gives now b.strats candles ob n can) in
      let b' = record b { candles = candles } in
      let t = act_on_signals-IsTicked now stamp reply ob b' (ended signals) qty paper good h in
      rw (fetched, gathered, tick)
        (record { came = t.came; kept = t.kept; fresh = t.fresh; same = t.same; logged = t.logged })
