-- ===== src/MultiMarket/Safety.antt =====
-- internal/multimarket/engine.go: what every firing of a worker's ticker keeps, and the ticks that are
-- skipped.
use coinex_bot.Prelude.{
  ◌≤◌, ◌≡◌, refl, sym, ap, subst, ◌⊎◌, inl, inr, Bool, true, false, not, List, [], ◌∷◌, ◌++◌, arith,
  if◌then◌else◌, ltb, length, length-append, length-last_of, Bool-cases, Text,
}
use coinex_bot.Prelude.Results.{Result, ok, err, panic}
use coinex_bot.Number.{Decimal, Float, Convert}
use coinex_bot.Models.{Time, OrderBook, Signal, mid_price, is_flat}
use coinex_bot.Position.Invariant.{IsValid, open_position-IsValid}
use coinex_bot.Health.{Alert, record_tick}
use coinex_bot.Health.Circuit.{CircuitBreaker, allow, record_success}
use coinex_bot.Api.CandleBuffer as CandleBuffer
use coinex_bot.Api.LiveOrderBook as LiveOrderBook
use coinex_bot.Api.Client.{PlaceOrderReq, RawOrder}
use coinex_bot.Notify.{Telegram, Message, enqueue, order_message, signal_message}
use coinex_bot.MultiMarket.{
  MarketWorker, Shared, log_signal, close_exits, register, execute_signal, act_on, tick,
  record_outcome, on_ticker, aggregate_signals, gather_signals, act_on_all,
}
use coinex_bot.MultiMarket.Exits.{close_exits-IsValid}
use coinex_bot.MultiMarket.Orders.{execute_signal-cases}

module _ {D F : Type 0} where
  pub record IsSafe (w : MarketWorker D F) (sh : Shared D F) : Type 0 where
    pub positions : IsValid sh.pos_mgr
    pub log : length w.signal_log ≤ 500
    pub queue : length sh.notifier.queue ≤ 100

  -- Of a firing that comes through, that it leaves a safe state.
  abbrev pub IsSafeAfter : Result (MarketWorker D F × Shared D F × List (Alert F)) → Type 0
  IsSafeAfter (ok (w, sh, alerts)) = IsSafe w sh
  IsSafeAfter (err e) = Unit {0}
  IsSafeAfter panic = Unit {0}

  enqueue-bounded :
      (msg : Message D F) (t : Telegram D F)
      → length t.queue ≤ 100
      → length (enqueue msg t).queue ≤ 100
  unfolding enqueue
  enqueue-bounded msg t h = ground (arith, length-append t.queue (msg ∷ []))

log_signal-bounded :
    {F : Type 0} ⦃f : Float F⦄ (sig : Signal F) (log : List (Signal F))
    → length (log_signal sig log) ≤ 500
unfolding log_signal
log_signal-bounded sig log = let log' = log ++ (sig ∷ []) in ground (arith, length-last_of 500 log')

record_success-clears : (cb : CircuitBreaker) → (record_success cb).failure_count ≡ 0
unfolding record_success
record_success-clears cb = ground arith

if_keeps {ℓ κ} :
    {A : Type ℓ} (P : A → Type κ) (b : Bool) {x y : A} → P x → P y → P (if b then x else y)
if_keeps P true p q = p
if_keeps P false p q = q

module _ {D F : Type 0} ⦃d : Decimal D⦄ ⦃f : Float F⦄ ⦃c : Convert D F⦄ (now : Time) (stamp : Text)
    (reply : PlaceOrderReq → Result RawOrder) where
  execute_signal-IsSafe :
      (w : MarketWorker D F) (sig : Signal F) (ob : OrderBook D) (sh : Shared D F)
      → IsSafe w sh
      → IsSafe w (execute_signal now stamp reply w sig ob sh).0
  unfolding register
  execute_signal-IsSafe w sig ob sh v = elim (execute_signal-cases now stamp reply w sig ob sh) [
    | inl e ↦ subst (IsSafe w) (sym e) v
    | inr (order, taken, nz, free, e) ↦ subst (IsSafe w) (sym e) (record {
      positions = open_position-IsValid sh.pos_mgr _ v.positions;
      log = v.log;
      queue = enqueue-bounded (order_message order) sh.notifier v.queue;
    })
  ]

  abbrev IsSafeState : MarketWorker D F × Shared D F × Result (Unit {0}) → Type 0
  IsSafeState state = IsSafe state.0 state.1

  act_on-IsSafe :
      (signals : List (Signal F)) (w : MarketWorker D F) (sh : Shared D F)
      → IsSafe w sh
      → IsSafeState (act_on now stamp reply signals w sh)
  unfolding act_on
  act_on-IsSafe [] w sh v = v
  act_on-IsSafe (s ∷ ss) w sh v =
      let sig = aggregate_signals now (s ∷ ss) in
      let w' = record w { signal_log = log_signal sig w.signal_log } in
      let sh' = record sh { notifier = enqueue (signal_message sig) sh.notifier } in
      if_keeps IsSafeState (is_flat sig.signal) v (
        execute_signal-IsSafe w' sig (LiveOrderBook.snapshot w.lob) sh' (record {
          positions = v.positions;
          log = log_signal-bounded sig w.signal_log;
          queue = enqueue-bounded (signal_message sig) sh.notifier v.queue;
        }))

  act_on_all-IsSafe :
      (ended : List (Signal F) → List (Signal F)) (signals : Result (List (Signal F)))
      (w : MarketWorker D F) (sh : Shared D F)
      → IsSafe w sh
      → IsSafeState (act_on_all now stamp reply ended signals w sh)
  unfolding act_on_all
  act_on_all-IsSafe ended (ok signals) w sh v = act_on-IsSafe (ended signals) w sh v
  act_on_all-IsSafe ended (err e) w sh v = v
  act_on_all-IsSafe ended panic w sh v = v

  tick-IsSafe :
      (ended : List (Signal F) → List (Signal F)) (w : MarketWorker D F) (sh : Shared D F)
      → IsSafe w sh
      → IsSafeState (tick now stamp reply ended w sh)
  unfolding tick
  tick-IsSafe ended w sh v =
      let candles = CandleBuffer.snapshot w.candle_buf in
      let ob = LiveOrderBook.snapshot w.lob in
      let (circuit, allowed) = allow now sh.monitor.circuit in
      let sh' = record sh { monitor = record sh.monitor { circuit = circuit } } in
      let v' : IsSafe w sh' = record { positions = v.positions; log = v.log; queue = v.queue } in
      let exited : IsSafe w
          (record sh' { pos_mgr = close_exits w.cfg.market (mid_price ob) sh'.pos_mgr }) =
        record {
          positions = close_exits-IsValid w.cfg.market (mid_price ob) sh'.pos_mgr v.positions;
          log = v.log;
          queue = v.queue;
        } in
      if_keeps IsSafeState (ltb (length candles) 60) v (
        if_keeps IsSafeState (not allowed) v' (
          act_on_all-IsSafe ended (gather_signals w.strats candles ob) w _
            (if_keeps (IsSafe w) (d.is_zero (mid_price ob)) v' exited)))

  record_outcome-IsSafe :
      (state : MarketWorker D F × Shared D F × Result (Unit {0}))
      → IsSafeState state
      → IsSafeAfter (record_outcome now state)
  unfolding record_outcome
  record_outcome-IsSafe (w, sh, ok done) v = record {
    positions = v.positions;
    log = v.log;
    queue = v.queue;
  }
  record_outcome-IsSafe (w, sh, err e) v = record {
    positions = v.positions;
    log = v.log;
    queue = v.queue;
  }
  record_outcome-IsSafe (w, sh, panic) v = tt

  -- A firing of a worker's ticker that comes through keeps the shared positions valid, with distinct
  -- keys and within their limit, the worker's log at 500 signals at most, and the notifier's queue at
  -- 100 messages at most, whatever the strategies, the exchange and the order of the goroutines do.
  pub on_ticker-IsSafe :
      (ended : List (Signal F) → List (Signal F)) (w : MarketWorker D F) (sh : Shared D F)
      → IsSafe w sh
      → IsSafeAfter (on_ticker now stamp reply ended w sh)
  unfolding on_ticker
  on_ticker-IsSafe ended w sh v =
      record_outcome-IsSafe (tick now stamp reply ended w sh) (tick-IsSafe ended w sh v)

  tick_unseen :
      (ended : List (Signal F) → List (Signal F)) (w : MarketWorker D F) (sh : Shared D F)
      → ltb (length w.candle_buf.candles) 60 ≡ true
      → tick now stamp reply ended w sh ≡ (w, sh, ok tt)
  unfolding tick CandleBuffer.snapshot
  tick_unseen ended w sh few = rw (few, tick) refl

  tick_refused :
      (ended : List (Signal F) → List (Signal F)) (w : MarketWorker D F) (sh : Shared D F)
      → ltb (length w.candle_buf.candles) 60 ≡ false
      → (allow now sh.monitor.circuit).1 ≡ false
      → let circuit = (allow now sh.monitor.circuit).0 in
        tick now stamp reply ended w sh
        ≡ (w, record sh { monitor = record sh.monitor { circuit = circuit } }, ok tt)
  unfolding tick CandleBuffer.snapshot
  tick_refused ended w sh many denied = rw (many, denied, tick) refl

  -- What a tick that did nothing leaves: the worker, the positions and the notifier as they were, and
  -- a monitor that has taken it for a success.
  abbrev pub IsSkipped :
      MarketWorker D F
      → Shared D F
      → Result (MarketWorker D F × Shared D F × List (Alert F))
      → Type 0
  IsSkipped w sh out =
      (sh' : Shared D F) × (out ≡ ok (w, sh', []))
      × (sh'.pos_mgr ≡ sh.pos_mgr)
      × (sh'.notifier ≡ sh.notifier)
      × (sh'.monitor.circuit.failure_count ≡ 0)
      × (sh'.monitor.last_tick ≡ now)

  -- With fewer than 60 candles, or with a circuit that refuses the tick, nothing is looked at or done,
  -- but the firing counts as a success: the failures counted by the circuit are back at 0.
  pub on_ticker-IsSkipped :
      (ended : List (Signal F) → List (Signal F)) (w : MarketWorker D F) (sh : Shared D F)
      → (ltb (length w.candle_buf.candles) 60 ≡ true) ⊎ ((allow now sh.monitor.circuit).1 ≡ false)
      → IsSkipped w sh (on_ticker now stamp reply ended w sh)
  unfolding on_ticker record_outcome record_tick
  on_ticker-IsSkipped ended w sh h =
      let circuit = (allow now sh.monitor.circuit).0 in
      let unseen : Shared D F = record sh { monitor = record_tick now sh.monitor } in
      let refused : Shared D F = record sh {
        monitor = record_tick now (record sh.monitor { circuit = circuit });
      } in
      elim h [
        | inl few ↦ (
          unseen,
          ap (record_outcome now) (tick_unseen ended w sh few),
          refl,
          refl,
          record_success-clears sh.monitor.circuit,
          refl,
        )
        | inr denied ↦ elim (Bool-cases (ltb (length w.candle_buf.candles) 60)) [
          | inl few ↦ (
            unseen,
            ap (record_outcome now) (tick_unseen ended w sh few),
            refl,
            refl,
            record_success-clears sh.monitor.circuit,
            refl,
          )
          | inr many ↦ (
            refused,
            ap (record_outcome now) (tick_refused ended w sh many denied),
            refl,
            refl,
            record_success-clears circuit,
            refl,
          )
        ]
      ]
