-- ===== src/Engine/Trades.antt =====
-- internal/engine/engine.go: the limit of open orders and the end of a managed trade.
use mathlib.Core.List.{Memᴰ}
use coinex_bot.Prelude.{
  ◌≤◌, ◌≡◌, refl, sym, ap, ◌⊎◌, inl, inr, true, false, List, [], ◌∷◌, Option, none, some, arith,
  length, Bool-cases, Option-cases, leb, All, Text, bytes,
}
use mathlib.Core.Path.{subst}
use coinex_bot.MultiMarket.Orders.{Result-cases}
use coinex_bot.Prelude.Dict.{insert, delete, length-insert_bound, length-delete_bound}
use coinex_bot.Prelude.Results.{Result}
use coinex_bot.Number.{Decimal, Float, Convert}
use coinex_bot.Models.{Time, OrderBook, Signal, Order, mid_price}
use coinex_bot.Api.Client.{PlaceOrderReq, RawOrder}
use coinex_bot.Journal.{TradeRecord, record_trade}
use coinex_bot.Engine.{
  Engine, Managed, submit, limit_order_req, Alarm, price_tick, timed_out, Step, signal_step,
  manage_step, execute_signal, close_record, finish, manage, manage_trade, apply_step, run_steps,
  move_of,
}

abbrev pub IsTick : {D : Type 0} → Alarm D → Type 0
IsTick {D} w = (cur : D) × (w ≡ price_tick cur)

-- The mid price that a round saw.
abbrev pub price_of : {D : Type 0} → Alarm D → D
price_of (timed_out price) = price
price_of (price_tick cur) = cur

module _ {D F : Type 0} where
  -- The limit holds, and the configuration and the client are as before.
  abbrev pub IsKept : Engine D F → Engine D F → Type 0
  IsKept e e' =
      (length e'.open_orders ≤ e'.cfg.max_open_orders) × (e'.cfg ≡ e.cfg) × (e'.client ≡ e.client)

  -- What `execute_signal` leaves of the engine: the same, or one order put in below the limit.
  abbrev IsPlaced : Engine D F → Engine D F → Type 0
  IsPlaced e e' =
      (e' ≡ e)
      ⊎ ((order : Order D) × (leb e.cfg.max_open_orders (length e.open_orders) ≡ false)
          × (e' ≡ record e { open_orders = insert order.id order e.open_orders }))

module _ {D F : Type 0} ⦃d : Decimal D⦄ ⦃f : Float F⦄ ⦃c : Convert D F⦄ where
  -- The end of a managed trade: in the round that ends it the trade's record goes to the journal and
  -- its order out of the map. Without an end, no round was the timeout.
  abbrev pub IsManaged :
      Option Text → Managed D → List (Engine D F × Time × Alarm D) → Option (Engine D F) → Type 0
  IsManaged failed t rounds none = All (λ (r : Engine D F × Time × Alarm D). IsTick r.2) rounds
  IsManaged failed t rounds (some e') =
      (e : Engine D F) × (now : Time) × (w : Alarm D) × (rec : TradeRecord D F) × Memᴰ (e, now, w)
        rounds
      × (rec.id ≡ t.order.id)
      × (rec.entry_time ≡ t.entry_time)
      × (rec.exit_time ≡ now)
      × (rec.exit_price ≡ price_of w)
      × (e'.journal ≡ (record_trade e.journal rec failed).0)
      × (e'.open_orders ≡ delete t.order.id e.open_orders)

  execute_signal-cases :
      (now : Time) (stamp : Text) (reply : PlaceOrderReq → Result RawOrder) (e : Engine D F)
      (sig : Signal F) (ob : OrderBook D)
      → IsPlaced e (execute_signal now stamp reply e sig ob).0
  unfolding execute_signal
  execute_signal-cases now stamp reply e sig ob =
      let price = mid_price ob in
      elim (Bool-cases (leb e.cfg.max_open_orders (length e.open_orders))) [
        | inl full ↦ inl (rw (full, execute_signal) refl)
        | inr free ↦ elim (Bool-cases (d.is_zero price)) [
          | inl z ↦ inl (rw (free, z, execute_signal) refl)
          | inr nz ↦ elim (Option-cases (d.new_from_string e.cfg.base_qty)) [
            | inl bad ↦ inl (rw (free, nz, bad, execute_signal) refl)
            | inr (qty, good) ↦
                elim (Result-cases (
                  submit {D = D} e.client e.cfg.market_type stamp
                    (limit_order_req e.cfg now sig.signal qty price) reply)) [
                      | inl (order, taken) ↦
                          inr (order, free, rw (free, nz, good, taken, execute_signal) refl)
                      | inr (inl (m, failed)) ↦
                          inl (rw (free, nz, good, failed, execute_signal) refl)
                      | inr (inr failed) ↦ inl (rw (free, nz, good, failed, execute_signal) refl)
                    ]
          ]
        ]
      ]

  manage-cases :
      (failed : Option Text) (e : Engine D F) (t : Managed D) (now : Time) (w : Alarm D)
      → let r = manage failed e t now w in
        ((r ≡ (e, false)) × IsTick w)
        ⊎ ((reason : Text) × (r ≡ (finish failed e t now (price_of w) reason, true)))
  unfolding manage
  manage-cases failed e t now (timed_out price) = inr (bytes "timeout", refl)
  manage-cases failed e t now (price_tick cur) =
      let sl : D = c.new_from_float e.cfg.stop_loss_pct in
      let tp : D = c.new_from_float e.cfg.take_profit_pct in
      elim (Bool-cases (d.is_zero cur)) [
        | inl z ↦ inl (rw (z, manage) refl, (cur, refl))
        | inr nz ↦ elim (Bool-cases (f.le (move_of t cur) (f.negate (c.float64 sl)))) [
          | inl stop ↦ inr (bytes "sl", rw (nz, stop, manage) refl)
          | inr above ↦ elim (Bool-cases (f.le (c.float64 tp) (move_of t cur))) [
            | inl take ↦ inr (bytes "tp", rw (nz, above, take, manage) refl)
            | inr below ↦ inl (rw (nz, above, below, manage) refl, (cur, refl))
          ]
        ]
      ]

  IsKept-placed :
      (e e' : Engine D F)
      → length e.open_orders ≤ e.cfg.max_open_orders
      → IsPlaced e e'
      → IsKept e e'
  IsKept-placed e e' h (inl same) = subst (IsKept e) (sym same) (h, refl, refl)
  IsKept-placed e e' h (inr (order, free, placed)) =
      subst (IsKept e) (sym placed)
        (ground (arith, length-insert_bound order.id order e.open_orders), refl, refl)

  pub execute_signal-IsKept :
      (now : Time) (stamp : Text) (reply : PlaceOrderReq → Result RawOrder) (e : Engine D F)
      (sig : Signal F) (ob : OrderBook D)
      → length e.open_orders ≤ e.cfg.max_open_orders
      → IsKept e (execute_signal now stamp reply e sig ob).0
  execute_signal-IsKept now stamp reply e sig ob h =
      IsKept-placed e (execute_signal now stamp reply e sig ob).0 h
        (execute_signal-cases now stamp reply e sig ob)

  step-IsKept :
      (e : Engine D F) (s : Step D F)
      → length e.open_orders ≤ e.cfg.max_open_orders
      → IsKept e (apply_step e s)
  unfolding apply_step finish
  step-IsKept e (signal_step now stamp reply sig ob) h =
      execute_signal-IsKept now stamp reply e sig ob h
  step-IsKept e (manage_step failed t now w) h = elim (manage-cases failed e t now w) [
    | inl (same, t) ↦ subst (IsKept e) (sym (ap (λ x. x.0) same)) (h, refl, refl)
    | inr (reason, ended) ↦
        subst (IsKept e) (sym (ap (λ x. x.0) ended))
          (ground (arith, length-delete_bound t.order.id e.open_orders), refl, refl)
  ]

  -- Whatever signals are acted on and whatever rounds the managers run, in any order, an engine
  -- whose open orders are within the limit keeps them within it.
  pub run_steps-IsBounded :
      (steps : List (Step D F)) (e : Engine D F)
      → length e.open_orders ≤ e.cfg.max_open_orders
      → length (run_steps e steps).open_orders ≤ e.cfg.max_open_orders
  unfolding run_steps
  run_steps-IsBounded [] e h = h
  run_steps-IsBounded (s ∷ rest) e h =
      let (h', same, _) = step-IsKept e s h in
      subst (λ cfg. length (run_steps (apply_step e s) rest).open_orders ≤ cfg.max_open_orders) same
        (run_steps-IsBounded rest (apply_step e s) h')

  more :
      (failed : Option Text) (t : Managed D) (e : Engine D F) (now : Time) (w : Alarm D)
      (rounds : List (Engine D F × Time × Alarm D)) (r : Option (Engine D F))
      → IsTick w
      → IsManaged failed t rounds r
      → IsManaged failed t ((e, now, w) ∷ rounds) r
  more failed t e now w rounds none tick all = (tick, all)
  more failed t e now w rounds (some e') tick (e0, now0, w0, rec, m, a, b, x, p, q, r) =
      (e0, now0, w0, rec, Memᴰ.tail m, a, b, x, p, q, r)

  ended_by :
      (failed : Option Text) (e : Engine D F) (t : Managed D) (now : Time) (w : Alarm D)
      (rounds : List (Engine D F × Time × Alarm D)) (reason : Text)
      → IsManaged failed t ((e, now, w) ∷ rounds) (some (finish failed e t now (price_of w) reason))
  unfolding finish close_record
  ended_by failed e t now w rounds reason = (
    e,
    now,
    w,
    close_record e.cfg t now (price_of w) reason,
    Memᴰ.head refl,
    refl,
    refl,
    refl,
    refl,
    refl,
    refl,
  )

  -- However the other goroutines change the engine between the rounds, the loop ends in at most one
  -- of them. That round passes to the journal one record, of the trade's order, with the round's
  -- time and mid price as exit, takes the order out of the open ones and changes neither otherwise. If no
  -- round ends the loop, none was the timeout.
  pub manage_trade-IsManaged :
      (failed : Option Text) (t : Managed D) (rounds : List (Engine D F × Time × Alarm D))
      → IsManaged failed t rounds (manage_trade failed t rounds)
  unfolding manage_trade
  manage_trade-IsManaged failed t [] = tt
  manage_trade-IsManaged failed t ((e, now, w) ∷ rounds) = elim (manage-cases failed e t now w) [
    | inl (same, tick) ↦
        rw (same, manage_trade)
          (more failed t e now w rounds (manage_trade failed t rounds) tick
            (manage_trade-IsManaged failed t rounds))
    | inr (reason, ended) ↦ rw (ended, manage_trade) (ended_by failed e t now w rounds reason)
  ]
