-- ===== src/Engine/Paper.antt =====
-- internal/engine/terminal.go, `UnrealizedPnL`, in paper mode.
use coinex_bot.Prelude.{
  ◌≡◌, refl, inl, inr, true, Bool-cases, Option, Option-cases, List, [], ◌∷◌, ◌||◌, if◌then◌else◌,
  leb, length, All, Text, bytes, text_eq,
}
use coinex_bot.Prelude.Dict.{Dict, insert, delete, values}
use coinex_bot.Prelude.Results.{Result, Gives, gives, Gives-value}
use coinex_bot.Number.{Decimal, Float, Convert}
use coinex_bot.Number.Laws.{IsDecimal}
use coinex_bot.Models.{Time, OrderBook, Order, Signal, mid_price}
use coinex_bot.Api.Client.{
  Client, PlaceOrderReq, RawOrder, paper_order, place_spot_order, place_futures_order,
}
use coinex_bot.Engine.{
  Engine, Managed, Alarm, price_tick, timed_out, Step, signal_step, manage_step, submit,
  limit_order_req, execute_signal, finish, move_of, manage, apply_step, run_steps,
}

All-insert {ℓ κ} :
    {V : Type ℓ} (P : V → Type κ) (k : Text) (v : V) (m : Dict V)
    → P v
    → All P (values m)
    → All P (values (insert k v m))
unfolding insert
All-insert P k v [] p h = (p, tt)
All-insert P k v ((j, w) ∷ m) p h = elim (Bool-cases (text_eq j k)) [
  | inl e ↦ rw e (p, h.1)
  | inr e ↦ rw e (h.0, All-insert P k v m p h.1)
]

All-delete {ℓ κ} :
    {V : Type ℓ} (P : V → Type κ) (k : Text) (m : Dict V)
    → All P (values m)
    → All P (values (delete k m))
unfolding delete
All-delete P k [] h = tt
All-delete P k ((j, w) ∷ m) h = elim (Bool-cases (text_eq j k)) [
  | inl e ↦ rw e h.1
  | inr e ↦ rw e (h.0, All-delete P k m h.1)
]

module _ {D : Type 0} ⦃d : Decimal D⦄ where
  -- The loop over the open orders.
  unfoldable pub sum_profits : D → D → List (Order D) → D
  sum_profits mid total [] = total
  sum_profits mid total (o ∷ os) =
      let diff =
        if text_eq o.side_name (bytes "buy") then d.sub mid o.price else d.sub o.price mid in
      sum_profits mid
        (if d.is_zero o.price || d.is_zero o.amount
          then total
          else d.add total (d.mul diff o.amount))
        os

  unfoldable pub unrealized_pnl : {F : Type 0} → OrderBook D → Engine D F → D
  unfolding sum_profits
  unrealized_pnl ob e =
      let mid = mid_price ob in
      if d.is_zero mid then d.zero_dec else sum_profits mid d.zero_dec (values e.open_orders)

  abbrev IsUnpriced : Order D → Type 0
  IsUnpriced o = o.price ≡ d.zero_dec

  submit-IsUnpriced :
      (client : Client) (market_type stamp : Text) (req : PlaceOrderReq)
      (reply : PlaceOrderReq → Result RawOrder)
      → client.paper ≡ true
      → Gives IsUnpriced (submit client market_type stamp req reply)
  unfolding submit place_spot_order place_futures_order paper_order
  submit-IsUnpriced client market_type stamp req reply h =
      elim (Bool-cases (text_eq market_type (bytes "futures"))) [
        | inl e ↦ rw (e, h) (gives refl)
        | inr e ↦ rw (e, h) (gives refl)
      ]

  sum_profits-unpriced :
      (laws : IsDecimal D) (mid total : D) (os : List (Order D))
      → All IsUnpriced os
      → sum_profits mid total os ≡ total
  unfolding sum_profits
  sum_profits-unpriced laws mid total [] h = refl
  sum_profits-unpriced laws mid total (o ∷ os) h =
      rw (h.0, (laws.zero_iff d.zero_dec).1 refl) (sum_profits-unpriced laws mid total os h.1)

module _ {D F : Type 0} ⦃d : Decimal D⦄ ⦃f : Float F⦄ ⦃c : Convert D F⦄ where
  abbrev pub IsUnpricedBook : Engine D F → Type 0
  IsUnpricedBook e = (e.client.paper ≡ true) × All IsUnpriced (values e.open_orders)

  execute_signal-unpriced :
      (now : Time) (stamp : Text) (reply : PlaceOrderReq → Result RawOrder) (e : Engine D F)
      (sig : Signal F) (ob : OrderBook D)
      → IsUnpricedBook e
      → IsUnpricedBook (execute_signal now stamp reply e sig ob).0
  unfolding execute_signal
  execute_signal-unpriced now stamp reply e sig ob (paper, h) =
      let price = mid_price ob in
      elim (Bool-cases (leb e.cfg.max_open_orders (length e.open_orders))) [
        | inl full ↦ rw full (paper, h)
        | inr free ↦ elim (Bool-cases (d.is_zero price)) [
          | inl z ↦ rw (free, z) (paper, h)
          | inr nz ↦ elim (Option-cases (d.new_from_string e.cfg.base_qty)) [
            | inl bad ↦ rw (free, nz, bad) (paper, h)
            | inr (qty, good) ↦
                let (order, taken, p) = Gives-value (
                  submit-IsUnpriced {D = D} e.client e.cfg.market_type stamp
                    (limit_order_req e.cfg now sig.signal qty price) reply paper) in
                rw (free, nz, good, taken)
                  (paper, All-insert IsUnpriced order.id order e.open_orders p h)
          ]
        ]
      ]

  manage-unpriced :
      (failed : Option Text) (e : Engine D F) (t : Managed D) (now : Time) (w : Alarm D)
      → IsUnpricedBook e
      → IsUnpricedBook (manage failed e t now w).0
  unfolding manage finish
  manage-unpriced failed e t now (timed_out price) (paper, h) =
      (paper, All-delete IsUnpriced t.order.id e.open_orders h)
  manage-unpriced failed e t now (price_tick cur) (paper, h) =
      let left = All-delete IsUnpriced t.order.id e.open_orders h in
      let sl : D = c.new_from_float e.cfg.stop_loss_pct in
      let tp : D = c.new_from_float e.cfg.take_profit_pct in
      elim (Bool-cases (d.is_zero cur)) [
        | inl z ↦ rw z (paper, h)
        | inr nz ↦ elim (Bool-cases (f.le (move_of t cur) (f.negate (c.float64 sl)))) [
          | inl stop ↦ rw (nz, stop) (paper, left)
          | inr above ↦ elim (Bool-cases (f.le (c.float64 tp) (move_of t cur))) [
            | inl take ↦ rw (nz, above, take) (paper, left)
            | inr below ↦ rw (nz, above, below) (paper, h)
          ]
        ]
      ]

  step-unpriced :
      (e : Engine D F) (s : Step D F) → IsUnpricedBook e → IsUnpricedBook (apply_step e s)
  unfolding apply_step
  step-unpriced e (signal_step now stamp reply sig ob) h =
      execute_signal-unpriced now stamp reply e sig ob h
  step-unpriced e (manage_step failed t now w) h = manage-unpriced failed e t now w h

  run_steps-unpriced :
      (steps : List (Step D F)) (e : Engine D F)
      → IsUnpricedBook e
      → IsUnpricedBook (run_steps e steps)
  unfolding run_steps
  run_steps-unpriced [] e h = h
  run_steps-unpriced (s ∷ rest) e h = run_steps-unpriced rest (apply_step e s) (step-unpriced e s h)

  -- With the laws of a decimal type, in paper mode, if no open order has a price other than zero to
  -- begin with, UnrealizedPnL is zero whatever signals are acted on, whatever the managers of the
  -- trades do, and at every order book.
  pub run_steps-unrealized :
      (laws : IsDecimal D) (steps : List (Step D F)) (e : Engine D F) (ob : OrderBook D)
      → IsUnpricedBook e
      → unrealized_pnl ob (run_steps e steps) ≡ d.zero_dec
  unfolding unrealized_pnl
  run_steps-unrealized laws steps e ob h = elim (Bool-cases (d.is_zero (mid_price ob))) [
    | inl z ↦ rw z refl
    | inr nz ↦ rw nz (
        sum_profits-unpriced laws (mid_price ob) d.zero_dec (values (run_steps e steps).open_orders)
          (run_steps-unpriced steps e h).1)
  ]
