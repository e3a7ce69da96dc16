-- ===== src/MultiMarket/Orders.antt =====
-- internal/multimarket/engine.go, `executeSignal`: what an order does to the positions.
use coinex_bot.Prelude.{◌≡◌, refl, sym, ap, ◌⊎◌, inl, inr, true, false, arith, Bool-cases, Text}
use coinex_bot.Prelude.Dict.{insert}
use coinex_bot.Prelude.Results.{Result, ok, err, panic}
use coinex_bot.Number.{Decimal, Float, Convert}
use coinex_bot.Number.Laws.{IsDecimal}
use coinex_bot.Models.{Time, OrderBook, is_futures, Signal, Order, mid_price}
use coinex_bot.Position.{key, can_open, profit_at}
use coinex_bot.Api.Client.{
  PlaceOrderReq, RawOrder, place_spot_order, place_futures_order, paper_order,
}
use coinex_bot.MultiMarket.{
  MarketWorker, Shared, side_of, order_request, position_of, place_order, register, execute_signal,
}

pub Result-cases {ℓ} :
    {A : Type ℓ} (r : Result A)
    → ((a : A) × (r ≡ ok a)) ⊎ (((e : Text) × (r ≡ err e)) ⊎ (r ≡ panic))
Result-cases (ok a) = inl (a, refl)
Result-cases (err e) = inr (inl (e, refl))
Result-cases panic = inr (inr refl)

abbrev amount_or : {D : Type 0} → D → Result (Order D) → D
amount_or z (ok order) = order.amount
amount_or z (err e) = z
amount_or z panic = z

module _ {D F : Type 0} ⦃d : Decimal D⦄ ⦃f : Float F⦄ ⦃c : Convert D F⦄ where
  -- What a signal leads to: nothing, or one order that was taken and the position that it opens.
  abbrev pub IsOrdered :
      Time
      → Text
      → (PlaceOrderReq → Result RawOrder)
      → MarketWorker D F
      → Signal F
      → OrderBook D
      → Shared D F
      → Shared D F
      → Type 0
  IsOrdered now stamp reply w sig ob sh sh' =
      let side = side_of sig.signal in
      let price = mid_price ob in
      (sh' ≡ sh)
      ⊎ ((order : Order D) × (place_order w stamp (order_request w.cfg side price) reply ≡ ok order)
          × (d.is_zero price ≡ false)
          × ((can_open sh.pos_mgr w.cfg.market side).0 ≡ true)
          × (let p = position_of w.cfg now sig.strategy side price order in
              sh'.pos_mgr
              ≡ record sh.pos_mgr { positions = insert (key p) p sh.pos_mgr.positions }))

  pub execute_signal-cases :
      (now : Time) (stamp : Text) (reply : PlaceOrderReq → Result RawOrder) (w : MarketWorker D F)
      (sig : Signal F) (ob : OrderBook D) (sh : Shared D F)
      → let side = side_of sig.signal in
        let price = mid_price ob in
        let sh' = (execute_signal now stamp reply w sig ob sh).0 in
        (sh' ≡ sh)
        ⊎ ((order : Order D) × (place_order w stamp (order_request w.cfg side price) reply
              ≡ ok order)
            × (d.is_zero price ≡ false)
            × ((can_open sh.pos_mgr w.cfg.market side).0 ≡ true)
            × (sh' ≡ register sh (position_of w.cfg now sig.strategy side price order) order))
  unfolding execute_signal
  execute_signal-cases now stamp reply w sig ob sh =
      let side = side_of sig.signal in
      let price = mid_price ob in
      elim (Bool-cases (can_open sh.pos_mgr w.cfg.market side).0) [
        | inr shut ↦ inl (rw (shut, execute_signal) refl)
        | inl free ↦ elim (Bool-cases (d.is_zero price)) [
          | inl z ↦ inl (rw (free, z, execute_signal) refl)
          | inr nz ↦
              elim (Result-cases (place_order w stamp (order_request w.cfg side price) reply)) [
                | inr (inl (e, failed)) ↦ inl (rw (free, nz, failed, execute_signal) refl)
                | inr (inr failed) ↦ inl (rw (free, nz, failed, execute_signal) refl)
                | inl (order, taken) ↦
                    inr (order, taken, nz, free, rw (free, nz, taken, execute_signal) refl)
              ]
        ]
      ]

  paper_amount :
      (w : MarketWorker D F) (stamp : Text) (req : PlaceOrderReq)
      (reply : PlaceOrderReq → Result RawOrder) (order : Order D)
      → w.client.paper ≡ true
      → place_order w stamp req reply ≡ ok order
      → order.amount ≡ d.zero_dec
  unfolding place_order place_spot_order place_futures_order paper_order
  paper_amount w stamp req reply order paper h = elim (Bool-cases (is_futures w.cfg.market_type)) [
    | inl e ↦ let h' = rw (e, paper, place_order) at h in sym (ap (amount_or d.zero_dec) h')
    | inr e ↦ let h' = rw (e, paper, place_order) at h in sym (ap (amount_or d.zero_dec) h')
  ]

  -- In paper mode a position that a signal opens has the quantity zero, whatever base quantity is
  -- configured, so that with the laws of a decimal type its profit is zero at every price.
  pub position_of-paper :
      IsDecimal D
      → (now : Time) (stamp : Text) (reply : PlaceOrderReq → Result RawOrder) (w : MarketWorker D F)
        (sig : Signal F) (price : D) (order : Order D) (later : D)
      → w.client.paper ≡ true
      → place_order w stamp (order_request w.cfg (side_of sig.signal) price) reply ≡ ok order
      → let p = position_of w.cfg now sig.strategy (side_of sig.signal) price order in
        (p.quantity ≡ d.zero_dec) × (profit_at p later ≡ d.zero_dec)
  unfolding position_of profit_at
  position_of-paper laws now stamp reply w sig price order later paper h =
      let req = order_request w.cfg (side_of sig.signal) price in
      let z = paper_amount w stamp req reply order paper h in
      (z, ground (arith, z, laws.mul_zero (d.sub later price), laws.mul_zero (d.sub price later)))
