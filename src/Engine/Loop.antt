-- ===== src/Engine/Loop.antt =====
-- internal/engine/engine.go, `Run`: one turn of its loop on the ticker, with the back-off and the
-- retraining. Connecting, the leverage and the stop channel are not modelled.
use coinex_bot.Prelude.{List, [], ◌∷◌, Option, none, some, true, false, Text}
use coinex_bot.Prelude.Results.{Result, ok, err, panic, ◌>>=◌}
use coinex_bot.Number.{Decimal, Float, Convert}
use coinex_bot.Models.{Time, Duration, OrderBook, Signal}
use coinex_bot.Api.Client.{PlaceOrderReq, RawOrder, KlineResp}
use coinex_bot.Ml.Ensemble.{Ensemble, maybe_retrain}
use coinex_bot.Engine.{next_backoff}
use coinex_bot.Engine.Tick.{Bot, tick}

-- The variables of the loop.
pub record Loop (D F : Type 0) : Type 0 where
  pub bot : Bot D F
  pub backoff : Duration
  pub ensemble : Option (Ensemble F)

-- What a turn finds: the clock before and after the tick, and the answers of the others.
pub record Turn (D F : Type 0) : Type 0 where
  pub now : Time
  pub later : Time
  pub stamp : Text
  pub reply : PlaceOrderReq → Result RawOrder
  pub ended : List (Signal F) → List (Signal F)
  pub klines : Result (List KlineResp)
  pub ob : OrderBook D

module _ {F : Type 0} ⦃f : Float F⦄ where
  -- if e.ensemble != nil { e.ensemble.MaybeRetrain(ctx) }
  unfoldable pub retrain_if_any : Time → Option (Ensemble F) → Result (Option (Ensemble F))
  unfolding maybe_retrain
  retrain_if_any later none = ok none
  retrain_if_any later (some e) = maybe_retrain later e >>= λ e'. ok (some e')

module _ {D F : Type 0} ⦃d : Decimal D⦄ ⦃f : Float F⦄ ⦃c : Convert D F⦄ where
  unfoldable pub turn : Loop D F → Turn D F → Result (Loop D F)
  unfolding tick next_backoff retrain_if_any
  turn l t =
      let r = tick t.now t.stamp t.reply t.ended t.klines t.ob l.bot in
      elim r.1 [
        | panic ↦ panic
        | err msg ↦ retrain_if_any t.later l.ensemble >>= λ e.
            ok (record { bot = r.0; backoff = next_backoff true l.backoff; ensemble = e })
        | ok trade ↦ retrain_if_any t.later l.ensemble >>= λ e.
            ok (record { bot = r.0; backoff = next_backoff false l.backoff; ensemble = e })
      ]

  unfoldable pub turns : Loop D F → List (Turn D F) → Result (Loop D F)
  unfolding turn
  turns l [] = ok l
  turns l (t ∷ ts) = turn l t >>= λ l'. turns l' ts
