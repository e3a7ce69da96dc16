-- ===== src/MultiMarket/Exits.antt =====
-- internal/multimarket/engine.go, the first half of `tick`: which positions are left once the exits
-- have been looked after.
use coinex_bot.Prelude.{
  ◌≡◌, ap, subst, ◌∙◌, inl, inr, Bool, true, false, not, ◌&&◌, List, [], ◌∷◌, some, arith,
  Bool-cases, All, Text, text_eq, text_eq_iff, eq_of_text_eq,
}
use coinex_bot.Prelude.Dict.{Dict, lookup, values, lookup-delete, Entries-lookup}
use coinex_bot.Number.{Decimal, Float, Convert}
use coinex_bot.Position.{
  OpenPosition, Manager, position_key, key, close_position, should_stop_loss, should_take_profit,
  update_prices, triggered_exits, exits,
}
use coinex_bot.Position.Invariant.{IsValid, IsKeyed, close_position-IsValid, update_prices-IsValid}
use coinex_bot.Position.Exits.{keep, exits-keep}
use coinex_bot.MultiMarket.{close_hits, close_exits}

module _ {D F : Type 0} where
  close_hits-IsValid :
      (market : Text) (ps : List (OpenPosition D F)) (m : Manager D F)
      → IsValid m
      → IsValid (close_hits market ps m)
  unfolding close_hits
  close_hits-IsValid market [] m v = v
  close_hits-IsValid market (p ∷ ps) m v = elim (Bool-cases (text_eq p.market market)) [
    | inl e ↦
        rw (e, close_hits)
          (close_hits-IsValid market ps (close_position m p.market p.side).0
            (close_position-IsValid m p.market p.side v))
    | inr e ↦ rw (e, close_hits) (close_hits-IsValid market ps m v)
  ]

  -- What is left after closing one position was there before, under another key.
  close_position-left :
      (m : Manager D F) (q p : OpenPosition D F) (k : Text)
      → IsValid m
      → lookup k (close_position m q.market q.side).0.positions ≡ some p
      → (lookup k m.positions ≡ some p) × (text_eq (key q) k ≡ false)
  unfolding close_position key
  close_position-left m q p k v h =
      let at = position_key q.market q.side in
      ground (arith, lookup-delete at k m.positions v.distinct, eq_of_text_eq at k)

  abbrev Misses : Text → Text → OpenPosition D F → Type 0
  Misses market k q = text_eq q.market market ≡ true → text_eq (key q) k ≡ false

  close_hits-left :
      (market : Text) (ps : List (OpenPosition D F)) (m : Manager D F) (p : OpenPosition D F)
      (k : Text)
      → IsValid m
      → lookup k (close_hits market ps m).positions ≡ some p
      → (lookup k m.positions ≡ some p) × All (Misses market k) ps
  unfolding close_hits
  close_hits-left market [] m p k v h = (h, tt)
  close_hits-left market (q ∷ ps) m p k v h = elim (Bool-cases (text_eq q.market market)) [
    | inl e ↦
        let m' = (close_position m q.market q.side).0 in
        let v' = close_position-IsValid m q.market q.side v in
        let (left, rest) = close_hits-left market ps m' p k v' (rw (e, close_hits) at h) in
        let (before, apart) = close_position-left m q p k v left in (before, (λ _. apart, rest))
    | inr e ↦
        let (before, rest) = close_hits-left market ps m p k v (rw (e, close_hits) at h) in
        (before, (λ t. ground arith, rest))
  ]

module _ {D F : Type 0} ⦃d : Decimal D⦄ ⦃f : Float F⦄ ⦃c : Convert D F⦄ where
  All-keep :
      (P : OpenPosition D F → Type 0) (test : OpenPosition D F → Bool) (k : Text)
      (p : OpenPosition D F) (m : Dict (OpenPosition D F))
      → lookup k m ≡ some p
      → test p ≡ true
      → All P (keep test (values m))
      → P p
  unfolding lookup
  All-keep P test k p [] h t a = ground arith
  All-keep P test k p ((j, q) ∷ m) h t a = elim (Bool-cases (text_eq j k)) [
    | inl e ↦
        let same : q ≡ p = ground arith in
        let passes : test q ≡ true = ap test same ∙ t in subst P same (rw (passes, keep) at a).0
    | inr e ↦ elim (Bool-cases (test q)) [
      | inl passes ↦ All-keep P test k p m (rw (e, lookup) at h) t (rw (passes, keep) at a).1
      | inr fails ↦ All-keep P test k p m (rw (e, lookup) at h) t (rw (fails, keep) at a)
    ]
  ]

  not_hit :
      (market : Text) (test : OpenPosition D F → Bool) (k : Text) (p : OpenPosition D F)
      (m : Dict (OpenPosition D F))
      → lookup k m ≡ some p
      → key p ≡ k
      → text_eq p.market market ≡ true
      → All (Misses market k) (keep test (values m))
      → test p ≡ false
  not_hit market test k p m h keyed t a = elim (Bool-cases (test p)) [
    | inl passes ↦
        let apart = All-keep (Misses market k) test k p m h passes a t in
        ground (arith, apart, text_eq_iff (key p) k, keyed)
    | inr fails ↦ fails
  ]

  pub close_exits-IsValid :
      (market : Text) (price : D) (m : Manager D F)
      → IsValid m
      → IsValid (close_exits market price m)
  unfolding close_exits
  close_exits-IsValid market price m v =
      let m' = update_prices m market price in
      let (sl_hit, tp_hit) = triggered_exits m' in
      close_hits-IsValid market tp_hit (close_hits market sl_hit m')
        (close_hits-IsValid market sl_hit m' (update_prices-IsValid m market price v))

  -- Of a valid manager, no position of the market that is left after the exits of a tick meets its
  -- stop loss or its take profit at the price of the tick, and each that is left was there before the
  -- exits, repriced.
  pub close_exits-left :
      (market : Text) (price : D) (m : Manager D F) (k : Text) (p : OpenPosition D F)
      → IsValid m
      → lookup k (close_exits market price m).positions ≡ some p
      → (lookup k (update_prices m market price).positions ≡ some p)
        × (text_eq p.market market ≡ true
            → (should_stop_loss p ≡ false) × (should_take_profit p ≡ false))
  unfolding close_exits triggered_exits
  close_exits-left market price m k p v h =
      let m' = update_prices m market price in
      let v' = update_prices-IsValid m market price v in
      let split = exits-keep (values m'.positions) in
      let (sl_hit, tp_hit) = exits (values m'.positions) in
      let v'' = close_hits-IsValid market sl_hit m' v' in
      let (before, tp_apart) =
        close_hits-left market tp_hit (close_hits market sl_hit m') p k v'' h in
      let (there, sl_apart) = close_hits-left market sl_hit m' p k v' before in
      let keyed = Entries-lookup IsKeyed k p m'.positions there v'.keyed in
      (
        there,
        λ t.
            let stopped =
              not_hit market should_stop_loss k p m'.positions there keyed t
                (subst (All (Misses market k)) (ap (λ x. x.0) split) sl_apart) in
            let taken =
              not_hit market (λ q. not (should_stop_loss q) && should_take_profit q) k p
                m'.positions there keyed t
                (subst (All (Misses market k)) (ap (λ x. x.1) split) tp_apart) in
            (stopped, ground (arith, stopped, taken)),
      )
