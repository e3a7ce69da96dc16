-- ===== src/Backtest/Trades.antt =====
-- internal/backtest/backtest.go: what the trades of a replay look like, and that `Run` returns.
use coinex_bot.Prelude.{
  ◌⊎◌, subst, ℕ, zero, suc, ◌+◌, ◌-◌, ◌≤◌, ◌<◌, ◌≡◌, ◌≢◌, refl, sym, ap, inl, inr, true, false,
  List, [], ◌∷◌, Option, none, some, arith, length, take, drop, get_elem?, if◌then◌else◌,
  length-append, length-drop, All, All-append, Option-cases,
}
use coinex_bot.Number.{Float, Convert}
use coinex_bot.Models.{
  Time, Candle, Signal, SignalType, long, short, flat, is_long, is_short, is_flat,
}
use coinex_bot.Prelude.Results.{Gives, gives, Gives-imp, Gives-value, ok}
use coinex_bot.Backtest.{
  Strategy, Config, Trade, Holding, Replay, ExitReason, stop_loss, take_profit, signal_flip,
  end_of_data, empty_book, pnl_fraction, exit_reason_of, settle, close_holding, slipped_exit,
  check_exit, check_entry, signal_eq, bar, bars, replay, start,
}

drop-cons {ℓ} :
    {A : Type ℓ} (i : ℕ) (xs : List A) (x : A) (rest : List A)
    → drop i xs ≡ x ∷ rest
    → (get_elem? xs i ≡ some x) × (drop (suc i) xs ≡ rest)
drop-cons zero [] x rest h = absurd (ground (arith, h))
drop-cons zero (y ∷ ys) x rest h = (cc h, cc h)
drop-cons (suc i) [] x rest h = absurd (ground (arith, h))
drop-cons (suc i) (y ∷ ys) x rest h = drop-cons i ys x rest h

differs : (a b : SignalType) → signal_eq a b ≡ false → a ≢ b
differs long b h e = ground (arith, subst (λ x. is_long x ≡ false) (sym e) h)
differs short b h e = ground (arith, subst (λ x. is_short x ≡ false) (sym e) h)
differs flat b h e = ground (arith, subst (λ x. is_flat x ≡ false) (sym e) h)

not_flat : (a : SignalType) → is_flat a ≡ false → a ≢ flat
not_flat a h e = ground (arith, subst (λ x. is_flat x ≡ false) e h)

module _ {F : Type 0} ⦃f : Float F⦄ where
  -- That the reason is the first of the three tests of the loop that holds, written out: the move from
  -- the entry price against the two limits, then a signal for the other side. No trade of the loop ends
  -- for the end of the data.
  abbrev pub IsFirstTest : Config F → SignalType → F → Trade F → Type 0
  IsFirstTest cfg sig price t =
      let move =
        f.over (if is_long t.side then f.minus price t.entry_price else f.minus t.entry_price price)
          t.entry_price in
      let stopped = f.le move (f.negate cfg.stop_loss_pct) in
      let taken = f.le cfg.take_profit_pct move in
      elim t.exit_reason [
        | stop_loss ↦ stopped ≡ true
        | take_profit ↦ (stopped ≡ false) × (taken ≡ true)
        | signal_flip ↦ (stopped ≡ false) × (taken ≡ false) × (sig ≢ flat) × (sig ≢ t.side)
        | end_of_data ↦ ⊥
      ]

  abbrev pub held : Option (Holding F) → ℕ
  held none = 0
  held (some p) = 1

  -- `extra` is how many trades more there may be than bars.
  pub record IsSound (P : Trade F → Type 0) (extra : ℕ) (s : Replay F) : Type 0 where
    pub bounded : length s.trades + held s.pos ≤ extra + length s.equity_curve
    pub explained : All P s.trades

  exit_reason_of-IsFirstTest :
      (cfg : Config F) (p : Holding F) (price : F) (sig : SignalType) (time : Time) (exit : F)
      (reason : ExitReason)
      → exit_reason_of cfg p price sig ≡ some reason
      → IsFirstTest cfg sig price (settle cfg p time exit reason (pnl_fraction p price))
  unfolding exit_reason_of settle pnl_fraction
  exit_reason_of-IsFirstTest cfg p price sig time exit stop_loss h = ground arith
  exit_reason_of-IsFirstTest cfg p price sig time exit take_profit h = ground arith
  exit_reason_of-IsFirstTest cfg p price sig time exit signal_flip h =
      let awake : is_flat sig ≡ false = ground arith in
      let other : signal_eq sig p.side ≡ false = ground arith in
      (ground arith, ground arith, not_flat sig awake, differs sig p.side other)
  exit_reason_of-IsFirstTest cfg p price sig time exit end_of_data h = ground arith

  check_exit-at :
      (cfg : Config F) (time : Time) (price : F) (sig : SignalType) (s0 : Replay F)
      (pos : Option (Holding F))
      → let s = record s0 { pos = pos } in
        (check_exit cfg time price sig s ≡ s)
        ⊎ ((p : Holding F) × (reason : ExitReason) × (s.pos ≡ some p)
            × (exit_reason_of cfg p price sig ≡ some reason)
            × (check_exit cfg time price sig s
                ≡ close_holding s (
                    settle cfg p time
                      (slipped_exit cfg p.side price)
                      reason
                      (pnl_fraction p price))))
  unfolding check_exit
  check_exit-at cfg time price sig s0 none = inl refl
  check_exit-at cfg time price sig s0 (some p) =
      elim (Option-cases (exit_reason_of cfg p price sig)) [
        | inl e ↦ inl (rw (e, check_exit) refl)
        | inr (reason, e) ↦ inr (p, reason, refl, e, rw (e, check_exit) refl)
      ]

  check_exit-cases :
      (cfg : Config F) (time : Time) (price : F) (sig : SignalType) (s : Replay F)
      → (check_exit cfg time price sig s ≡ s)
        ⊎ ((p : Holding F) × (reason : ExitReason) × (s.pos ≡ some p)
            × (exit_reason_of cfg p price sig ≡ some reason)
            × (check_exit cfg time price sig s
                ≡ close_holding s (
                    settle cfg p time
                      (slipped_exit cfg p.side price)
                      reason
                      (pnl_fraction p price))))
  unfolding check_exit
  check_exit-cases cfg time price sig s = check_exit-at cfg time price sig s s.pos

  -- A trade that the bar may settle.
  abbrev CanSettle : Config F → Time → F → SignalType → (Trade F → Type 0) → Type 0
  CanSettle cfg time price sig P =
      (p : Holding F) (reason : ExitReason)
      → exit_reason_of cfg p price sig ≡ some reason
      → P (settle cfg p time (slipped_exit cfg p.side price) reason (pnl_fraction p price))

  check_exit-IsSound :
      (P : Trade F → Type 0) (cfg : Config F) (time : Time) (price : F) (sig : SignalType) (n : ℕ)
      (s : Replay F)
      → CanSettle cfg time price sig P
      → IsSound P n s
      → IsSound P n (check_exit cfg time price sig s)
  unfolding close_holding
  check_exit-IsSound P cfg time price sig n s settles v =
      elim (check_exit-cases cfg time price sig s) [
        | inl e ↦ subst (IsSound P n) (sym e) v
        | inr (p, reason, held_p, why, e) ↦
            let t =
              settle cfg p time (slipped_exit cfg p.side price) reason (pnl_fraction p price) in
            let size = length-append s.trades (t ∷ []) in
            let one : held s.pos ≡ 1 = ap held held_p in
            subst (IsSound P n) (sym e) (record {
              bounded = omega (arith, v.bounded, size, one);
              explained = All-append P s.trades (t ∷ []) v.explained (settles p reason why, tt);
            })
      ]

  check_exit-curve :
      (cfg : Config F) (time : Time) (price : F) (sig : SignalType) (s : Replay F)
      → (check_exit cfg time price sig s).equity_curve ≡ s.equity_curve
  unfolding close_holding
  check_exit-curve cfg time price sig s = elim (check_exit-cases cfg time price sig s) [
    | inl e ↦ ap (λ (x : Replay F). x.equity_curve) e
    | inr (p, reason, held_p, why, e) ↦ ap (λ (x : Replay F). x.equity_curve) e
  ]

  check_entry-at :
      (cfg : Config F) (i : ℕ) (time : Time) (price : F) (sig : SignalType) (s0 : Replay F)
      (pos : Option (Holding F))
      → let s = record s0 { pos = pos } in
        let s' = check_entry cfg i time price sig s in
        (s'.trades ≡ s.trades) × (s'.equity_curve ≡ s.equity_curve) × (held s'.pos ≤ 1)
  unfolding check_entry
  check_entry-at cfg i time price sig s0 (some p) = (refl, refl, omega arith)
  check_entry-at cfg i time price sig s0 none = ground arith

  bar-IsSound :
      (P : Trade F → Type 0) (cfg : Config F) (i : ℕ) (time : Time) (price : F) (sig : SignalType)
      (s : Replay F)
      → CanSettle cfg time price sig P
      → IsSound P 0 s
      → IsSound P 0 (bar cfg i time price sig s)
  unfolding bar
  bar-IsSound P cfg i time price sig s settles v =
      let s' = check_exit cfg time price sig s in
      let v' = check_exit-IsSound P cfg time price sig 0 s settles v in
      let (trades, curve, one) = check_entry-at cfg i time price sig s' s'.pos in
      let s'' = check_entry cfg i time price sig s' in
      let size = length-append s''.equity_curve (s''.equity ∷ []) in
      record {
        bounded = omega (arith, v'.bounded, size, one, ap length trades, ap length curve);
        explained = subst (All P) (sym trades) v'.explained;
      }

  pub bar-curve :
      (cfg : Config F) (i : ℕ) (time : Time) (price : F) (sig : SignalType) (s : Replay F)
      → length (bar cfg i time price sig s).equity_curve ≡ suc (length s.equity_curve)
  unfolding bar
  bar-curve cfg i time price sig s =
      let s' = check_exit cfg time price sig s in
      let s'' = check_entry cfg i time price sig s' in
      let (trades, curve, one) = check_entry-at cfg i time price sig s' s'.pos in
      let size = length-append s''.equity_curve (s''.equity ∷ []) in
      omega (arith, size, ap length curve, ap length (check_exit-curve cfg time price sig s))

module _ {D F : Type 0} ⦃f : Float F⦄ ⦃c : Convert D F⦄ (cfg : Config F)
    (strategy : Strategy D F) where
  -- Evaluate comes back at each candle after the warmup, from the candles up to it.
  abbrev pub IsAnswering : List (Candle D) → Type 0
  IsAnswering candles =
      (i : ℕ)
      → cfg.warmup_bars ≤ i
      → i < length candles
      → Gives (λ _. Unit {0}) (strategy.evaluate (take (suc i) candles) empty_book)

  -- The trade ends at one of the candles, at its close with the slippage, for the first test that
  -- holds there with the signal that the strategy gives from the candles up to it.
  abbrev pub IsExplained : List (Candle D) → Trade F → Type 0
  IsExplained candles t =
      (i : ℕ) × (x : Candle D) × (sig : Signal F) × (get_elem? candles i ≡ some x)
      × (strategy.evaluate (take (suc i) candles) empty_book ≡ ok sig)
      × (t.exit_time ≡ x.open_time)
      × (t.exit_price ≡ slipped_exit cfg t.side (c.float64 x.close))
      × IsFirstTest cfg sig.signal (c.float64 x.close) t

  settles-IsExplained :
      (candles : List (Candle D)) (i : ℕ) (x : Candle D) (sig : Signal F)
      → get_elem? candles i ≡ some x
      → strategy.evaluate (take (suc i) candles) empty_book ≡ ok sig
      → CanSettle cfg x.open_time (c.float64 x.close) sig.signal (IsExplained candles)
  unfolding settle
  settles-IsExplained candles i x sig here answered p reason why = (
    i,
    x,
    sig,
    here,
    answered,
    refl,
    refl,
    exit_reason_of-IsFirstTest cfg p (c.float64 x.close) sig.signal x.open_time
        (slipped_exit cfg p.side (c.float64 x.close)) reason why,
  )

  bars-IsSound :
      (candles : List (Candle D)) (i : ℕ) (rest : List (Candle D)) (s : Replay F)
      → IsAnswering candles
      → cfg.warmup_bars ≤ i
      → drop i candles ≡ rest
      → IsSound (IsExplained candles) 0 s
      → Gives
          (λ (s' : Replay F).
            IsSound (IsExplained candles) 0 s'
            × (length s'.equity_curve ≡ length s.equity_curve + length rest))
          (bars cfg strategy candles i rest s)
  unfolding bars
  bars-IsSound candles i [] s answers late at v = gives (v, omega arith)
  bars-IsSound candles i (x ∷ rest) s answers late at v =
      let inside : i < length candles = omega (arith, length-drop i candles, ap length at) in
      let (sig, e, _) = Gives-value (answers i late inside) in
      let (here, next) = drop-cons i candles x rest at in
      let price = c.float64 x.close in
      let s' = bar cfg i x.open_time price sig.signal s in
      let v' =
        bar-IsSound (IsExplained candles) cfg i x.open_time price sig.signal s
          (settles-IsExplained candles i x sig here e) v in
      rw (e, bars)
        (Gives-imp (bars-IsSound candles (suc i) rest s' answers (omega arith) next v')
          (λ r h. (h.0, omega (arith, h.1, bar-curve cfg i x.open_time price sig.signal s))))

  -- If the strategy answers at each candle after the warmup, the replay comes back. There have been at
  -- most as many trades as candles after the warmup, a position that is held counted in, and each trade
  -- ended at one of the candles, at its close with the slippage, for the reason that is the first to
  -- hold there: the stop, the target, or a signal of the strategy at that candle for the other side.
  pub replay-IsSound :
      (candles : List (Candle D))
      → IsAnswering candles
      → Gives
          (λ (s : Replay F).
            IsSound (IsExplained candles) 0 s
            × (length s.equity_curve ≡ length candles - cfg.warmup_bars))
          (replay cfg strategy candles)
  unfolding replay
  replay-IsSound candles answers =
      let w = cfg.warmup_bars in
      Gives-imp
        (bars-IsSound candles w (drop w candles) (start cfg) answers (omega arith) refl
          (record { bounded = omega arith; explained = tt }))
        (λ s h. (h.0, omega (arith, h.1, length-drop w candles)))
