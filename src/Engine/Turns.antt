-- ===== src/Engine/Turns.antt =====
-- internal/engine/engine.go, `Run`: turns in paper mode, with the ensemble that `New` made.
use coinex_bot.Prelude.{
  ℕ, suc, ◌+◌, ◌≤◌, ◌⊎◌, ◌++◌, subst, bytes, All, length-append, ◌<◌, ◌≡◌, refl, ap, ◌∙◌, sym, true,
  false, List, [], ◌∷◌, Option, some, arith, length, inl, inr,
}
use coinex_bot.Prelude.Results.{ok, Gives, gives, Gives-bind, Gives-imp, Gives-value}
use coinex_bot.Number.{Decimal, Float, Convert}
use coinex_bot.Models.{Time, Duration, Candle, Signal, flat, is_flat}
use coinex_bot.Api.Client.{get_klines}
use coinex_bot.Strategies.Registry.{BuiltIn}
use coinex_bot.Strategies.Totals.Evaluate.{CanRun}
use coinex_bot.Ml.Ensemble.{Ensemble, new_ensemble, maybe_retrain, predict}
use coinex_bot.Engine.Tick.{Bot, tick}
use coinex_bot.Engine.Ticks.{tick-IsTicked}
use coinex_bot.Engine.Loop.{Loop, Turn, retrain_if_any, turn, turns}

module _ {F : Type 0} ⦃f : Float F⦄ where
  retrain-new :
      (later : Time) (min_conf : F) (interval : Duration)
      → retrain_if_any later (some (new_ensemble min_conf interval))
        ≡ ok (some (new_ensemble min_conf interval))
  unfolding retrain_if_any maybe_retrain new_ensemble
  retrain-new later min_conf interval = refl

  predict-new :
      (x : List F) (min_conf : F) (interval : Duration)
      → predict (new_ensemble min_conf interval) x ≡ ok (flat, f.of_int 0)
  unfolding predict new_ensemble
  predict-new x min_conf interval = refl

  flat_vote :
      (min_conf : F) (interval : Duration) (o : Option (Ensemble F))
      → o ≡ some (new_ensemble min_conf interval)
      → (e : Ensemble F) → o ≡ some e
      → (x : List F) → predict e x ≡ ok (flat, f.of_int 0)
  flat_vote min_conf interval o new e h x =
      let same : new_ensemble min_conf interval ≡ e = cc (new, h) in
      subst (λ e. predict e x ≡ ok (flat, f.of_int 0)) same (predict-new x min_conf interval)

  logged_by :
      (sig_log log : List (Signal F))
      → (log ≡ sig_log)
        ⊎ ((sig : Signal F) × (is_flat sig.signal ≡ false) × (log ≡ sig_log ++ (sig ∷ [])))
      → length log ≤ suc (length sig_log)
  logged_by sig_log log (inl e) = omega (arith, ap length e)
  logged_by sig_log log (inr (sig, _, e)) =
      omega (arith, ap length e, length-append sig_log (sig ∷ []))

module _ {D F : Type 0} ⦃d : Decimal D⦄ ⦃f : Float F⦄ ⦃c : Convert D F⦄ where
  -- The exchange answers with candles, on which the strategies can run.
  abbrev pub IsAnswered : List (BuiltIn F) → Turn D F → Type 0
  IsAnswered strats t =
      (candles : List (Candle D)) × (get_klines (bytes "1hour") t.klines ≡ ok candles)
      × (0 < length candles)
      × All (λ s. CanRun s candles) strats

  -- Paper mode with a base quantity that parses, and open orders within the limit.
  pub record IsPaper (b : Bot D F) : Type 0 where
    pub paper : b.engine.client.paper ≡ true
    pub parsed : (qty : D) × (d.new_from_string b.engine.cfg.base_qty ≡ some qty)
    pub bounded : length b.engine.open_orders ≤ b.engine.cfg.max_open_orders

  -- The state after `n` turns from `l`: the log has at most so many signals more, the ensemble is
  -- the new one, and its vote is flat.
  pub record IsSteady (min_conf : F) (interval : Duration) (n : ℕ) (l l' : Loop D F) : Type 0 where
    pub papers : IsPaper l'.bot
    pub strats : l'.bot.strats ≡ l.bot.strats
    pub logged : length l'.bot.signal_log ≤ length l.bot.signal_log + n
    pub untrained : l'.ensemble ≡ some (new_ensemble min_conf interval)
    pub votes_flat :
        (e : Ensemble F) → l'.ensemble ≡ some e → (x : List F) → predict e x ≡ ok (flat, f.of_int 0)

  turn-Gives :
      (min_conf : F) (interval : Duration) (l : Loop D F) (t : Turn D F)
      → l.ensemble ≡ some (new_ensemble min_conf interval)
      → IsPaper l.bot
      → IsAnswered l.bot.strats t
      → Gives (IsSteady min_conf interval 1 l) (turn l t)
  unfolding turn
  turn-Gives min_conf interval l t new p (candles, fetched, n, can) =
      let k =
        tick-IsTicked t.now t.stamp t.reply t.ended t.klines t.ob l.bot candles p.parsed.0 fetched n
          can p.paper p.parsed.1 p.bounded in
      let r = tick t.now t.stamp t.reply t.ended t.klines t.ob l.bot in
      let (trade, came, _) = Gives-value k.came in
      let (bounded, cfg, client) = k.kept in
      rw (came, new, retrain-new t.later min_conf interval, turn)
        (gives (record {
          papers = record {
            paper = ap (λ x. x.paper) client ∙ p.paper;
            parsed = (p.parsed.0, ap (λ x. d.new_from_string x.base_qty) cfg ∙ p.parsed.1);
            bounded = bounded;
          };
          strats = k.same;
          logged = omega (arith, logged_by l.bot.signal_log r.0.signal_log k.logged);
          untrained = refl;
          votes_flat = flat_vote min_conf interval (some (new_ensemble min_conf interval)) refl;
        }))

  -- One turn, and then others.
  IsSteady-trans :
      (min_conf : F) (interval : Duration) (n : ℕ) (l m l' : Loop D F)
      → IsSteady min_conf interval 1 l m
      → IsSteady min_conf interval n m l'
      → IsSteady min_conf interval (suc n) l l'
  IsSteady-trans min_conf interval n l m l' a b = record {
    papers = b.papers;
    strats = b.strats ∙ a.strats;
    logged = omega (arith, a.logged, b.logged);
    untrained = b.untrained;
    votes_flat = b.votes_flat;
  }

  -- In paper mode, with a base quantity that parses, open orders within the limit and the ensemble
  -- that New makes, turns of Run that the exchange each answers with candles on which the strategies
  -- can run all come back. They keep the mode, the limit and the strategies and log at most one
  -- signal each; the ensemble is never trained, so that Predict is flat for every row.
  pub turns-Gives :
      (min_conf : F) (interval : Duration) (ts : List (Turn D F)) (l : Loop D F)
      → l.ensemble ≡ some (new_ensemble min_conf interval)
      → IsPaper l.bot
      → All (IsAnswered l.bot.strats) ts
      → Gives (IsSteady min_conf interval (length ts) l) (turns l ts)
  unfolding turns
  turns-Gives min_conf interval [] l new p h = gives (record {
    papers = p;
    strats = refl;
    logged = omega arith;
    untrained = new;
    votes_flat = flat_vote min_conf interval l.ensemble new;
  })
  turns-Gives min_conf interval (t ∷ ts) l new p h =
      Gives-bind (turn-Gives min_conf interval l t new p h.0) λ m a.
        Gives-imp
          (turns-Gives min_conf interval ts m a.untrained a.papers
            (subst (λ ss. All (IsAnswered ss) ts) (sym a.strats) h.1))
          (λ l' b. IsSteady-trans min_conf interval (length ts) l m l' a b)
