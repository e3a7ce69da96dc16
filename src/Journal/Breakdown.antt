-- ===== src/Journal/Breakdown.antt =====
-- internal/journal/journal.go: the statistics of each strategy.
use coinex_bot.Prelude.{
  ◌+◌, ◌-◌, ◌≡◌, refl, ap, subst, ◌∙◌, Bool, List, [], ◌∷◌, ◌++◌, Option, none, some, arith,
  if◌then◌else◌, Text, append-nil, length, text_eq, eq_of_text_eq,
}
use coinex_bot.Prelude.Dict.{lookup, lookup-insert}
use coinex_bot.Prelude.Results.{ok}
use coinex_bot.Number.{Decimal, Float, Convert}
use coinex_bot.Number.Sums.{sum_by}
use coinex_bot.Journal.{
  TradeRecord, StrategyStats, Journal, is_win, empty_stats, strategy_step, or_new,
  no_strategy_stats, break_down, update_stats, put, replay, open_journal, record_trade,
}
use coinex_bot.Journal.Clock.{duration_text}
use coinex_bot.Journal.Counts.{count_by, keep, keep-append, pnl_of, records}

module _ {D F : Type 0} ⦃d : Decimal D⦄ ⦃f : Float F⦄ ⦃c : Convert D F⦄ where
  abbrev pub is_of : Text → TradeRecord D F → Bool
  is_of name t = text_eq t.strategy name

  abbrev pub entry : Journal D F → Text → StrategyStats D F
  entry j name = or_new (lookup name j.stats.strategy_breakdown)

  -- The statistics of trades of one strategy, one after another.
  stats_of : StrategyStats D F → List (TradeRecord D F) → StrategyStats D F
  stats_of ss [] = ss
  stats_of ss (t ∷ ts) = stats_of (strategy_step t ss) ts

  stats_of-append :
      (ss : StrategyStats D F) (ts us : List (TradeRecord D F))
      → stats_of ss (ts ++ us) ≡ stats_of (stats_of ss ts) us
  unfolding stats_of
  stats_of-append ss [] us = refl
  stats_of-append ss (t ∷ ts) us = stats_of-append (strategy_step t ss) ts us

  stats_of-counts :
      (ss : StrategyStats D F) (ts : List (TradeRecord D F))
      → ((stats_of ss ts).trades ≡ ss.trades + length ts)
        × ((stats_of ss ts).winners ≡ ss.winners + count_by is_win ts)
        × ((stats_of ss ts).total_pnl ≡ sum_by pnl_of ss.total_pnl ts)
  unfolding stats_of strategy_step count_by sum_by
  stats_of-counts ss [] = (omega arith, omega arith, refl)
  stats_of-counts ss (t ∷ ts) =
      let (number, wins, profit) = stats_of-counts (strategy_step t ss) ts in
      (omega (arith, number), ground (arith, wins), profit)

  abbrev IsBrokenDown : Text → Journal D F → Type 0
  IsBrokenDown name j = entry j name ≡ stats_of no_strategy_stats (keep (is_of name) j.trades)

  entry-put :
      (j : Journal D F) (t : TradeRecord D F) (name : Text)
      → entry (put j t) name
        ≡ (if is_of name t then strategy_step t (entry j name) else entry j name)
  unfolding put update_stats break_down lookup
  entry-put j t name =
      let old = j.stats.strategy_breakdown in
      let new = strategy_step t (or_new (lookup t.strategy old)) in
      ground (arith, lookup-insert t.strategy name new old, eq_of_text_eq t.strategy name)

  put-IsBrokenDown :
      (name : Text) (j : Journal D F) (t : TradeRecord D F)
      → IsBrokenDown name j
      → IsBrokenDown name (put j t)
  unfolding put stats_of keep
  put-IsBrokenDown name j t v =
      let kept = keep (is_of name) j.trades in
      ground (
        arith,
        entry-put j t name,
        keep-append (is_of name) j.trades (t ∷ []),
        append-nil kept,
        stats_of-append no_strategy_stats kept (t ∷ []),
      )

  replay-IsBrokenDown :
      (name : Text) (j : Journal D F) (ls : List (Option (TradeRecord D F)))
      → IsBrokenDown name j
      → IsBrokenDown name (replay j ls)
  unfolding replay
  replay-IsBrokenDown name j [] v = v
  replay-IsBrokenDown name j (none ∷ ls) v = replay-IsBrokenDown name j ls v
  replay-IsBrokenDown name j (some t ∷ ls) v =
      replay-IsBrokenDown name (put j t) ls (put-IsBrokenDown name j t v)

  record_trade-IsBrokenDown :
      (name : Text) (j : Journal D F) (t : TradeRecord D F) (failed : Option Text)
      → IsBrokenDown name j
      → IsBrokenDown name (record_trade j t failed).0
  unfolding record_trade
  record_trade-IsBrokenDown name j t (some e) v = v
  record_trade-IsBrokenDown name j t none v =
      let t' = record t { duration = duration_text (t.exit_time - t.entry_time) } in
      put-IsBrokenDown name (record j { lines = j.lines ++ (some t' ∷ []) }) t' v

  records-IsBrokenDown :
      (name : Text) (j : Journal D F) (rs : List (TradeRecord D F × Option Text))
      → IsBrokenDown name j
      → IsBrokenDown name (records j rs)
  unfolding records
  records-IsBrokenDown name j [] v = v
  records-IsBrokenDown name j ((t, failed) ∷ rs) v =
      records-IsBrokenDown name (record_trade j t failed).0 rs
        (record_trade-IsBrokenDown name j t failed v)

  -- From any file, and after any trades recorded, what the breakdown holds for a strategy, zeros for
  -- one that it lacks, are the number of its trades, that of its winners and the sum of its profits.
  pub open_journal-entry :
      (path : Text) (lines : List (Option (TradeRecord D F))) (j : Journal D F)
      (rs : List (TradeRecord D F × Option Text)) (name : Text)
      → open_journal path (ok lines) none ≡ ok j
      → let own = keep (is_of name) (records j rs).trades in
        ((entry (records j rs) name).trades ≡ length own)
        × ((entry (records j rs) name).winners ≡ count_by is_win own)
        × ((entry (records j rs) name).total_pnl ≡ sum_by pnl_of d.zero_dec own)
  unfolding open_journal stats_of keep lookup
  open_journal-entry path lines j rs name h =
      let start : Journal D F = record {
        path = path;
        lines = lines;
        trades = [];
        stats = empty_stats;
      } in
      let e : replay start lines ≡ j = cc in
      let replayed = replay-IsBrokenDown name start lines refl in
      let same = records-IsBrokenDown name j rs (subst (IsBrokenDown name) e replayed) in
      let (number, wins, profit) =
        stats_of-counts no_strategy_stats (keep (is_of name) (records j rs).trades) in
      (
        omega (arith, ap (λ (ss : StrategyStats D F). ss.trades) same, number),
        omega (arith, ap (λ (ss : StrategyStats D F). ss.winners) same, wins),
        ap (λ (ss : StrategyStats D F). ss.total_pnl) same ∙ profit,
      )
