-- ===== src/Journal/Counts.antt =====
-- internal/journal/journal.go: the counters and the sums of the statistics.
use coinex_bot.Prelude.{
  ℕ, suc, ◌+◌, ◌≡◌, refl, sym, ap, subst, ◌∙◌, Bool, not, List, [], ◌∷◌, ◌++◌, Option, none, some,
  arith, length, length-append, if◌then◌else◌, Text,
}
use coinex_bot.Prelude.Results.{ok}
use coinex_bot.Number.{Decimal, Float, Convert}
use coinex_bot.Number.Sums.{sum_by, sum_by-append}
use coinex_bot.Journal.{
  TradeRecord, Stats, Journal, is_win, empty_stats, count_trade, average, update_stats, put, replay,
  open_journal, record_trade,
}

-- How many elements of a list pass a test.
unfoldable pub count_by {ℓ} : {A : Type ℓ} → (A → Bool) → List A → ℕ
count_by p [] = 0
count_by p (x ∷ xs) = (if p x then 1 else 0) + count_by p xs

pub count_by-append {ℓ} :
    {A : Type ℓ} (p : A → Bool) (xs ys : List A)
    → count_by p (xs ++ ys) ≡ count_by p xs + count_by p ys
unfolding count_by
count_by-append p [] ys = omega arith
count_by-append p (x ∷ xs) ys = omega (arith, count_by-append p xs ys)

-- The elements that pass a test.
unfoldable pub keep {ℓ} : {A : Type ℓ} → (A → Bool) → List A → List A
keep p [] = []
keep p (x ∷ xs) = if p x then x ∷ keep p xs else keep p xs

pub keep-append {ℓ} :
    {A : Type ℓ} (p : A → Bool) (xs ys : List A) → keep p (xs ++ ys) ≡ keep p xs ++ keep p ys
unfolding keep
keep-append p [] ys = refl
keep-append p (x ∷ xs) ys = ground (arith, keep-append p xs ys)

count_by-not {ℓ} :
    {A : Type ℓ} (p : A → Bool) (xs : List A)
    → count_by p xs + count_by (λ x. not (p x)) xs ≡ length xs
unfolding count_by
count_by-not p [] = refl
count_by-not p (x ∷ xs) = ground (arith, count_by-not p xs)

abbrev pub pnl_of : {D F : Type 0} → TradeRecord D F → D
pnl_of t = t.pnl

module _ {D F : Type 0} ⦃d : Decimal D⦄ ⦃f : Float F⦄ ⦃c : Convert D F⦄ where
  abbrev pub is_loss : TradeRecord D F → Bool
  is_loss t = not (is_win t)

  -- The statistics are those of the trades.
  pub record IsCounted (j : Journal D F) : Type 0 where
    pub total : j.stats.total_trades ≡ length j.trades
    pub wins : j.stats.winners ≡ count_by is_win j.trades
    pub losses : j.stats.losers ≡ count_by is_loss j.trades
    pub profit : j.stats.total_pnl ≡ sum_by pnl_of d.zero_dec j.trades

  count_trade_lem :
      (t : TradeRecord D F) (s : Stats D F)
      → let s' = count_trade t s in
        (s'.total_trades ≡ suc s.total_trades)
        × (s'.winners ≡ (if is_win t then 1 else 0) + s.winners)
        × (s'.losers ≡ (if is_loss t then 1 else 0) + s.losers)
        × (s'.total_pnl ≡ d.add s.total_pnl t.pnl)
  unfolding count_trade
  count_trade_lem t s = ground arith

  put-IsCounted : (j : Journal D F) (t : TradeRecord D F) → IsCounted j → IsCounted (put j t)
  unfolding put update_stats average count_by sum_by
  put-IsCounted j t v =
      let (total, wins, losses, profit) = count_trade_lem t j.stats in
      record {
        total = omega (arith, total, v.total, length-append j.trades (t ∷ []));
        wins = omega (arith, wins, v.wins, count_by-append is_win j.trades (t ∷ []));
        losses = omega (arith, losses, v.losses, count_by-append is_loss j.trades (t ∷ []));
        profit =
            profit
            ∙ ap (λ x. d.add x t.pnl) v.profit
            ∙ sym (sum_by-append pnl_of d.zero_dec j.trades (t ∷ []));
      }

  replay-IsCounted :
      (j : Journal D F) (ls : List (Option (TradeRecord D F)))
      → IsCounted j
      → IsCounted (replay j ls)
  unfolding replay
  replay-IsCounted j [] v = v
  replay-IsCounted j (none ∷ ls) v = replay-IsCounted j ls v
  replay-IsCounted j (some t ∷ ls) v = replay-IsCounted (put j t) ls (put-IsCounted j t v)

  -- The records that a run of the bot makes, each with the error of writing it or none.
  unfoldable pub records : Journal D F → List (TradeRecord D F × Option Text) → Journal D F
  records j [] = j
  records j ((t, failed) ∷ rs) = records (record_trade j t failed).0 rs

  record_trade-IsCounted :
      (j : Journal D F) (t : TradeRecord D F) (failed : Option Text)
      → IsCounted j
      → IsCounted (record_trade j t failed).0
  unfolding record_trade
  record_trade-IsCounted j t (some e) v = v
  record_trade-IsCounted j t none v =
      put-IsCounted _ _
        (record { total = v.total; wins = v.wins; losses = v.losses; profit = v.profit })

  records-IsCounted :
      (j : Journal D F) (rs : List (TradeRecord D F × Option Text))
      → IsCounted j
      → IsCounted (records j rs)
  unfolding records
  records-IsCounted j [] v = v
  records-IsCounted j ((t, failed) ∷ rs) v =
      records-IsCounted (record_trade j t failed).0 rs (record_trade-IsCounted j t failed v)

  -- Whatever file is opened and whatever is then recorded, with writes that fail or not, the
  -- statistics count the trades in memory: the total is their number, the winners are those of
  -- positive profit, the losers the others, and the total profit is the sum over them in order.
  pub open_journal-IsCounted :
      (path : Text) (lines : List (Option (TradeRecord D F))) (j : Journal D F)
      (rs : List (TradeRecord D F × Option Text))
      → open_journal path (ok lines) none ≡ ok j
      → IsCounted (records j rs)
  unfolding open_journal sum_by count_by
  open_journal-IsCounted path lines j rs h =
      let start : Journal D F = record {
        path = path;
        lines = lines;
        trades = [];
        stats = empty_stats;
      } in
      let empty : IsCounted start = record {
        total = refl;
        wins = refl;
        losses = refl;
        profit = refl;
      } in
      let e : replay start lines ≡ j = cc in
      records-IsCounted j rs (subst IsCounted e (replay-IsCounted start lines empty))
