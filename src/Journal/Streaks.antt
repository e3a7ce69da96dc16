-- ===== src/Journal/Streaks.antt =====
-- internal/journal/journal.go: the longest runs of wins and of losses.
use coinex_bot.Prelude.{
  ℕ, suc, ◌+◌, ◌≤◌, ◌≡◌, refl, Bool, true, false, not, List, [], ◌∷◌, ◌++◌, Option, none, some,
  arith, max, map, if◌then◌else◌, Text, subst,
}
use coinex_bot.Prelude.Results.{ok}
use coinex_bot.Number.{Decimal, Float, Convert}
use coinex_bot.Journal.{
  TradeRecord, Journal, Streak, no_streak, streak_step, streaks, is_win, empty_stats, update_stats,
  put, replay, open_journal, record_trade,
}
use coinex_bot.Journal.Counts.{records}

abbrev same : Bool → Bool → Bool
same true b = b
same false b = not b

-- How many results at the front are `b`.
pub leading : Bool → List Bool → ℕ
leading b [] = 0
leading b (w ∷ ws) = let n = leading b ws in if same b w then suc n else 0

-- The length of the longest run of `b`.
pub longest : Bool → List Bool → ℕ
unfolding leading
longest b [] = 0
longest b (w ∷ ws) = max (leading b (w ∷ ws)) (longest b ws)

leading_le_longest : (b : Bool) (ws : List Bool) → leading b ws ≤ longest b ws
unfolding longest leading
leading_le_longest b [] = omega arith
leading_le_longest b (w ∷ ws) = omega arith

streaks-max :
    (k : Streak) (ws : List Bool)
    → k.consec_w ≤ k.max_w
    → k.consec_l ≤ k.max_l
    → ((streaks k ws).max_w ≡ max (max k.max_w (k.consec_w + leading true ws)) (longest true ws))
      × ((streaks k ws).max_l
          ≡ max (max k.max_l (k.consec_l + leading false ws)) (longest false ws))
unfolding streaks streak_step leading longest
streaks-max k [] p q = (omega arith, omega arith)
streaks-max k (true ∷ ws) p q =
    let rest = streaks-max (streak_step k true) ws (ground arith) (ground arith) in
    (ground (arith, rest.0), ground (arith, rest.1, leading_le_longest false ws))
streaks-max k (false ∷ ws) p q =
    let rest = streaks-max (streak_step k false) ws (ground arith) (ground arith) in
    (ground (arith, rest.0, leading_le_longest true ws), ground (arith, rest.1))

module _ {D F : Type 0} ⦃d : Decimal D⦄ ⦃f : Float F⦄ ⦃c : Convert D F⦄ where
  abbrev results : Journal D F → List Bool
  results j = map is_win j.trades

  pub record IsStreaked (j : Journal D F) : Type 0 where
    pub wins : j.stats.max_consec_wins ≡ longest true (results j)
    pub losses : j.stats.max_consec_loss ≡ longest false (results j)

  put-IsStreaked : (j : Journal D F) (t : TradeRecord D F) → IsStreaked (put j t)
  unfolding put update_stats longest leading
  put-IsStreaked j t =
      let all = map is_win (j.trades ++ (t ∷ [])) in
      let (w, l) = streaks-max no_streak all (omega arith) (omega arith) in
      record {
        wins = omega (arith, w, leading_le_longest true all);
        losses = omega (arith, l, leading_le_longest false all);
      }

  replay-IsStreaked :
      (j : Journal D F) (ls : List (Option (TradeRecord D F)))
      → IsStreaked j
      → IsStreaked (replay j ls)
  unfolding replay
  replay-IsStreaked j [] v = v
  replay-IsStreaked j (none ∷ ls) v = replay-IsStreaked j ls v
  replay-IsStreaked j (some t ∷ ls) v = replay-IsStreaked (put j t) ls (put-IsStreaked j t)

  record_trade-IsStreaked :
      (j : Journal D F) (t : TradeRecord D F) (failed : Option Text)
      → IsStreaked j
      → IsStreaked (record_trade j t failed).0
  unfolding record_trade
  record_trade-IsStreaked j t (some e) v = v
  record_trade-IsStreaked j t none v = put-IsStreaked _ _

  records-IsStreaked :
      (j : Journal D F) (rs : List (TradeRecord D F × Option Text))
      → IsStreaked j
      → IsStreaked (records j rs)
  unfolding records
  records-IsStreaked j [] v = v
  records-IsStreaked j ((t, failed) ∷ rs) v =
      records-IsStreaked (record_trade j t failed).0 rs (record_trade-IsStreaked j t failed v)

  -- From any file, and after any trades recorded, MaxConsecWins is the length of the longest run of
  -- trades with a positive profit, and MaxConsecLoss that of the longest run of the others.
  pub open_journal-IsStreaked :
      (path : Text) (lines : List (Option (TradeRecord D F))) (j : Journal D F)
      (rs : List (TradeRecord D F × Option Text))
      → open_journal path (ok lines) none ≡ ok j
      → IsStreaked (records j rs)
  unfolding open_journal longest leading
  open_journal-IsStreaked path lines j rs h =
      let start : Journal D F = record {
        path = path;
        lines = lines;
        trades = [];
        stats = empty_stats;
      } in
      let empty : IsStreaked start = record { wins = refl; losses = refl } in
      let e : replay start lines ≡ j = cc in
      records-IsStreaked j rs (subst IsStreaked e (replay-IsStreaked start lines empty))
