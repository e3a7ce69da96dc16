-- ===== src/Journal/Reopen.antt =====
-- internal/journal/journal.go: what a journal is after it has been closed and opened again.
use coinex_bot.Prelude.{
  ℕ, ◌≡◌, refl, ap, ap₂, subst, ◌∙◌, List, [], ◌∷◌, ◌++◌, Option, none, some, Text, length, min,
  arith, length-last_of, take, take-append-drop, ltb, if◌then◌else◌, ◌-◌,
}
use coinex_bot.Prelude.Results.{Result, ok}
use coinex_bot.Number.{Decimal, Float, Convert}
use coinex_bot.Journal.{
  TradeRecord, Journal, empty_stats, put, replay, open_journal, record_trade, recent_trades,
}
use coinex_bot.Journal.Clock.{duration_text}
use coinex_bot.Journal.Counts.{records}

module _ {D F : Type 0} ⦃d : Decimal D⦄ ⦃f : Float F⦄ ⦃c : Convert D F⦄ where
  abbrev start : Text → List (Option (TradeRecord D F)) → Journal D F
  start path lines = record { path = path; lines = lines; trades = []; stats = empty_stats }

  abbrev with_lines : List (Option (TradeRecord D F)) → Journal D F → Journal D F
  with_lines ls j = record j { lines = ls }

  replay-with_lines :
      (j : Journal D F) (ls new : List (Option (TradeRecord D F)))
      → replay (with_lines new j) ls ≡ with_lines new (replay j ls)
  unfolding replay put
  replay-with_lines j [] new = refl
  replay-with_lines j (none ∷ ls) new = replay-with_lines j ls new
  replay-with_lines j (some t ∷ ls) new = replay-with_lines (put j t) ls new

  replay-append :
      (j : Journal D F) (ls ms : List (Option (TradeRecord D F)))
      → replay j (ls ++ ms) ≡ replay (replay j ls) ms
  unfolding replay
  replay-append j [] ms = refl
  replay-append j (none ∷ ls) ms = replay-append j ls ms
  replay-append j (some t ∷ ls) ms = replay-append (put j t) ls ms

  -- Replaying the file gives the journal.
  abbrev IsReplayed : Journal D F → Type 0
  IsReplayed j = replay (start j.path j.lines) j.lines ≡ j

  -- `base` is what the old lines are replayed from; with the new line it stays what it was.
  put-IsReplayed :
      (j : Journal D F) (t : TradeRecord D F)
      → IsReplayed j
      → IsReplayed (put (with_lines (j.lines ++ (some t ∷ [])) j) t)
  unfolding put replay
  put-IsReplayed j t v =
      let new = j.lines ++ (some t ∷ []) in
      replay-append (start j.path new) j.lines (some t ∷ [])
      ∙ ap (λ k. put k t) (replay-with_lines (start j.path j.lines) j.lines new)
      ∙ ap (λ k. put (with_lines new k) t) v

  record_trade-IsReplayed :
      (j : Journal D F) (t : TradeRecord D F) (failed : Option Text)
      → IsReplayed j
      → IsReplayed (record_trade j t failed).0
  unfolding record_trade
  record_trade-IsReplayed j t (some e) v = v
  record_trade-IsReplayed j t none v =
      put-IsReplayed j (record t { duration = duration_text (t.exit_time - t.entry_time) }) v

  records-IsReplayed :
      (j : Journal D F) (rs : List (TradeRecord D F × Option Text))
      → IsReplayed j
      → IsReplayed (records j rs)
  unfolding records
  records-IsReplayed j [] v = v
  records-IsReplayed j ((t, failed) ∷ rs) v =
      records-IsReplayed (record_trade j t failed).0 rs (record_trade-IsReplayed j t failed v)

  replay-config :
      (j : Journal D F) (ls : List (Option (TradeRecord D F)))
      → ((replay j ls).path ≡ j.path) × ((replay j ls).lines ≡ j.lines)
  unfolding replay put
  replay-config j [] = (refl, refl)
  replay-config j (none ∷ ls) = replay-config j ls
  replay-config j (some t ∷ ls) = replay-config (put j t) ls

  replay-IsReplayed :
      (path : Text) (lines : List (Option (TradeRecord D F)))
      → IsReplayed (replay (start path lines) lines)
  replay-IsReplayed path lines =
      let (p, l) = replay-config (start path lines) lines in ap₂ (λ a b. replay (start a b) b) p l

  -- A journal that was opened, and then records trades, is what opening its file again gives, with
  -- all its trades and statistics, whichever of the writes failed and left nothing in the file.
  pub open_journal-records :
      (path : Text) (lines : List (Option (TradeRecord D F))) (j : Journal D F)
      (rs : List (TradeRecord D F × Option Text))
      → open_journal path (ok lines) none ≡ ok j
      → open_journal (records j rs).path (ok (records j rs).lines) none ≡ ok (records j rs)
  unfolding open_journal
  open_journal-records path lines j rs h =
      let e : replay (start path lines) lines ≡ j = cc in
      ap Result.ok (records-IsReplayed j rs (subst IsReplayed e (replay-IsReplayed path lines)))

  -- RecentTrades returns the last trades in the order of recording: n of them, or all if there are
  -- fewer.
  pub recent_trades-suffix :
      (j : Journal D F) (n : ℕ)
      → (length (recent_trades j n) ≡ min n (length j.trades))
        × ((older : List (TradeRecord D F)) × (older ++ recent_trades j n ≡ j.trades))
  unfolding recent_trades
  recent_trades-suffix j n =
      let n' = if ltb (length j.trades) n then length j.trades else n in
      let k = length j.trades - n' in
      (ground (arith, length-last_of n' j.trades), (take k j.trades, take-append-drop k j.trades))
