-- ===== src/Api/LiveOrderBook.antt =====
-- internal/api/ws_feed.go, `LiveOrderBook` and `mergeLevels`: the order book that the depth events
-- keep up to date. A payload comes decoded; `none` is one that `json.Unmarshal` refuses.
pub mod Sorted
pub mod Stale
use coinex_bot.Prelude.{
  ℕ, zero, suc, Bool, true, false, List, [], ◌∷◌, Option, none, some, if◌then◌else◌, length, Text,
  bytes, text_eq,
}
use coinex_bot.Prelude.Dict.{Dict, insert, delete}
use coinex_bot.Prelude.Results.{Result, ok, err, panic, ◌>>=◌, require}
use coinex_bot.Number.{Decimal}
use coinex_bot.Models.{Time, Level, OrderBook}

pub record DepthUpdate : Type 0 where
  pub market : Text
  pub asks : List (List Text)
  pub bids : List (List Text)

module _ {D : Type 0} where
  unfoldable pub new_live_order_book : Text → OrderBook D
  new_live_order_book market = record { market = market; bids = []; asks = []; updated_at = 0 }

  unfoldable pub snapshot : OrderBook D → OrderBook D
  snapshot book = book

module _ {D : Type 0} ⦃d : Decimal D⦄ where
  open d use {new_from_string, string, is_zero, greater_than, less_than}

  -- for _, l := range existing { m[l.Price.String()] = l.Quantity }
  unfoldable pub index_levels : Dict D → List (Level D) → Dict D
  index_levels m [] = m
  index_levels m (l ∷ ls) = index_levels (insert (string l.price) l.quantity m) ls

  abbrev put_level : Text → D → Dict D → Dict D
  put_level price qty m = if is_zero qty then delete price m else insert price qty m

  -- An update shorter than two is skipped, and a quantity that does not parse is a panic.
  unfoldable pub apply_updates : Dict D → List (List Text) → Result (Dict D)
  apply_updates m [] = ok m
  apply_updates m ((price ∷ qty ∷ _) ∷ us) = elim (new_from_string qty) [
    | none ↦ panic
    | some q ↦ apply_updates (put_level price q m) us
  ]
  apply_updates m (_ ∷ us) = apply_updates m us

  -- The levels in the order of the iteration.
  unfoldable pub list_levels : Dict D → Result (List (Level D))
  list_levels [] = ok []
  list_levels ((p, q) ∷ m) = do
    price ← require (new_from_string p)
    rest ← list_levels m
    ok (record { price = price; quantity = q } ∷ rest)

  -- Whether out[i] and out[j], i before j, are to be swapped.
  unfoldable pub out_of_order : Bool → Level D → Level D → Bool
  out_of_order true a b = greater_than a.price b.price
  out_of_order false a b = less_than a.price b.price

  -- The inner loop: `cur` is out[i], the list what follows it.
  unfoldable pub sweep : Bool → Level D → List (Level D) → Level D × List (Level D)
  sweep ascending cur [] = (cur, [])
  sweep ascending cur (x ∷ xs) =
      let swap = out_of_order ascending cur x in
      let (best, rest) = sweep ascending (if swap then x else cur) xs in
      (best, (if swap then cur else x) ∷ rest)

  -- The outer loop, over as many rounds as there are levels.
  unfoldable pub exchange : ℕ → Bool → List (Level D) → List (Level D)
  exchange zero ascending xs = xs
  exchange (suc n) ascending [] = []
  exchange (suc n) ascending (x ∷ xs) =
      let (best, rest) = sweep ascending x xs in best ∷ exchange n ascending rest

  unfoldable pub sort_levels : Bool → List (Level D) → List (Level D)
  unfolding exchange sweep
  sort_levels ascending xs = exchange (length xs) ascending xs

  unfoldable pub merge_levels : List (Level D) → List (List Text) → Bool → Result (List (Level D))
  merge_levels existing updates ascending = do
    m ← apply_updates (index_levels [] existing) updates
    out ← list_levels m
    ok (sort_levels ascending out)

  unfoldable pub handle : Time → OrderBook D → Text → Option DepthUpdate → Result (OrderBook D)
  handle now book event none = ok book
  handle now book event (some raw) =
      if text_eq event (bytes "depth.update")
      then (do
        asks ← merge_levels book.asks raw.asks true
        bids ← merge_levels book.bids raw.bids false
        ok (record book { asks = asks; bids = bids; updated_at = now }))
      else ok book
