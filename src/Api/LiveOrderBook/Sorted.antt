-- ===== src/Api/LiveOrderBook/Sorted.antt =====
-- internal/api/ws_feed.go, `mergeLevels` and `Handle`: the order of the levels that they leave.
use mathlib.Core.List.{Permᴰ}
use mathlib.Core.List.Permᴰ
use coinex_bot.Prelude.{
  ℕ, zero, suc, ◌≡◌, refl, ap, subst, ◌∙◌, inl, inr, Bool, true, false, List, [], ◌∷◌, Option, none,
  some, arith, length, Bool-cases, All, Text, text_eq, bytes,
}
use coinex_bot.Prelude.Results.{Result, ok, first_ok}
use coinex_bot.Number.{Decimal}
use coinex_bot.Number.Laws.{IsDecimal}
use coinex_bot.Models.{Time, Level, OrderBook}
use coinex_bot.Api.LiveOrderBook.{
  DepthUpdate, index_levels, apply_updates, list_levels, out_of_order, sweep, exchange, sort_levels,
  merge_levels, handle,
}

pub All-perm {ℓ κ} :
    {A : Type ℓ} (P : A → Type κ) {xs ys : List A} → Permᴰ xs ys → All P xs → All P ys
All-perm P Permᴰ.nil a = a
All-perm P (Permᴰ.cons e p) a = (subst P e a.0, All-perm P p a.1)
All-perm P (Permᴰ.swap e e') a = (subst P e' a.1.0, (subst P e a.0, a.1.1))
All-perm P (Permᴰ.trans p q) a = All-perm P q (All-perm P p a)

length-perm {ℓ} : {A : Type ℓ} {xs ys : List A} → Permᴰ xs ys → length xs ≡ length ys
length-perm Permᴰ.nil = refl
length-perm (Permᴰ.cons e p) = ap suc (length-perm p)
length-perm (Permᴰ.swap e e') = refl
length-perm (Permᴰ.trans p q) = length-perm p ∙ length-perm q

module _ {D : Type 0} ⦃d : Decimal D⦄ where
  -- No level is out of order with one that stands behind it.
  abbrev pub IsSorted : Bool → List (Level D) → Type 0
  IsSorted ascending [] = Unit {0}
  IsSorted ascending (l ∷ ls) =
      All (λ x. out_of_order ascending l x ≡ false) ls × IsSorted ascending ls

  abbrev pub IsOrdered : OrderBook D → Type 0
  IsOrdered book = IsSorted true book.asks × IsSorted false book.bids

  sweep-perm :
      (ascending : Bool) (cur : Level D) (xs : List (Level D))
      → Permᴰ ((sweep ascending cur xs).0 ∷ (sweep ascending cur xs).1) (cur ∷ xs)
  unfolding sweep
  sweep-perm ascending cur [] = Permᴰ.refl _
  sweep-perm ascending cur (x ∷ xs) = elim (Bool-cases (out_of_order ascending cur x)) [
    | inl e ↦
        rw (e, sweep)
          (Permᴰ.trans (Permᴰ.swap refl refl) (Permᴰ.cons refl (sweep-perm ascending x xs)))
    | inr e ↦
        rw (e, sweep)
          (Permᴰ.trans (Permᴰ.swap refl refl)
            (Permᴰ.trans (Permᴰ.cons refl (sweep-perm ascending cur xs)) (Permᴰ.swap refl refl)))
  ]

  exchange-perm :
      (n : ℕ) (ascending : Bool) (xs : List (Level D)) → Permᴰ (exchange n ascending xs) xs
  unfolding exchange
  exchange-perm zero ascending xs = Permᴰ.refl xs
  exchange-perm (suc n) ascending [] = Permᴰ.nil
  exchange-perm (suc n) ascending (x ∷ xs) =
      Permᴰ.trans (Permᴰ.cons refl (exchange-perm n ascending (sweep ascending x xs).1))
        (sweep-perm ascending x xs)

  pub sort_levels-perm :
      (ascending : Bool) (xs : List (Level D)) → Permᴰ (sort_levels ascending xs) xs
  unfolding sort_levels
  sort_levels-perm ascending xs = exchange-perm (length xs) ascending xs

  module _ (laws : IsDecimal D) where
    open laws use {greater_lem, less_irrefl, less_trans, less_total}

    in_order_trans :
        (ascending : Bool) (a b c : Level D)
        → out_of_order ascending a b ≡ false
        → out_of_order ascending b c ≡ false
        → out_of_order ascending a c ≡ false
    unfolding out_of_order
    in_order_trans true a b c h k = ground (
      arith,
      greater_lem a.price b.price,
      greater_lem b.price c.price,
      greater_lem a.price c.price,
      less_total a.price b.price,
      less_trans c.price a.price b.price,
    )
    in_order_trans false a b c h k =
        ground (arith, less_total a.price b.price, less_trans b.price a.price c.price)

    swapped_in_order :
        (ascending : Bool) (a b : Level D)
        → out_of_order ascending a b ≡ true
        → out_of_order ascending b a ≡ false
    unfolding out_of_order
    swapped_in_order true a b h = ground (
      arith,
      greater_lem a.price b.price,
      greater_lem b.price a.price,
      less_trans b.price a.price b.price,
      less_irrefl b.price,
    )
    swapped_in_order false a b h =
        ground (arith, less_trans a.price b.price a.price, less_irrefl a.price)

    in_order_refl : (ascending : Bool) (a : Level D) → out_of_order ascending a a ≡ false
    unfolding out_of_order
    in_order_refl true a = ground (arith, greater_lem a.price a.price, less_irrefl a.price)
    in_order_refl false a = less_irrefl a.price

    abbrev First : Bool → Level D → Level D × List (Level D) → Type 0
    First ascending cur round =
        (out_of_order ascending round.0 cur ≡ false)
        × All (λ x. out_of_order ascending round.0 x ≡ false) round.1

    sweep_swap :
        (ascending : Bool) (cur x : Level D) (xs : List (Level D))
        → out_of_order ascending cur x ≡ true
        → ((sweep ascending x xs).0, cur ∷ (sweep ascending x xs).1) ≡ sweep ascending cur (x ∷ xs)
    unfolding sweep
    sweep_swap ascending cur x xs e = rw e refl

    sweep_keep :
        (ascending : Bool) (cur x : Level D) (xs : List (Level D))
        → out_of_order ascending cur x ≡ false
        → ((sweep ascending cur xs).0, x ∷ (sweep ascending cur xs).1)
          ≡ sweep ascending cur (x ∷ xs)
    unfolding sweep
    sweep_keep ascending cur x xs e = rw e refl

    -- The level that a round puts first is in order with all that it met.
    sweep-First :
        (ascending : Bool) (cur : Level D) (xs : List (Level D))
        → First ascending cur (sweep ascending cur xs)
    unfolding sweep
    sweep-First ascending cur [] = (in_order_refl ascending cur, tt)
    sweep-First ascending cur (x ∷ xs) = elim (Bool-cases (out_of_order ascending cur x)) [
      | inl e ↦
          let (first, rest) = sweep-First ascending x xs in
          let cur_first =
            in_order_trans ascending (sweep ascending x xs).0 x cur first
              (swapped_in_order ascending cur x e) in
          subst (First ascending cur) (sweep_swap ascending cur x xs e)
            (cur_first, (cur_first, rest))
      | inr e ↦
          let (first, rest) = sweep-First ascending cur xs in
          let x_first = in_order_trans ascending (sweep ascending cur xs).0 cur x first e in
          subst (First ascending cur) (sweep_keep ascending cur x xs e) (first, (x_first, rest))
    ]

    exchange-IsSorted :
        (n : ℕ) (ascending : Bool) (xs : List (Level D))
        → n ≡ length xs
        → IsSorted ascending (exchange n ascending xs)
    unfolding exchange
    exchange-IsSorted zero ascending [] e = tt
    exchange-IsSorted zero ascending (x ∷ xs) e = absurd (omega arith)
    exchange-IsSorted (suc n) ascending [] e = tt
    exchange-IsSorted (suc n) ascending (x ∷ xs) e =
        let (best, rest) = sweep ascending x xs in
        let size = length-perm (sweep-perm ascending x xs) in
        (
          All-perm (λ y. out_of_order ascending best y ≡ false)
              (Permᴰ.symm (exchange-perm n ascending rest)) (sweep-First ascending x xs).1,
          exchange-IsSorted n ascending rest (omega (arith, size)),
        )

    pub sort_levels-IsSorted :
        (ascending : Bool) (xs : List (Level D)) → IsSorted ascending (sort_levels ascending xs)
    unfolding sort_levels
    sort_levels-IsSorted ascending xs = exchange-IsSorted (length xs) ascending xs refl

    merge_levels-IsSorted :
        (existing : List (Level D)) (updates : List (List Text)) (ascending : Bool)
        (out : List (Level D))
        → merge_levels existing updates ascending ≡ ok out
        → IsSorted ascending out
    unfolding merge_levels
    merge_levels-IsSorted existing updates ascending out h =
        let (m, applied, h') = first_ok _ (apply_updates (index_levels [] existing) updates) h in
        let (ls, listed, e) = first_ok _ (list_levels m) h' in
        let e' : sort_levels ascending ls ≡ out = cc in
        subst (IsSorted ascending) e' (sort_levels-IsSorted ascending ls)

    -- With the laws of an ordered decimal type, an event that Handle comes through keeps the asks of
    -- the book in ascending order of price and the bids in descending order.
    pub handle-IsOrdered :
        (now : Time) (book book' : OrderBook D) (event : Text) (payload : Option DepthUpdate)
        → handle now book event payload ≡ ok book'
        → IsOrdered book
        → IsOrdered book'
    unfolding handle
    handle-IsOrdered now book book' event none h o =
        let e : book ≡ book' = cc in subst IsOrdered e o
    handle-IsOrdered now book book' event (some raw) h o =
        elim (Bool-cases (text_eq event (bytes "depth.update"))) [
          | inl t ↦
              let (asks, ha, h') = first_ok _ (merge_levels book.asks raw.asks true) (rw t at h) in
              let (bids, hb, h'') = first_ok _ (merge_levels book.bids raw.bids false) h' in
              let e : record book { asks = asks; bids = bids; updated_at = now } ≡ book' = cc in
              subst IsOrdered e (
                merge_levels-IsSorted book.asks raw.asks true asks ha,
                merge_levels-IsSorted book.bids raw.bids false bids hb,
              )
          | inr t ↦
              let h' : Result.ok book ≡ ok book' = rw t at h in
              let e : book ≡ book' = cc in subst IsOrdered e o
        ]
