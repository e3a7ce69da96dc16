-- ===== src/Position/Invariant.antt =====
-- internal/position/manager.go: what every method of the manager keeps, and what `Open`, `Close` and
-- `Get` promise together.
use coinex_bot.Prelude.{
  ℕ, suc, ◌≡◌, ◌≤◌, refl, ◌≢◌, ap, inl, inr, true, false, List, [], ◌∷◌, none, arith, length,
  Option-cases, Text,
}
use coinex_bot.Prelude.Dict.{
  Dict, lookup, insert, Distinct, Absent, Entries, Distinct-insert, Distinct-delete,
  length-insert_new, length-delete, Entries-insert_new, Entries-delete,
}
use coinex_bot.Number.{Decimal, Float, Convert}
use coinex_bot.Models.{OrderSide}
use coinex_bot.Position.{
  OpenPosition, Manager, position_key, key, new_manager, can_open, open_position, close_position,
  update_price, update_all, update_prices, Call, opens, closes, updates, step, run,
}

-- The keys are distinct, each position stands under its own key, and the limit is kept.
pub record IsValid {D F : Type 0} (m : Manager D F) : Type 0 where
  pub distinct : Distinct m.positions
  pub keyed : Entries (λ k (p : OpenPosition D F). key p ≡ k) m.positions
  pub limited : length m.positions ≤ m.max_positions

module _ {D F : Type 0} where
  abbrev pub IsKeyed : Text → OpenPosition D F → Type 0
  IsKeyed k p = key p ≡ k

  pub new_manager-IsValid : (n : ℕ) (pct : F) → IsValid (new_manager {D = D} n pct)
  unfolding new_manager
  new_manager-IsValid n pct = record { distinct = tt; keyed = tt; limited = omega arith }

  -- `Open` succeeds exactly when `CanOpen` says so; then the one change is the new entry, and
  -- otherwise nothing changes.
  pub open_position-can_open :
      (m : Manager D F) (p : OpenPosition D F)
      → ((can_open m p.market p.side).0 ≡ true
          → open_position m p ≡ (record m { positions = insert (key p) p m.positions }, none))
        × ((can_open m p.market p.side).0 ≡ false
            → ((open_position m p).0 ≡ m) × ((open_position m p).1 ≢ none))
  unfolding can_open open_position key
  open_position-can_open m p = (λ h. ground arith, λ h. ground arith)

  pub open_position-IsValid :
      (m : Manager D F) (p : OpenPosition D F) → IsValid m → IsValid (open_position m p).0
  unfolding open_position
  open_position-IsValid m p v = ground (
    arith,
    Distinct-insert (key p) p m.positions v.distinct,
    length-insert_new (key p) p m.positions,
    Entries-insert_new IsKeyed (key p) p m.positions,
  )

  pub close_position-IsValid :
      (m : Manager D F) (market : Text) (side : OrderSide)
      → IsValid m
      → IsValid (close_position m market side).0
  unfolding close_position
  close_position-IsValid m market side v =
      elim (Option-cases (lookup (position_key market side) m.positions)) [
        | inl e ↦ rw (e, close_position) v
        | inr (p, e) ↦
            rw (e, close_position)
              (record {
                distinct = Distinct-delete (position_key market side) m.positions v.distinct;
                keyed = Entries-delete IsKeyed (position_key market side) m.positions v.keyed;
                limited = omega (arith, length-delete (position_key market side) p m.positions e);
              })
      ]

module _ {D F : Type 0} ⦃d : Decimal D⦄ ⦃f : Float F⦄ ⦃c : Convert D F⦄ where
  pub key-update_price : (p : OpenPosition D F) (price : D) → key (update_price p price) ≡ key p
  unfolding update_price key
  key-update_price p price = ground arith

  module _ (market : Text) (price : D) where
    update_all-Absent :
        (k : Text) (m : Dict (OpenPosition D F)) → Absent k m → Absent k (update_all market price m)
    unfolding update_all
    update_all-Absent k [] a = tt
    update_all-Absent k ((j, p) ∷ m) a = (a.0, update_all-Absent k m a.1)

    update_all-Distinct :
        (m : Dict (OpenPosition D F)) → Distinct m → Distinct (update_all market price m)
    unfolding update_all
    update_all-Distinct [] h = tt
    update_all-Distinct ((j, p) ∷ m) h = (update_all-Absent j m h.0, update_all-Distinct m h.1)

    update_all-Entries :
        (m : Dict (OpenPosition D F))
        → Entries IsKeyed m
        → Entries IsKeyed (update_all market price m)
    unfolding update_all
    update_all-Entries [] h = tt
    update_all-Entries ((j, p) ∷ m) h =
        (ground (arith, key-update_price p price), update_all-Entries m h.1)

    pub length-update_all :
        (m : Dict (OpenPosition D F)) → length (update_all market price m) ≡ length m
    unfolding update_all
    length-update_all [] = refl
    length-update_all ((j, p) ∷ m) = ap suc (length-update_all m)

  pub update_prices-IsValid :
      (m : Manager D F) (market : Text) (price : D)
      → IsValid m
      → IsValid (update_prices m market price)
  unfolding update_prices
  update_prices-IsValid m market price v = record {
    distinct = update_all-Distinct market price m.positions v.distinct;
    keyed = update_all-Entries market price m.positions v.keyed;
    limited = rw (length-update_all market price m.positions) v.limited;
  }

  pub step-IsValid : (m : Manager D F) (c : Call D F) → IsValid m → IsValid (step m c)
  unfolding step
  step-IsValid m (opens p) v = open_position-IsValid m p v
  step-IsValid m (closes market side) v = close_position-IsValid m market side v
  step-IsValid m (updates market price) v = update_prices-IsValid m market price v

  run-keeps : (m : Manager D F) (cs : List (Call D F)) → IsValid m → IsValid (run m cs)
  unfolding run
  run-keeps m [] v = v
  run-keeps m (c ∷ cs) v = run-keeps (step m c) cs (step-IsValid m c v)

  -- Whatever is opened, closed and repriced, in any order, from a new manager: every key stands once
  -- and is that of its position, and there are at most `max_positions` positions.
  pub run-IsValid : (n : ℕ) (pct : F) (cs : List (Call D F)) → IsValid (run (new_manager n pct) cs)
  run-IsValid n pct cs = run-keeps (new_manager n pct) cs (new_manager-IsValid n pct)
