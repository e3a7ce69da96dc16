-- ===== src/Api/LiveOrderBook/Stale.antt =====
-- internal/api/ws_feed.go, `mergeLevels`: a removal under another text of the price.
use coinex_bot.Prelude.{
  ◌≡◌, refl, Bool, true, false, List, [], ◌∷◌, some, arith, All, Text, text_eq,
}
use coinex_bot.Prelude.Dict.{Dict, insert, delete, Absent}
use coinex_bot.Number.{Decimal}
use coinex_bot.Models.{Level}
use coinex_bot.Api.LiveOrderBook.{index_levels, apply_updates, merge_levels}

delete-Absent {ℓ} : {V : Type ℓ} (k : Text) (m : Dict V) → Absent k m → delete k m ≡ m
unfolding delete
delete-Absent k [] h = refl
delete-Absent k ((j, w) ∷ m) h = ground (arith, delete-Absent k m h.1)

Absent-insert {ℓ} :
    {V : Type ℓ} (i k : Text) (v : V) (m : Dict V)
    → text_eq k i ≡ false
    → Absent i m
    → Absent i (insert k v m)
unfolding insert
Absent-insert i k v [] e a = (e, tt)
Absent-insert i k v ((j, w) ∷ m) e a = ground (arith, Absent-insert i k v m e a.1)

module _ {D : Type 0} ⦃d : Decimal D⦄ where
  index_levels-Absent :
      (k : Text) (m : Dict D) (ls : List (Level D))
      → All (λ (l : Level D). text_eq (d.string l.price) k ≡ false) ls
      → Absent k m
      → Absent k (index_levels m ls)
  unfolding index_levels
  index_levels-Absent k m [] h a = a
  index_levels-Absent k m (l ∷ ls) h a =
      index_levels-Absent k (insert (d.string l.price) l.quantity m) ls h.1
        (Absent-insert k (d.string l.price) l.quantity m h.0 a)

  apply_updates_removal :
      (price qty : Text) (q : D) (more : List Text) (us : List (List Text)) (m : Dict D)
      → d.new_from_string qty ≡ some q
      → d.is_zero q ≡ true
      → apply_updates m ((price ∷ qty ∷ more) ∷ us) ≡ apply_updates (delete price m) us
  unfolding apply_updates
  apply_updates_removal price qty q more us m e z = rw (e, z, apply_updates) refl

  -- A removal, a quantity that parses to zero, changes nothing when its price is not written as
  -- String writes that of a level, even if a level has the price that it stands for.
  pub merge_levels-stale :
      (existing : List (Level D)) (price qty : Text) (q : D) (more : List Text)
      (updates : List (List Text)) (ascending : Bool)
      → All (λ (l : Level D). text_eq (d.string l.price) price ≡ false) existing
      → d.new_from_string qty ≡ some q
      → d.is_zero q ≡ true
      → merge_levels existing ((price ∷ qty ∷ more) ∷ updates) ascending
        ≡ merge_levels existing updates ascending
  unfolding merge_levels
  merge_levels-stale existing price qty q more updates ascending h e z =
      let m = index_levels [] existing in
      rw (
        apply_updates_removal price qty q more updates m e z,
        delete-Absent price m (index_levels-Absent price [] existing h tt),
      )
