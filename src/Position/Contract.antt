-- ===== src/Position/Contract.antt =====
-- internal/position/manager.go: the manager as its clients see it, a partial function from pairs of
-- market and side to positions.
use coinex_bot.Prelude.{◌≡◌, ◌≢◌, none, some, arith, Text, text_eq_iff, text_eq_refl}
use coinex_bot.Prelude.Dict.{lookup, insert, lookup-insert, lookup-delete, delete-insert}
use coinex_bot.Models.{OrderSide}
use coinex_bot.Position.{
  OpenPosition, Manager, position_key, key, open_position, close_position, get,
}
use coinex_bot.Position.Keys.{position_key_injective}
use coinex_bot.Position.Invariant.{IsValid}

module _ {D F : Type 0} where
  open_position-eq :
      (m m' : Manager D F) (p : OpenPosition D F)
      → open_position m p ≡ (m', none)
      → (lookup (key p) m.positions ≡ none)
        × (m' ≡ record m { positions = insert (key p) p m.positions })
  unfolding open_position
  open_position-eq m m' p e = ground arith

  -- After an `Open` that succeeds, `Get` finds the position under its market and side, and finds
  -- under every other pair what it found before.
  pub get-open_position :
      (m m' : Manager D F) (p : OpenPosition D F)
      → open_position m p ≡ (m', none)
      → (get m' p.market p.side ≡ some p)
        × ((market : Text) (side : OrderSide)
            → ¬ ((p.market ≡ market) × (p.side ≡ side))
            → get m' market side ≡ get m market side)
  unfolding get key
  get-open_position m m' p e =
      let (new, e') = open_position-eq m m' p e in
      (
        rw e' (ground (arith, lookup-insert (key p) (key p) p m.positions, text_eq_refl (key p))),
        λ market side other. rw e' (
            ground (
              arith,
              lookup-insert (key p) (position_key market side) p m.positions,
              text_eq_iff (key p) (position_key market side),
              λ (q : key p ≡ position_key market side).
                  other (position_key_injective p.market market p.side side q),
            )),
      )

  get-close_self :
      (m : Manager D F) (market : Text) (side : OrderSide)
      → IsValid m
      → get (close_position m market side).0 market side ≡ none
  unfolding get close_position
  get-close_self m market side v =
      let k = position_key market side in
      ground (arith, lookup-delete k k m.positions v.distinct, text_eq_refl k)

  get-close_other :
      (m : Manager D F) (market market' : Text) (side side' : OrderSide)
      → IsValid m
      → position_key market side ≢ position_key market' side'
      → get (close_position m market side).0 market' side' ≡ get m market' side'
  unfolding get close_position
  get-close_other m market market' side side' v other =
      let k = position_key market side in
      let j = position_key market' side' in
      ground (arith, lookup-delete k j m.positions v.distinct, text_eq_iff k j)

  -- `Close` returns what `Get` would, and after it `Get` finds nothing there and the same as before
  -- under every other pair.
  pub get-close_position :
      (m : Manager D F) (market : Text) (side : OrderSide)
      → IsValid m
      → let m' = (close_position m market side).0 in
        ((close_position m market side).1 ≡ get m market side)
        × (get m' market side ≡ none)
        × ((market' : Text) (side' : OrderSide)
            → ¬ ((market ≡ market') × (side ≡ side'))
            → get m' market' side' ≡ get m market' side')
  unfolding get close_position
  get-close_position m market side v = (
    ground arith,
    get-close_self m market side v,
    λ market' side' other.
        get-close_other m market market' side side' v
          (λ q. other (position_key_injective market market' side side' q)),
  )

  -- `Close` undoes an `Open` that succeeded: it returns that very position and restores the manager.
  pub close_position-open_position :
      (m m' : Manager D F) (p : OpenPosition D F)
      → open_position m p ≡ (m', none)
      → close_position m' p.market p.side ≡ (m, some p)
  unfolding close_position key
  close_position-open_position m m' p e =
      let (new, e') = open_position-eq m m' p e in
      rw e' (
        ground (
          arith,
          lookup-insert (key p) (key p) p m.positions,
          text_eq_refl (key p),
          delete-insert (key p) p m.positions new,
        ))
