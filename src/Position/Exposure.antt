-- ===== src/Position/Exposure.antt =====
-- internal/position/manager.go, `TotalExposure`, `TotalUnrealizedPL` and `ExceedsExposure`.
use mathlib.Core.List.{Permᴰ}
use coinex_bot.Prelude.{◌≡◌, refl, sym, ◌∙◌, true, false, List, [], ◌∷◌, none, arith, Text}
use coinex_bot.Prelude.Dict.{Dict, lookup, insert, values}
use coinex_bot.Number.{Decimal, Float, Convert}
use coinex_bot.Number.Laws.{IsDecimal}
use coinex_bot.Number.Sums.{sum_by, sum_by-perm}
use coinex_bot.Position.{
  OpenPosition, Manager, key, notional, open_position, total_exposure, exceeds_exposure,
}

module _ {D F : Type 0} ⦃d : Decimal D⦄ where
  -- The sum of entry price times quantity, from the end of the list.
  abbrev pub value_of : List (OpenPosition D F) → D
  value_of [] = d.zero_dec
  value_of (p ∷ ps) = d.add (d.mul p.entry_price p.quantity) (value_of ps)

module _ {D F : Type 0} ⦃d : Decimal D⦄ ⦃f : Float F⦄ ⦃c : Convert D F⦄ (laws : IsDecimal D) where
  sum-insert :
      (k : Text) (p : OpenPosition D F) (total : D) (m : Dict (OpenPosition D F))
      → lookup k m ≡ none
      → sum_by notional total (values (insert k p m))
        ≡ d.add (sum_by notional total (values m)) (notional p)
  unfolding sum_by lookup insert
  sum-insert k p total [] h = refl
  sum-insert k p total ((j, q) ∷ m) h = ground (arith, sum-insert k p (d.add total (notional q)) m)

  -- A position that is opened adds its entry price times its quantity to the exposure.
  total_exposure-open_position :
      (m m' : Manager D F) (p : OpenPosition D F)
      → open_position m p ≡ (m', none)
      → total_exposure m' ≡ d.add (total_exposure m) (d.mul p.entry_price p.quantity)
  unfolding total_exposure open_position
  total_exposure-open_position m m' p e =
      ground (arith, sum-insert (key p) p d.zero_dec m.positions)

  sum-value_of :
      (total : D) (ps : List (OpenPosition D F))
      → sum_by notional total ps ≡ d.add total (value_of ps)
  unfolding sum_by
  sum-value_of total [] = sym (laws.add_zero total)
  sum-value_of total (p ∷ ps) =
      sum-value_of (d.add total (notional p)) ps ∙ laws.add_assoc total (notional p) (value_of ps)

  total_exposure-value_of :
      (m : Manager D F) (ps : List (OpenPosition D F))
      → Permᴰ (values m.positions) ps
      → total_exposure m ≡ value_of ps
  unfolding total_exposure
  total_exposure-value_of m ps perm =
      sum_by-perm notional laws d.zero_dec perm
      ∙ sum-value_of d.zero_dec ps
      ∙ laws.add_comm d.zero_dec (value_of ps)
      ∙ laws.add_zero (value_of ps)

  -- With exact decimal addition, what ExceedsExposure says of a position before Open accepts it is
  -- whether, after it, the sum of entry price times quantity over the open positions, in any order,
  -- is a larger part of the capital than the cap. With no cap above zero or no capital it says no.
  pub exceeds_exposure-open_position :
      (m m' : Manager D F) (p : OpenPosition D F) (capital : D) (ps : List (OpenPosition D F))
      → open_position m p ≡ (m', none)
      → Permᴰ (values m'.positions) ps
      → let asked = exceeds_exposure m (d.mul p.entry_price p.quantity) capital in
        (f.le m.max_exposure_pct (f.of_int 0) ≡ true → asked ≡ false)
        × (d.is_zero capital ≡ true → asked ≡ false)
        × (f.le m.max_exposure_pct (f.of_int 0) ≡ false
            → d.is_zero capital ≡ false
            → asked
              ≡ f.lt m.max_exposure_pct (f.over (c.float64 (value_of ps)) (c.float64 capital)))
  unfolding exceeds_exposure
  exceeds_exposure-open_position m m' p capital ps opened perm =
      let after : d.add (total_exposure m) (d.mul p.entry_price p.quantity) ≡ value_of ps =
        sym (total_exposure-open_position m m' p opened) ∙ total_exposure-value_of m' ps perm in
      (λ h. ground (arith, h), λ h. ground (arith, h), λ h k. rw (h, k, after) refl)
