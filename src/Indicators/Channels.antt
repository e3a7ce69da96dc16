-- ===== src/Indicators/Channels.antt =====
-- internal/indicators/indicators.go: the channels of DonchianChannel and their windows.
use mathlib.Core.List.{Memᴰ}
use coinex_bot.Prelude.{
  ℕ, zero, suc, ◌+◌, ◌-◌, ◌<◌, ◌≡◌, refl, sym, ◌∙◌, ap, ◌⊎◌, inl, inr, Bool-cases, true, false,
  List, [], ◌∷◌, arith, if◌then◌else◌, ltb, length, All, All₂, take,
}
use coinex_bot.Prelude.Results.{Gives, gives, Gives-bind}
use coinex_bot.Prelude.Slices.{slices, map_ok-All₂, slices-full}
use coinex_bot.Number.{Decimal}
use coinex_bot.Number.Laws.{IsDecimal}
use coinex_bot.Models.{Candle}
use coinex_bot.Indicators.Windows.{windows, windows_short, windows_long}
use coinex_bot.Indicators.Oscillators.{scan_range, window_range}
use coinex_bot.Indicators.Bands.{BandResult, channel_of, donchian_channel}

slices-windows {ℓ} :
    {A : Type ℓ} (count n : ℕ) (xs : List A)
    → count + n ≡ suc (length xs)
    → 0 < n
    → slices count n xs ≡ windows n xs
unfolding slices
slices-windows zero n xs h pos = sym (windows_short n xs (omega arith))
slices-windows (suc count) n [] h pos = absurd (omega arith)
slices-windows (suc count) n (x ∷ xs) h pos =
    ap (◌∷◌ (take n (x ∷ xs))) (slices-windows count n xs (omega arith) pos)
    ∙ sym (windows_long n x xs (omega arith))

module _ {D : Type 0} ⦃d : Decimal D⦄ where
  abbrev AtMost : D → D → Type 0
  AtMost a b = d.less_than b a ≡ false

  -- Nothing in the window lies outside of the range, and each end is a high or low of the window.
  abbrev pub IsRangeOf : List (Candle D) → D × D → Type 0
  IsRangeOf window (hi, lo) =
      All (λ (x : Candle D). AtMost x.high hi × AtMost lo x.low) window
      × ((x : Candle D) × Memᴰ x window × (hi ≡ x.high))
      × ((x : Candle D) × Memᴰ x window × (lo ≡ x.low))

  abbrev pub IsChannelOf : List (Candle D) → BandResult D → Type 0
  IsChannelOf window r =
      IsRangeOf window (r.upper, r.lower)
      × (r.middle ≡ d.div (d.add r.upper r.lower) (d.new_from_int 2))

  -- The range of the scan, with the values that it starts from.
  abbrev IsScan : D → D → List (Candle D) → D × D → Type 0
  IsScan hi lo xs r =
      AtMost hi r.0
      × AtMost r.1 lo
      × All (λ (x : Candle D). AtMost x.high r.0 × AtMost r.1 x.low) xs
      × ((r.0 ≡ hi) ⊎ ((x : Candle D) × Memᴰ x xs × (r.0 ≡ x.high)))
      × ((r.1 ≡ lo) ⊎ ((x : Candle D) × Memᴰ x xs × (r.1 ≡ x.low)))

  module _ (laws : IsDecimal D) where
    AtMost-trans : (a b x : D) → AtMost a b → AtMost b x → AtMost a x
    AtMost-trans a b x h k = ground (
      arith,
      laws.less_total a b,
      laws.less_total b x,
      laws.less_trans x a b,
      laws.less_trans x b a,
    )

    less_asym : (a b : D) → d.less_than a b ≡ true → d.less_than b a ≡ false
    less_asym a b h = ground (arith, laws.less_trans a b a, laws.less_irrefl a)

    raise :
        (hi y : D)
        → let hi' = if d.greater_than y hi then y else hi in
          AtMost hi hi' × AtMost y hi' × ((hi' ≡ hi) ⊎ (hi' ≡ y))
    raise hi y = elim (Bool-cases (d.greater_than y hi)) [
      | inl e ↦
          rw e (less_asym hi y (sym (laws.greater_lem y hi) ∙ e), laws.less_irrefl y, inr refl)
      | inr e ↦ rw e (laws.less_irrefl hi, sym (laws.greater_lem y hi) ∙ e, inl refl)
    ]

    sink :
        (lo y : D)
        → let lo' = if d.less_than y lo then y else lo in
          AtMost lo' lo × AtMost lo' y × ((lo' ≡ lo) ⊎ (lo' ≡ y))
    sink lo y = elim (Bool-cases (d.less_than y lo)) [
      | inl e ↦ rw e (less_asym y lo e, laws.less_irrefl y, inr refl)
      | inr e ↦ rw e (laws.less_irrefl lo, e, inl refl)
    ]

    -- An end that was found later in the list, or is one of the two before.
    later :
        (pick : Candle D → D) (v old new : D) (y : Candle D) (ys : List (Candle D))
        → (new ≡ old) ⊎ (new ≡ pick y)
        → (v ≡ new) ⊎ ((x : Candle D) × Memᴰ x ys × (v ≡ pick x))
        → (v ≡ old) ⊎ ((x : Candle D) × Memᴰ x (y ∷ ys) × (v ≡ pick x))
    later pick v old new y ys e (inr (x, m, h)) = inr (x, Memᴰ.tail m, h)
    later pick v old new y ys (inl e) (inl h) = inl (h ∙ e)
    later pick v old new y ys (inr e) (inl h) = inr (y, Memᴰ.head refl, h ∙ e)

    scan_range-IsScan : (xs : List (Candle D)) (hi lo : D) → IsScan hi lo xs (scan_range hi lo xs)
    unfolding scan_range
    scan_range-IsScan [] hi lo = (laws.less_irrefl hi, laws.less_irrefl lo, tt, inl refl, inl refl)
    scan_range-IsScan (y ∷ ys) hi lo =
        let hi' = if d.greater_than y.high hi then y.high else hi in
        let lo' = if d.less_than y.low lo then y.low else lo in
        let (up, up_y, up_eq) = raise hi y.high in
        let (down, down_y, down_eq) = sink lo y.low in
        let (h, l, all, from_hi, from_lo) = scan_range-IsScan ys hi' lo' in
        let r = scan_range hi' lo' ys in
        (
          AtMost-trans hi hi' r.0 up h,
          AtMost-trans r.1 lo' lo l down,
          ((AtMost-trans y.high hi' r.0 up_y h, AtMost-trans r.1 lo' y.low l down_y), all),
          later (λ x. x.high) r.0 hi hi' y ys up_eq from_hi,
          later (λ x. x.low) r.1 lo lo' y ys down_eq from_lo,
        )

    found :
        (pick : Candle D → D) (v : D) (y : Candle D) (ys : List (Candle D))
        → (v ≡ pick y) ⊎ ((x : Candle D) × Memᴰ x (y ∷ ys) × (v ≡ pick x))
        → (x : Candle D) × Memᴰ x (y ∷ ys) × (v ≡ pick x)
    found pick v y ys (inl e) = (y, Memᴰ.head refl, e)
    found pick v y ys (inr m) = m

    pub window_range-IsRangeOf :
        (window : List (Candle D))
        → 0 < length window
        → Gives (IsRangeOf window) (window_range window)
    unfolding window_range
    window_range-IsRangeOf [] h = absurd (omega arith)
    window_range-IsRangeOf (y ∷ ys) h =
        let r = scan_range y.high y.low (y ∷ ys) in
        let (_, _, all, from_hi, from_lo) = scan_range-IsScan (y ∷ ys) y.high y.low in
        gives (all, found (λ x. x.high) r.0 y ys from_hi, found (λ x. x.low) r.1 y ys from_lo)

    channel_of-IsChannelOf :
        (window : List (Candle D))
        → 0 < length window
        → Gives (IsChannelOf window) (channel_of window)
    unfolding channel_of
    channel_of-IsChannelOf window h =
        Gives-bind (window_range-IsRangeOf window h) (λ range p. gives (p, refl))

    -- With a positive period DonchianChannel comes back, with one channel for each window of that many
    -- candles, in order: no high of the window is above the upper line and no low below the lower
    -- one, each line is a high or low of the window, and the middle is half their sum.
    pub donchian_channel-AreChannels :
        (candles : List (Candle D)) (period : ℕ)
        → 0 < period
        → Gives (All₂ IsChannelOf (windows period candles)) (donchian_channel candles period)
    unfolding donchian_channel
    donchian_channel-AreChannels candles period pos =
        elim (Bool-cases (ltb (length candles) period)) [
          | inl few ↦ rw (few, windows_short period candles (ground arith)) (gives tt)
          | inr enough ↦
              let count = suc (length candles - period) in
              rw (enough, ← slices-windows count period candles (ground arith) pos)
                (map_ok-All₂ channel_of (slices count period candles)
                  (λ w n. channel_of-IsChannelOf w (omega arith))
                  (slices-full count period candles (ground arith)))
        ]
