-- ===== src/Api/CandleBuffer/Invariant.antt =====
-- internal/api/candle_buffer.go: the capacity, and one candle for each open time.
use coinex_bot.Prelude.{
  ℕ, zero, suc, ◌-◌, ◌≤◌, ◌≡◌, ◌≢◌, refl, sym, inl, inr, false, subst, List, [], ◌∷◌, ◌++◌, Option,
  none, some, arith, length, length-drop, drop, Bool-cases, Option-cases, Text, text_eq, All,
  All-append, bytes,
}
use coinex_bot.Prelude.Results.{
  Result, ok, err, panic, Gives, gives, Gives-if, Gives-value, ok_injective,
}
use coinex_bot.Number.{Decimal, Float, Convert}
use coinex_bot.Models.{Time, Candle}
use coinex_bot.Api.CandleBuffer.{
  JsonValue, KlineUpdate, LiveCandleBuffer, upsert, parse_kline_bar, upsert_bars, handle,
}
use coinex_bot.Api.CandleBuffer.Times.{
  open_times, has_time, upsert-open_times, upsert-config, length-open_times,
}

abbrev Misses : Time → List Time → Type 0
Misses t = All (λ s. s ≢ t)

abbrev pub NoRepeat : List Time → Type 0
NoRepeat [] = Unit {0}
NoRepeat (t ∷ ts) = Misses t ts × NoRepeat ts

NoRepeat-drop : (n : ℕ) (ts : List Time) → NoRepeat ts → NoRepeat (drop n ts)
NoRepeat-drop zero ts h = h
NoRepeat-drop (suc n) [] h = tt
NoRepeat-drop (suc n) (t ∷ ts) h = NoRepeat-drop n ts h.1

NoRepeat-snoc : (t : Time) (ts : List Time) → Misses t ts → NoRepeat ts → NoRepeat (ts ++ (t ∷ []))
NoRepeat-snoc t [] m h = (tt, tt)
NoRepeat-snoc t (s ∷ ts) m h =
    (All-append (λ r. r ≢ s) ts (t ∷ []) h.0 ((λ e. m.0 (sym e)), tt), NoRepeat-snoc t ts m.1 h.1)

module _ {D : Type 0} where
  pub record IsValid (b : LiveCandleBuffer D) : Type 0 where
    pub bounded : length b.candles ≤ b.max_len
    pub distinct : NoRepeat (open_times b.candles)

  has_time-Misses :
      (t : Time) (cs : List (Candle D)) → has_time t cs ≡ false → Misses t (open_times cs)
  has_time-Misses t [] h = tt
  has_time-Misses t (c ∷ cs) h = (ground arith, has_time-Misses t cs (ground arith))

  upsert-distinct :
      (b : LiveCandleBuffer D) (c : Candle D)
      → NoRepeat (open_times b.candles)
      → NoRepeat (open_times (upsert b c).candles)
  upsert-distinct b c h = elim (Bool-cases (has_time c.open_time b.candles)) [
    | inl e ↦ rw (upsert-open_times, e) h
    | inr e ↦
        rw (upsert-open_times, e)
          (NoRepeat-drop (length (open_times b.candles ++ (c.open_time ∷ [])) - b.max_len)
            (open_times b.candles ++ (c.open_time ∷ []))
            (NoRepeat-snoc c.open_time (open_times b.candles)
              (has_time-Misses c.open_time b.candles e) h))
  ]

  upsert-bounded :
      (b : LiveCandleBuffer D) (c : Candle D)
      → length b.candles ≤ b.max_len
      → length (upsert b c).candles ≤ b.max_len
  upsert-bounded b c h =
      let old = open_times b.candles in
      let new = old ++ (c.open_time ∷ []) in
      ground (
        arith,
        upsert-open_times b c,
        length-open_times b.candles,
        length-open_times (upsert b c).candles,
        length-drop (length new - b.max_len) new,
      )

  pub upsert-IsValid : (b : LiveCandleBuffer D) (c : Candle D) → IsValid b → IsValid (upsert b c)
  upsert-IsValid b c v = record {
    bounded = rw (upsert-config b c).0 (upsert-bounded b c v.bounded);
    distinct = upsert-distinct b c v.distinct;
  }

module _ {D : Type 0} where
  -- The bar is skipped, or NewFromFloat takes all its numbers.
  abbrev Converts : Option (Result (Candle D)) → Type 0
  Converts none = Unit {0}
  Converts (some r) = Gives (λ _. Unit {0}) r

module _ {D F : Type 0} ⦃d : Decimal D⦄ ⦃f : Float F⦄ ⦃c : Convert D F⦄ where
  abbrev pub AllConvert : LiveCandleBuffer D → List (List (JsonValue F)) → Type 0
  AllConvert b = All (λ bar. Converts (parse_kline_bar {D = D} bar b.timeframe))

  upsert_bars-IsValid :
      (b b' : LiveCandleBuffer D) (bars : List (List (JsonValue F)))
      → IsValid b
      → upsert_bars b bars ≡ ok b'
      → IsValid b'
  unfolding upsert_bars
  upsert_bars-IsValid b b' [] v h = subst IsValid (ok_injective h) v
  upsert_bars-IsValid b b' (bar ∷ bars) v h =
      elim (Option-cases (parse_kline_bar {D = D} bar b.timeframe)) [
        | inl e ↦ upsert_bars-IsValid b b' bars v (rw (e, upsert_bars) at h)
        | inr (ok candle, e) ↦
            upsert_bars-IsValid (upsert b candle) b' bars (upsert-IsValid b candle v)
              (rw (e, upsert_bars) at h)
        | inr (err s, e) ↦ absurd (ground (arith, rw (e, upsert_bars) at h))
        | inr (panic, e) ↦ absurd (ground (arith, rw (e, upsert_bars) at h))
      ]

  upsert_bars-Gives :
      (b : LiveCandleBuffer D) (bars : List (List (JsonValue F)))
      → AllConvert b bars
      → Gives (λ _. Unit {0}) (upsert_bars b bars)
  unfolding upsert_bars
  upsert_bars-Gives b [] h = gives tt
  upsert_bars-Gives b (bar ∷ bars) h =
      elim (Option-cases (parse_kline_bar {D = D} bar b.timeframe)) [
        | inl e ↦ rw (e, upsert_bars) (upsert_bars-Gives b bars h.1)
        | inr (r, e) ↦
            let (candle, e', _) = Gives-value (rw e at h.0) in
            let same = (upsert-config b candle).2 in
            rw (e, e', upsert_bars)
              (upsert_bars-Gives (upsert b candle) bars (
                subst (λ t. All (λ x. Converts (parse_kline_bar {D = D} x t)) bars) (sym same) h.1))
      ]

  handled-IsValid :
      (b b' : LiveCandleBuffer D) (event : Text) (raw : KlineUpdate F)
      → IsValid b
      → handle b event (some raw) ≡ ok b'
      → IsValid b'
  unfolding handle
  handled-IsValid b b' event raw v h = elim (Bool-cases (text_eq event (bytes "kline.update"))) [
    | inr e ↦ subst IsValid (ok_injective (rw (e, handle) at h)) v
    | inl e ↦ elim (Bool-cases (text_eq raw.market b.market)) [
      | inr e' ↦ subst IsValid (ok_injective (rw (e, e', handle) at h)) v
      | inl e' ↦ upsert_bars-IsValid b b' raw.kline v (rw (e, e', handle) at h)
    ]
  ]

  handle-Gives :
      (b : LiveCandleBuffer D) (event : Text) (raw : KlineUpdate F)
      → AllConvert b raw.kline
      → Gives (λ _. Unit {0}) (handle b event (some raw))
  unfolding handle
  handle-Gives b event raw h =
      Gives-if (text_eq event (bytes "kline.update"))
        (λ _.
          Gives-if (text_eq raw.market b.market) (λ _. upsert_bars-Gives b raw.kline h)
            (λ _. gives tt))
        (λ _. gives tt)

  -- Whatever event comes, with whatever payload, the buffer that `Handle` leaves keeps at most `maxLen`
  -- candles, and one for each open time. A payload that does not decode, another event and another
  -- market change nothing. Handle comes back if each bar of the payload is skipped or converts
  -- to a candle.
  pub handle-IsValid :
      (b : LiveCandleBuffer D) (event : Text) (raw : KlineUpdate F)
      → IsValid b
      → ((b' : LiveCandleBuffer D) → handle b event (some raw) ≡ ok b' → IsValid b')
        × (handle {F = F} b event none ≡ ok b)
        × (text_eq event (bytes "kline.update") ≡ false → handle b event (some raw) ≡ ok b)
        × (text_eq raw.market b.market ≡ false → handle b event (some raw) ≡ ok b)
        × (AllConvert b raw.kline → Gives IsValid (handle b event (some raw)))
  unfolding handle
  handle-IsValid b event raw v = (
    λ b' h. handled-IsValid b b' event raw v h,
    refl,
    λ h. rw h refl,
    λ h. ground (arith, h),
    λ h.
        let (b', e, _) = Gives-value (handle-Gives b event raw h) in
        rw e (gives (handled-IsValid b b' event raw v e)),
  )
