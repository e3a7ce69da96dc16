-- ===== src/Api/CandleBuffer/Times.antt =====
-- internal/api/candle_buffer.go: which open times the buffer holds, and that the newest update of
-- each is what it holds.
use coinex_bot.Prelude.{
  ℕ, zero, suc, ◌-◌, ◌≡◌, refl, ap, inl, inr, Bool, true, false, ◌||◌, List, [], ◌∷◌, ◌++◌, none,
  some, arith, if◌then◌else◌, ltb, ◌==◌, length, drop, last_of, Bool-cases,
}
use coinex_bot.Models.{Time, Candle}
use coinex_bot.Api.CandleBuffer.{LiveCandleBuffer, replace_latest, evict, upsert}

module _ {D : Type 0} where
  abbrev pub open_times : List (Candle D) → List Time
  open_times [] = []
  open_times (c ∷ cs) = c.open_time ∷ open_times cs

  abbrev pub has_time : Time → List (Candle D) → Bool
  has_time t [] = false
  has_time t (c ∷ cs) = c.open_time == t || has_time t cs

  -- Replacing finds an open time exactly when it is there, and keeps all open times in place.
  replace_latest-open_times :
      (c : Candle D) (cs : List (Candle D))
      → (has_time c.open_time cs ≡ false → replace_latest c cs ≡ none)
        × (has_time c.open_time cs ≡ true
            → (ys : List (Candle D)) × (replace_latest c cs ≡ some ys)
              × (open_times ys ≡ open_times cs))
  unfolding replace_latest
  replace_latest-open_times c [] = (λ h. refl, λ h. cc)
  replace_latest-open_times c (x ∷ xs) =
      let (absent, present) = replace_latest-open_times c xs in
      elim (Bool-cases (has_time c.open_time xs)) [
        | inl e ↦
            let (ys, found, same) = present e in
            (λ h. ground (arith, e), λ h. (x ∷ ys, rw found refl, ap (◌∷◌ x.open_time) same))
        | inr e ↦ (
          λ h. ground (arith, absent e),
          λ h.
              let here : (x.open_time == c.open_time) ≡ true = ground (arith, e) in
              (c ∷ xs, rw (absent e) (rw here refl), ground (arith, here)),
        )
      ]

  open_times-append :
      (cs ds : List (Candle D)) → open_times (cs ++ ds) ≡ open_times cs ++ open_times ds
  open_times-append [] ds = refl
  open_times-append (c ∷ cs) ds = ap (◌∷◌ c.open_time) (open_times-append cs ds)

  open_times-drop : (n : ℕ) (cs : List (Candle D)) → open_times (drop n cs) ≡ drop n (open_times cs)
  open_times-drop zero cs = refl
  open_times-drop (suc n) [] = refl
  open_times-drop (suc n) (c ∷ cs) = open_times-drop n cs

  pub length-open_times : (cs : List (Candle D)) → length (open_times cs) ≡ length cs
  length-open_times [] = refl
  length-open_times (c ∷ cs) = ap suc (length-open_times cs)

  evict-last_of : (n : ℕ) (cs : List (Candle D)) → evict n cs ≡ last_of n cs
  unfolding evict
  evict-last_of n cs = elim (Bool-cases (ltb n (length cs))) [
    | inl over ↦ rw over refl
    | inr fits ↦
        let none_over : length cs - n ≡ 0 = ground (arith, fits) in rw (fits, none_over) refl
  ]

  open_times-last_of :
      (n : ℕ) (cs : List (Candle D)) → open_times (last_of n cs) ≡ last_of n (open_times cs)
  open_times-last_of n cs = rw (open_times-drop, length-open_times)

  -- An update whose open time the buffer holds leaves the open times as they are. Any other, older
  -- or newer than what is held, has its time put last, and of the times the last `maxLen` are kept.
  pub upsert-open_times :
      (b : LiveCandleBuffer D) (c : Candle D)
      → open_times (upsert b c).candles ≡ (
          if has_time c.open_time b.candles
          then open_times b.candles
          else last_of b.max_len (open_times b.candles ++ (c.open_time ∷ [])))
  unfolding upsert
  upsert-open_times b c =
      let (absent, present) = replace_latest-open_times c b.candles in
      elim (Bool-cases (has_time c.open_time b.candles)) [
        | inl e ↦ let (ys, found, same) = present e in rw (e, found, upsert) same
        | inr e ↦
            rw (e, absent e, upsert)
              (rw (evict-last_of, open_times-last_of, open_times-append) refl)
      ]

  pub upsert-config :
      (b : LiveCandleBuffer D) (c : Candle D)
      → ((upsert b c).max_len ≡ b.max_len)
        × ((upsert b c).market ≡ b.market)
        × ((upsert b c).timeframe ≡ b.timeframe)
  unfolding upsert
  upsert-config b c = ground arith
