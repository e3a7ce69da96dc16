-- ===== src/Engine/Consensus.antt =====
-- internal/engine/engine.go, `aggregateSignals`: a vote of strategies that agree.
use coinex_bot.Prelude.{◌≡◌, refl, Bool, true, false, List, [], ◌∷◌, All, inl, inr, Bool-cases}
use coinex_bot.Number.{Float}
use coinex_bot.Models.{Time, SignalType, long, short, is_long, is_short, Signal}
use coinex_bot.MultiMarket.{confidence_of}
use coinex_bot.Engine.Tick.{vote}

-- What holds of `float64` when no number is a NaN.
pub record IsPositive (F : Type 0) ⦃f : Float F⦄ : Type 0 where
  pub lt_irrefl : (x : F) → f.lt x x ≡ false
  pub lt_asym : (x y : F) → f.lt x y ≡ true → f.lt y x ≡ false
  pub eq_of_lt : (x y : F) → f.lt x y ≡ true → f.eq y x ≡ false
  pub lt_plus :
      (x y : F)
      → f.lt x (f.of_int 0) ≡ false
      → f.lt (f.of_int 0) y ≡ true
      → f.lt (f.of_int 0) (f.plus x y) ≡ true

module _ {F : Type 0} ⦃f : Float F⦄ where
  -- A signal of that kind, of which the strategy is confident at all.
  abbrev pub IsFor : SignalType → Signal F → Type 0
  IsFor kind s = (s.signal ≡ kind) × (f.lt (f.of_int 0) s.confidence ≡ true)

  none_of :
      (test : SignalType → Bool) (kind : SignalType) (ss : List (Signal F)) (total : F)
      → test kind ≡ false
      → All (IsFor kind) ss
      → confidence_of test total ss ≡ total
  unfolding confidence_of
  none_of test kind [] total e h = refl
  none_of test kind (s ∷ ss) total e h = rw (h.0.0, e) (none_of test kind ss total e h.1)

  module _ (laws : IsPositive F) where
    all_of :
        (test : SignalType → Bool) (kind : SignalType) (ss : List (Signal F)) (total : F)
        → test kind ≡ true
        → All (IsFor kind) ss
        → f.lt (f.of_int 0) total ≡ true
        → f.lt (f.of_int 0) (confidence_of test total ss) ≡ true
    unfolding confidence_of
    all_of test kind [] total e h p = p
    all_of test kind (s ∷ ss) total e h p =
        rw (h.0.0, e)
          (all_of test kind ss (f.plus total s.confidence) e h.1
            (laws.lt_plus total s.confidence (laws.lt_asym (f.of_int 0) total p) h.0.1))

    sum_of :
        (test : SignalType → Bool) (kind : SignalType) (s : Signal F) (ss : List (Signal F))
        → test kind ≡ true
        → All (IsFor kind) (s ∷ ss)
        → f.lt (f.of_int 0) (confidence_of test (f.of_int 0) (s ∷ ss)) ≡ true
    unfolding confidence_of
    sum_of test kind s ss e h =
        rw (h.0.0, e)
          (all_of test kind ss (f.plus (f.of_int 0) s.confidence) e h.1
            (laws.lt_plus (f.of_int 0) s.confidence (laws.lt_irrefl (f.of_int 0)) h.0.1))

    -- With the order of numbers, signals that all say long, each with some confidence, make the
    -- consensus long, and signals that all say short make it short.
    pub vote-unanimous :
        (now : Time) (s : Signal F) (ss : List (Signal F))
        → (All (IsFor long) (s ∷ ss) → (vote now (s ∷ ss)).signal ≡ long)
          × (All (IsFor short) (s ∷ ss) → (vote now (s ∷ ss)).signal ≡ short)
    unfolding vote
    vote-unanimous now s ss =
        let z : F = f.of_int 0 in
        (
          λ h.
              let up = sum_of is_long long s ss refl h in
              rw (none_of is_short long (s ∷ ss) z refl h, laws.eq_of_lt z _ up, up) refl,
          λ h.
              let down = sum_of is_short short s ss refl h in
              rw
                (
                  none_of is_long short (s ∷ ss) z refl h,
                  laws.eq_of_lt z _ down,
                  laws.lt_asym z _ down,
                )
                (elim (Bool-cases (f.eq z z)) [ inl e ↦ rw e refl | inr e ↦ rw e refl ]),
        )
