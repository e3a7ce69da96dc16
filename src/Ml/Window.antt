-- ===== src/Ml/Window.antt =====
-- internal/ml/ensemble.go, `AddSample`: the rolling window of samples.
use coinex_bot.Prelude.{
  ◌≡◌, refl, sym, ◌∙◌, ap, Bool, inl, inr, Bool-cases, List, [], ◌∷◌, ◌++◌, arith, if◌then◌else◌,
  ltb, length, map, last_of, last_of-append_last, append_assoc, append-nil, ◌-◌,
}
use coinex_bot.Number.{Float}
use coinex_bot.Ml.Ensemble.{FeatureSample, Ensemble, add_sample}

cut_lem :
    {A : Type 0} (xs : List A)
    → (if ltb 5000 (length xs) then last_of 5000 xs else xs) ≡ last_of 5000 xs
cut_lem xs = elim (Bool-cases (ltb 5000 (length xs))) [
  | inl long ↦ rw long refl
  | inr short ↦ let none_over : length xs - 5000 ≡ 0 = ground arith in rw (short, none_over) refl
]

module _ {F : Type 0} ⦃f : Float F⦄ where
  unfoldable pub add_samples : List (List F × Bool) → Ensemble F → Ensemble F
  add_samples [] e = e
  add_samples ((x, profitable) ∷ rest) e = add_samples rest (add_sample x profitable e)

  -- The sample of a trade: labelled 1 if it made a profit, and 0 if not.
  abbrev pub labelled : List F × Bool → FeatureSample F
  labelled (x, profitable) = record { x = x; y = if profitable then f.of_int 1 else f.of_int 0 }

  add_sample-buffer :
      (x : List F) (profitable : Bool) (e : Ensemble F) (all : List (FeatureSample F))
      → e.training_buffer ≡ last_of 5000 all
      → (add_sample x profitable e).training_buffer
        ≡ last_of 5000 (all ++ (labelled (x, profitable) ∷ []))
  unfolding add_sample
  add_sample-buffer x profitable e all h =
      let s = labelled (x, profitable) in
      cut_lem (e.training_buffer ++ (s ∷ []))
      ∙ ap (λ b. last_of 5000 (b ++ (s ∷ []))) h
      ∙ last_of-append_last 5000 all (s ∷ [])

  -- From an ensemble whose buffer is the last 5000 of some samples, after any samples more, the buffer
  -- is the last 5000 of them all, in order and with their labels.
  pub add_samples-window :
      (samples : List (List F × Bool)) (e : Ensemble F) (all : List (FeatureSample F))
      → e.training_buffer ≡ last_of 5000 all
      → (add_samples samples e).training_buffer ≡ last_of 5000 (all ++ map labelled samples)
  unfolding add_samples
  add_samples-window [] e all h = h ∙ sym (ap (last_of 5000) (append-nil all))
  add_samples-window ((x, profitable) ∷ rest) e all h =
      add_samples-window rest (add_sample x profitable e) (all ++ (labelled (x, profitable) ∷ []))
        (add_sample-buffer x profitable e all h)
      ∙ ap (last_of 5000) (append_assoc all (labelled (x, profitable) ∷ []) (map labelled rest))
