-- ===== src/Optimizer/Windows.antt =====
-- internal/optimizer/optimizer.go: the walk-forward windows.
use coinex_bot.Prelude.{
  ℕ, zero, suc, ◌+◌, ◌≤◌, ◌<◌, ◌≡◌, refl, inl, inr, true, false, List, [], ◌∷◌, some, arith, leb,
  Bool-cases,
}
use coinex_bot.Optimizer.{WalkForwardWindow, windows_from, build_windows}

-- That the window begins at `start`, its two samples adjoin and have the sizes asked for, and it ends
-- inside the candles.
pub record IsWindow (start total in_sample out_sample : ℕ) (w : WalkForwardWindow) : Type 0 where
  pub begins : w.in_sample_start ≡ start
  pub trains : w.in_sample_end ≡ w.in_sample_start + in_sample
  pub adjoins : w.out_sample_start ≡ w.in_sample_end
  pub validates : w.out_sample_end ≡ w.out_sample_start + out_sample
  pub fits : w.out_sample_end ≤ total

-- Windows at `start`, `start + step` and so on, as many as fit.
abbrev pub AreRolling : ℕ → ℕ → ℕ → ℕ → ℕ → List WalkForwardWindow → Type 0
AreRolling start total in_sample out_sample step [] = total < start + in_sample + out_sample
AreRolling start total in_sample out_sample step (w ∷ ws) =
    IsWindow start total in_sample out_sample w
    × AreRolling (start + step) total in_sample out_sample step ws

module _ (total in_sample out_sample step : ℕ) where
  windows_from-step :
      (fuel start : ℕ) (ws : List WalkForwardWindow)
      → leb (start + in_sample + out_sample) total ≡ true
      → windows_from fuel (start + step) total in_sample out_sample step ≡ some ws
      → (w : WalkForwardWindow) × (windows_from (suc fuel) start total in_sample out_sample step
          ≡ some (w ∷ ws))
        × IsWindow start total in_sample out_sample w
  unfolding windows_from
  windows_from-step fuel start ws t e =
      let w : WalkForwardWindow = record {
        in_sample_start = start;
        in_sample_end = start + in_sample;
        out_sample_start = start + in_sample;
        out_sample_end = start + in_sample + out_sample;
      } in
      (
        w,
        rw (t, e) refl,
        record {
          begins = refl;
          trains = refl;
          adjoins = refl;
          validates = refl;
          fits = ground (arith, t);
        },
      )

  windows_from-ok :
      (fuel start : ℕ)
      → 0 < step
      → total + 1 ≤ fuel + start
      → (ws : List WalkForwardWindow) × (windows_from
            (suc fuel)
            start
            total
            in_sample
            out_sample
            step
          ≡ some ws)
        × AreRolling start total in_sample out_sample step ws
  unfolding windows_from
  windows_from-ok zero start pos h =
      let over : leb (start + in_sample + out_sample) total ≡ false = ground arith in
      ([], rw over refl, omega arith)
  windows_from-ok (suc fuel) start pos h =
      let (ws, e, rolling) = windows_from-ok fuel (start + step) pos (omega arith) in
      elim (Bool-cases (leb (start + in_sample + out_sample) total)) [
        | inl t ↦
            let (w, e', v) = windows_from-step (suc fuel) start ws t e in (w ∷ ws, e', (v, rolling))
        | inr t ↦ ([], rw t refl, ground arith)
      ]

  -- With a positive step buildWindows returns, and its windows are those at 0, at one step, at two and
  -- so on, as many as fit: each trains on the bars asked for, validates on those that follow, and ends
  -- inside the candles.
  pub build_windows-AreRolling :
      0 < step
      → (ws : List WalkForwardWindow) × (build_windows total in_sample out_sample step ≡ some ws)
        × AreRolling 0 total in_sample out_sample step ws
  unfolding build_windows
  build_windows-AreRolling pos = windows_from-ok (total + 1) 0 pos (omega arith)
