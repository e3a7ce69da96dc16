-- ===== src/Health/Latency/Kept.antt =====
-- internal/health/monitor.go, `LatencyTracker`: which samples are kept.

use coinex_bot.Prelude.{
  ℕ, zero, suc, ◌-◌, ◌≤◌, ◌<◌, ◌≡◌, refl, ap, ◌∙◌, inl, inr, true, false, List, [], ◌∷◌, ◌++◌,
  arith, append-nil, append_assoc, ltb, length, length-append, length-drop, drop, Bool-cases,
}
use coinex_bot.Models.{Duration}
use coinex_bot.Health.Latency.{LatencyTracker, new_latency_tracker, record_sample}

-- `Record` of one sample after another.
abbrev pub record_all : LatencyTracker → List Duration → LatencyTracker
record_all lt [] = lt
record_all lt (d ∷ ds) = record_all (record_sample d lt) ds

drop_one :
    (xs ds : List Duration) (d : Duration) → drop 1 (xs ++ (d ∷ [])) ++ ds ≡ drop 1 (xs ++ (d ∷ ds))
drop_one [] ds d = refl
drop_one (x ∷ xs) ds d = append_assoc xs (d ∷ []) ds

drop-drop_one : (k : ℕ) (xs : List Duration) → drop k (drop 1 xs) ≡ drop (suc k) xs
drop-drop_one zero [] = refl
drop-drop_one zero (x ∷ xs) = refl
drop-drop_one (suc k) [] = refl
drop-drop_one (suc k) (x ∷ xs) = refl

drop_over :
    (k : ℕ) (xs : List Duration)
    → k < length xs
    → drop (length (drop 1 xs) - k) (drop 1 xs) ≡ drop (length xs - k) xs
drop_over k xs h =
    let less : length xs - k ≡ suc (length (drop 1 xs) - k) = omega (arith, length-drop 1 xs) in
    rw less (drop-drop_one (length (drop 1 xs) - k) xs)

record_sample-over :
    (lt : LatencyTracker) (d : Duration)
    → ltb lt.max_len (length (lt.samples ++ (d ∷ []))) ≡ true
    → record_sample d lt ≡ record lt { samples = drop 1 (lt.samples ++ (d ∷ [])) }
unfolding record_sample
record_sample-over lt d h = rw h

record_sample-fits :
    (lt : LatencyTracker) (d : Duration)
    → ltb lt.max_len (length (lt.samples ++ (d ∷ []))) ≡ false
    → record_sample d lt ≡ record lt { samples = lt.samples ++ (d ∷ []) }
unfolding record_sample
record_sample-fits lt d h = rw h

record_all-drop :
    (lt : LatencyTracker) (ds : List Duration)
    → length lt.samples ≤ lt.max_len
    → (record_all lt ds).samples ≡ drop (length (lt.samples ++ ds) - lt.max_len) (lt.samples ++ ds)
unfolding record_sample
record_all-drop lt [] h =
    let none_over : length lt.samples - lt.max_len ≡ 0 = omega arith in
    rw (append-nil, none_over) refl
record_all-drop lt (d ∷ ds) h =
    let new = lt.samples ++ (d ∷ []) in
    let all = lt.samples ++ (d ∷ ds) in
    let size = length-append lt.samples (d ∷ []) in
    elim (Bool-cases (ltb lt.max_len (length new))) [
      | inl over ↦
          ap (λ t. (record_all t ds).samples) (record_sample-over lt d over)
          ∙ (record_all-drop (record lt { samples = drop 1 new }) ds
                (omega (arith, size, length-drop 1 new))
              ∙ rw drop_one (
                  drop_over lt.max_len all
                    (ground (arith, size, length-append lt.samples (d ∷ ds)))))
      | inr fits ↦
          ap (λ t. (record_all t ds).samples) (record_sample-fits lt d fits)
          ∙ (rw append_assoc at
              (record_all-drop (record lt { samples = new }) ds (ground (arith, size))))
    ]

-- Of the samples recorded, the last `max_len` are kept, in order.
pub record_all-last :
    (max_len : ℕ) (ds : List Duration)
    → (record_all (new_latency_tracker max_len) ds).samples ≡ drop (length ds - max_len) ds
unfolding new_latency_tracker
record_all-last max_len ds = record_all-drop (new_latency_tracker max_len) ds (omega arith)
