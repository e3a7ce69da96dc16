-- ===== src/Health/Errors.antt =====
-- internal/health/monitor.go, `ErrorTracker`: the errors of a sliding window of time.
pub mod Window
use coinex_bot.Prelude.{
  ℕ, ◌+◌, ◌/◌, ◌%◌, ◌^◌, List, [], ◌∷◌, ◌++◌, if◌then◌else◌, ltb, length, Text,
}
use coinex_bot.Number.{Float}
use coinex_bot.Models.{Time, Duration}

pub record ErrorEvent : Type 0 where
  pub ts : Time
  pub msg : Text

pub record ErrorTracker : Type 0 where
  pub events : List ErrorEvent
  pub window : Duration

unfoldable pub new_error_tracker : Duration → ErrorTracker
new_error_tracker window = record { events = []; window = window }

-- An event before `now - window` goes, as long as only such events stand before it.
unfoldable pub prune_events : Time → Duration → List ErrorEvent → List ErrorEvent
prune_events now window [] = []
prune_events now window (e ∷ es) =
    if ltb (e.ts + window) now then prune_events now window es else e ∷ es

unfoldable pub prune : Time → ErrorTracker → ErrorTracker
prune now et = record et { events = prune_events now et.window et.events }

unfoldable pub record_event : Time → Text → ErrorTracker → ErrorTracker
record_event now msg et =
    prune now (record et { events = et.events ++ (record { ts = now; msg = msg } ∷ []) })

unfoldable pub count : Time → ErrorTracker → ErrorTracker × ℕ
count now et = let et' = prune now et in (et', length et'.events)

module _ {F : Type 0} ⦃f : Float F⦄ where
  open f use {literal, of_int, plus, over}

  -- `Duration.Seconds`
  unfoldable pub seconds : Duration → F
  seconds d = plus (of_int (d / 10 ^ 9)) (over (of_int (d % 10 ^ 9)) (literal 1000000000 1))

  unfoldable pub rate : Time → ErrorTracker → ErrorTracker × F
  rate now et =
      let et' = prune now et in (et', over (of_int (length et'.events)) (seconds et'.window))
