-- ===== src/Health/Errors/Window.antt =====
-- internal/health/monitor.go, `ErrorTracker`: the count is that of the errors inside the window.
use coinex_bot.Prelude.{
  ◌+◌, ◌≤◌, ◌≡◌, refl, ap, ◌∙◌, List, [], ◌∷◌, ◌++◌, arith, append-nil, append_assoc, if◌then◌else◌,
  ltb, length,
}
use coinex_bot.Models.{Time, Duration}
use coinex_bot.Health.Errors.{
  ErrorEvent, ErrorTracker, new_error_tracker, prune_events, prune, record_event, count,
}

-- The errors whose window has not passed at the time `now`.
abbrev pub within : Time → Duration → List ErrorEvent → List ErrorEvent
within now window [] = []
within now window (e ∷ es) =
    let rest = within now window es in if ltb (e.ts + window) now then rest else e ∷ rest

-- The clock does not run back: the times rise from `t` on.
abbrev pub IsTimed : Time → List ErrorEvent → Type 0
IsTimed t [] = Unit {0}
IsTimed t (e ∷ es) = (t ≤ e.ts) × IsTimed e.ts es

IsTimed-mono : (s t : Time) (es : List ErrorEvent) → s ≤ t → IsTimed t es → IsTimed s es
IsTimed-mono s t [] h v = tt
IsTimed-mono s t (e ∷ es) h v = (omega arith, v.1)

within-all :
    (now t : Time) (window : Duration) (es : List ErrorEvent)
    → IsTimed t es
    → now ≤ t + window
    → within now window es ≡ es
within-all now t window [] v h = refl
within-all now t window (e ∷ es) v h = ground (arith, within-all now e.ts window es v.1)

prune_events-within :
    (now t : Time) (window : Duration) (es : List ErrorEvent)
    → IsTimed t es
    → prune_events now window es ≡ within now window es
unfolding prune_events
prune_events-within now t window [] v = refl
prune_events-within now t window (e ∷ es) v =
    ground (arith, prune_events-within now e.ts window es v.1, within-all now e.ts window es v.1)

within-append :
    (s now : Time) (window : Duration) (xs ys : List ErrorEvent)
    → s ≤ now
    → within now window (within s window xs ++ ys) ≡ within now window (xs ++ ys)
within-append s now window [] ys h = refl
within-append s now window (x ∷ xs) ys h = ground (arith, within-append s now window xs ys h)

within-IsTimed :
    (s b : Time) (window : Duration) (xs ys : List ErrorEvent) (e : ErrorEvent)
    → IsTimed b (xs ++ (e ∷ ys))
    → IsTimed b (within s window xs ++ (e ∷ []))
within-IsTimed s b window [] ys e v = (v.0, tt)
within-IsTimed s b window (x ∷ xs) ys e v =
    let rest = within-IsTimed s x.ts window xs ys e v.1 in
    ground (arith, rest, IsTimed-mono b x.ts (within s window xs ++ (e ∷ [])))

-- `Record` of one error after another.
abbrev pub record_all : ErrorTracker → List ErrorEvent → ErrorTracker
record_all et [] = et
record_all et (e ∷ es) = record_all (record_event e.ts e.msg et) es

abbrev last_time : Time → List ErrorEvent → Time
last_time t [] = t
last_time t (e ∷ es) = last_time e.ts es

record_all-within :
    (et : ErrorTracker) (b t : Time) (seen rest : List ErrorEvent)
    → IsTimed b (seen ++ rest)
    → IsTimed t rest
    → et.events ≡ within t et.window seen
    → ((record_all et rest).events ≡ within (last_time t rest) et.window (seen ++ rest))
      × ((record_all et rest).window ≡ et.window)
unfolding record_event prune
record_all-within et b t seen [] v w h = (rw append-nil h, refl)
record_all-within et b t seen (e ∷ es) v w h =
    let et' = record_event e.ts e.msg et in
    let one : List ErrorEvent = e ∷ [] in
    let h' : et'.events ≡ within e.ts et.window (seen ++ one) = ground (
      arith,
      h,
      prune_events-within e.ts b et.window (within t et.window seen ++ one)
          (within-IsTimed t b et.window seen es e v),
      within-append t e.ts et.window seen one w.0,
    ) in
    let e' : (seen ++ one) ++ es ≡ seen ++ (e ∷ es) = append_assoc seen one es in
    let ih = record_all-within et' b e.ts (seen ++ one) es (rw e' v) w.1 h' in rw (← e') ih

within-keeps :
    (s b : Time) (window : Duration) (xs : List ErrorEvent)
    → IsTimed b xs
    → IsTimed b (within s window xs)
within-keeps s b window [] v = tt
within-keeps s b window (x ∷ xs) v =
    ground (arith, within-keeps s x.ts window xs v.1, IsTimed-mono b x.ts (within s window xs))

within_twice :
    (s now : Time) (window : Duration) (xs : List ErrorEvent)
    → s ≤ now
    → within now window (within s window xs) ≡ within now window xs
within_twice s now window [] h = refl
within_twice s now window (x ∷ xs) h = ground (arith, within_twice s now window xs h)

-- If the clock does not run back, `Count` after any errors is the number of those that are at most
-- `window` old, though each `Record` dropped errors too.
pub count-record_all :
    (window : Duration) (es : List ErrorEvent) (now : Time)
    → IsTimed 0 es
    → last_time 0 es ≤ now
    → (count now (record_all (new_error_tracker window) es)).1 ≡ length (within now window es)
unfolding new_error_tracker count prune
count-record_all window es now v h =
    let et = record_all (new_error_tracker window) es in
    let (kept, same) = record_all-within (new_error_tracker window) 0 0 [] es v v refl in
    let s = last_time 0 es in
    rw (same, kept)
      (ap length (
        prune_events-within now 0 window (within s window es) (within-keeps s 0 window es v)
        ∙ within_twice s now window es h))
