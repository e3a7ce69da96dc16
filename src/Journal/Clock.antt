-- ===== src/Journal/Clock.antt =====
-- internal/journal/journal.go: the two texts that it makes of times, `Round(time.Second).String()` of
-- a duration and `Format("2006-01-02")` of a time, which is taken as UTC.
use coinex_bot.Prelude.{
  ℕ, zero, suc, ◌+◌, ◌-◌, ◌*◌, ◌/◌, ◌%◌, ◌^◌, ◌≡◌, refl, [], ◌∷◌, ◌++◌, if◌then◌else◌, ltb, leb,
  Text, bytes, digits,
}
use coinex_bot.Models.{Time, Duration}

-- Exactly `width` digits, the lowest of the number.
padded : ℕ → ℕ → Text
padded zero n = []
padded (suc width) n = let rest = padded width (n / 10) in rest ++ ((b'0' + n % 10) ∷ [])

-- A Go duration has fewer than 20 digits. Half a second is rounded up.
unfoldable pub duration_text : Duration → Text
unfolding digits
duration_text ns =
    let s = (ns + 5 * 10 ^ 8) / 10 ^ 9 in
    let h = s / 3600 in
    let m = s / 60 % 60 in
    let seconds = digits 20 (s % 60) ++ bytes "s" in
    let minutes = digits 20 m ++ bytes "m" ++ seconds in
    if ltb 0 h then digits 20 h ++ bytes "h" ++ minutes else if ltb 0 m then minutes else seconds

-- The day of the proleptic Gregorian calendar.
unfoldable pub day_text : Time → Text
unfolding padded
day_text t =
    let z = t / (86400 * 10 ^ 9) + 719468 in
    let era = z / 146097 in
    let doe = z % 146097 in
    let yoe = (doe - doe / 1460 + doe / 36524 - doe / 146096) / 365 in
    let doy = doe - (365 * yoe + yoe / 4 - yoe / 100) in
    let mp = (5 * doy + 2) / 153 in
    let day = doy - (153 * mp + 2) / 5 + 1 in
    let month = if ltb mp 10 then mp + 3 else mp - 9 in
    let year = yoe + era * 400 + (if leb month 2 then 1 else 0) in
    padded 4 year ++ bytes "-" ++ padded 2 month ++ bytes "-" ++ padded 2 day

hour_text : duration_text (3725 * 10 ^ 9 + 499999999) ≡ bytes "1h2m5s"
unfolding duration_text
hour_text = refl

leap_day : day_text (1709164800 * 10 ^ 9) ≡ bytes "2024-02-29"
unfolding day_text
leap_day = refl
