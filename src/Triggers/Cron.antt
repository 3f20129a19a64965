-- ===== src/Triggers/Cron.antt =====
-- `computeNextCronTime`, in milliseconds of a clock without changes to summer time. How a text is
-- split into words, and `parseInt` of a number without a sign, are parameters.
use Prim.Native.Nat.{◌/◌, ◌%◌}
use vibecoding_dofe_ai.Base.{
  ℕ, ◌+◌, ◌*◌, ◌-◌, not, ◌&&◌, String, List, ◌∷◌, Option, none, some, leb, if◌then◌else◌, ◌==◌,
  string_eq, nat_eq,
}

pub record CronTools : Type 0 where
  -- `cronExpression.trim().split(/\s+/)`
  pub words : String → List String
  pub parse_int : String → Option ℕ

abbrev pub day_ms : ℕ
day_ms = 86400000

-- `next.setHours(hour, minute, 0, 0)`
abbrev pub set_hours : (now hour minute : ℕ) → ℕ
set_hours now hour minute = now / 86400000 * 86400000 + hour * 3600000 + minute * 60000

-- `next.getDay() || 7`; the epoch began on a Thursday.
abbrev pub current_day : ℕ → ℕ
current_day time = let day = (time / 86400000 + 4) % 7 in if day == 0 then 7 else day

-- "M H * * *"
abbrev pub daily_next : (now next : ℕ) → ℕ
daily_next now next = if leb next now then next + 86400000 else next

-- `next.setDate(next.getDate() + daysUntil)`, where `daysUntil` may be negative
abbrev pub weekly_next : (now next target_day : ℕ) → ℕ
weekly_next now next target_day =
    let day = current_day next in
    if leb target_day day && leb next now
    then next + (target_day + 7) * 86400000 - day * 86400000
    else next + target_day * 86400000 - day * 86400000

-- `next.setHours(next.getHours() + 1, 0, 0, 0)`
abbrev pub hourly_next : ℕ → ℕ
hourly_next now = now / 3600000 * 3600000 + 3600000

-- A number that cannot be read makes a date that `toISOString` refuses.
abbrev pub at_time : Option ℕ → Option ℕ → (ℕ → ℕ → Option ℕ) → Option ℕ
at_time (some hour) (some minute) k = k hour minute
at_time _ _ k = none

abbrev pub on_day : Option ℕ → (ℕ → Option ℕ) → Option ℕ
on_day (some target_day) k = k target_day
on_day none k = none

-- The branches on the five fields.
unfoldable pub next_of_parts : CronTools → (now : ℕ) → List String → Option ℕ
next_of_parts tools now (minute ∷ hour ∷ day ∷ month ∷ weekday ∷ rest) =
    let time = at_time (tools.parse_int hour) (tools.parse_int minute) in
    if day == "*" && (month == "*" && weekday == "*")
    then time (λ h m. some (daily_next now (set_hours now h m)))
    else if not (weekday == "*")
    then time (λ h m.
      on_day (tools.parse_int weekday)
        (λ target. some (weekly_next now (set_hours now h m) target)))
    else some (hourly_next now)
next_of_parts tools now _ = none

unfoldable pub compute_next_cron_time :
    CronTools → (cron_expression : String) → (now : ℕ) → Option ℕ
compute_next_cron_time tools cron_expression now =
    next_of_parts tools now (tools.words cron_expression)

-- `computeNextRun` of the scheduler: no run, a date, or a date that no text can be made of.
pub data NextRun : Type 0 where
  no_run invalid_date : NextRun
  run_at : ℕ → NextRun

abbrev pub dated : Option ℕ → NextRun
dated none = invalid_date
dated (some time) = run_at time

-- The scheduler takes a weekday only if the month is "*".
unfoldable pub next_run_of_parts : CronTools → (now : ℕ) → List String → NextRun
next_run_of_parts tools now (minute ∷ hour ∷ day ∷ month ∷ weekday ∷ rest) =
    let time = at_time (tools.parse_int hour) (tools.parse_int minute) in
    if day == "*" && (month == "*" && weekday == "*")
    then dated (time (λ h m. some (daily_next now (set_hours now h m))))
    else if not (weekday == "*") && month == "*"
    then dated (
        time (λ h m.
          on_day (tools.parse_int weekday)
            (λ target. some (weekly_next now (set_hours now h m) target))))
    else run_at (hourly_next now)
next_run_of_parts tools now _ = no_run

unfoldable pub compute_next_run : CronTools → (cron_expression : String) → (now : ℕ) → NextRun
compute_next_run tools cron_expression now =
    next_run_of_parts tools now (tools.words cron_expression)
