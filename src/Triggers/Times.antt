-- ===== src/Triggers/Times.antt =====
-- Where the next run of a trigger lies.
use vibecoding_dofe_ai.Base.{
  ◌==◌, string_eq, ◌==◌, string_eq, ℕ, ◌+◌, ◌≤◌, ◌<◌, ◌≡◌, refl, false, String, List, ◌∷◌, some,
  arith, leb, Bool-cases, inl, inr,
}
use vibecoding_dofe_ai.Triggers.Cron.{
  CronTools, compute_next_cron_time, next_of_parts, set_hours, daily_next, weekly_next, current_day,
}

daily-bounds :
    (now h m : ℕ)
    → h < 24
    → m < 60
    → (now < daily_next now (set_hours now h m))
      × (daily_next now (set_hours now h m) ≤ now + 86400000)
daily-bounds now h m hh hm = elim (Bool-cases (leb (set_hours now h m) now)) [
  | inl e ↦ rw e (ground (arith, e), ground (arith, e))
  | inr e ↦ rw e (ground (arith, e), ground (arith, e))
]

weekly-due :
    (now next target : ℕ)
    → target < current_day next
    → now < next
    → next ≤ now + 86400000
    → weekly_next now next target ≤ now
weekly-due now next target earlier later within = elim (Bool-cases (leb next now)) [
  | inl e ↦ absurd (ground (arith, e))
  | inr e ↦ rw e (elim (Bool-cases (leb target (current_day next))) [
    | inl f ↦ rw f (omega (arith, earlier, within))
    | inr f ↦ rw f (omega (arith, earlier, within))
  ])
]

module _ (tools : CronTools) (cron : String) (now h m : ℕ) (minute hour : String)
    (rest : List String) (hours : tools.parse_int hour ≡ some h)
    (minutes : tools.parse_int minute ≡ some m) (hh : h < 24) (hm : m < 60) where
  -- For a cron text with an hour below 24, a minute below 60 and "*" in the other fields, the next
  -- run is after now and at most one day away.
  pub compute_next_cron_time-daily :
      tools.words cron ≡ minute ∷ hour ∷ "*" ∷ "*" ∷ "*" ∷ rest
      → (next : ℕ) × (compute_next_cron_time tools cron now ≡ some next)
        × (now < next)
        × (next ≤ now + 86400000)
  unfolding compute_next_cron_time next_of_parts
  compute_next_cron_time-daily parts =
      let (after_now, soon) = daily-bounds now h m hh hm in
      (daily_next now (set_hours now h m), rw (parts, hours, minutes) refl, after_now, soon)

  -- For a weekly cron text whose weekday is earlier in the week than today and whose time of day is
  -- still to come, the next run is not after now.
  pub compute_next_cron_time-weekly :
      (weekday : String) (target : ℕ)
      → tools.words cron ≡ minute ∷ hour ∷ "*" ∷ "*" ∷ weekday ∷ rest
      → (weekday == "*") ≡ false
      → tools.parse_int weekday ≡ some target
      → target < current_day (set_hours now h m)
      → now < set_hours now h m
      → (next : ℕ) × (compute_next_cron_time tools cron now ≡ some next) × (next ≤ now)
  unfolding compute_next_cron_time next_of_parts
  compute_next_cron_time-weekly weekday target parts named day earlier later = (
    weekly_next now (set_hours now h m) target,
    rw (parts, named, hours, minutes, day) refl,
    weekly-due now (set_hours now h m) target earlier later (omega (arith, hh, hm)),
  )
