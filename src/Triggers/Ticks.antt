-- ===== src/Triggers/Ticks.antt =====
-- What a tick counts, and what stops it.
use vibecoding_dofe_ai.Base.{
  ℕ, suc, ◌+◌, ◌≡◌, ◌≤◌, ◌∙◌, sym, refl, String, List, [], ◌∷◌, Option, none, some, length, filter,
  ltb, arith, Bool-cases, inl, inr, Option-cases,
}
use vibecoding_dofe_ai.Store.{Reply, answer, refusal}
use vibecoding_dofe_ai.Triggers.Cron.{
  compute_next_cron_time, next_of_parts, next_run_of_parts, CronTools, NextRun, no_run,
  invalid_date, run_at, compute_next_run,
}
use vibecoding_dofe_ai.Triggers.Files.{is_active, Trigger, TriggerFiles}
use vibecoding_dofe_ai.Triggers.Firing.{IssuePort, FireResponse, fire_schedule_trigger}
use vibecoding_dofe_ai.Triggers.Scheduler.{
  Counts, Tick, ticked, stopped, add_skipped, add_fired, files_after, set_next_run, process_due,
  process_triggers, process_tick,
}

abbrev pub total : Counts → ℕ
total counts = counts.fired + (counts.skipped + counts.errors)

add_fired-total :
    (r : Reply (FireResponse × TriggerFiles)) (counts : Counts)
    → total (add_fired r counts) ≡ suc (total counts)
add_fired-total (refusal e) counts = omega arith
add_fired-total (answer (response, files)) counts = ground arith

-- The tick ended with this many triggers counted, or stopped before.
abbrev pub IsCounted : ℕ → Tick → Type 0
IsCounted n (ticked counts files) = total counts ≡ n
IsCounted n (stopped counts files) = suc (total counts) ≤ n

IsCounted-along : (m n : ℕ) (tick : Tick) → m ≡ n → IsCounted m tick → IsCounted n tick
IsCounted-along m n tick e h = rw (sym e) h

module _ (tools : CronTools) (port : IssuePort) (now : ℕ) (reason : Option String) where
  module _ (n : ℕ) (next : Counts → TriggerFiles → Tick)
      (on : (counts : Counts) (files : TriggerFiles)
        → IsCounted (n + total counts) (next counts files)) where
    next-IsCounted :
        (before after : Counts) (files : TriggerFiles)
        → total after ≡ suc (total before)
        → IsCounted (suc n + total before) (next after files)
    next-IsCounted before after files e =
        IsCounted-along (n + total after) (suc n + total before) (next after files)
          (omega (arith, e)) (on after files)

    set_next_run-IsCounted :
        (trigger : Trigger) (run : NextRun) (counts : Counts) (files : TriggerFiles)
        → IsCounted
            (suc n + total counts)
            (set_next_run tools port now reason next trigger run counts files)
    unfolding set_next_run
    set_next_run-IsCounted trigger no_run counts files =
        next-IsCounted counts (add_skipped counts) files (omega arith)
    set_next_run-IsCounted trigger invalid_date counts files = omega arith
    set_next_run-IsCounted trigger (run_at time) counts files =
        next-IsCounted counts (add_skipped counts) _ (omega arith)

    process_due-IsCounted :
        (trigger : Trigger) (due : Option ℕ) (counts : Counts) (files : TriggerFiles)
        → IsCounted
            (suc n + total counts)
            (process_due tools port now reason next trigger due counts files)
    unfolding process_due
    process_due-IsCounted trigger none counts files =
        set_next_run-IsCounted trigger (compute_next_run tools trigger.cron_expression now) counts
          files
    process_due-IsCounted trigger (some due) counts files = elim (Bool-cases (ltb now due)) [
      | inl e ↦ rw e (next-IsCounted counts (add_skipped counts) files (omega arith))
      | inr e ↦
          let result = fire_schedule_trigger tools port now trigger.id reason files in
          rw e (
            next-IsCounted counts (add_fired result counts) (files_after result files)
              (add_fired-total result counts))
    ]

  process_triggers-IsCounted :
      (triggers : List Trigger) (counts : Counts) (files : TriggerFiles)
      → IsCounted
          (length triggers + total counts)
          (process_triggers tools port now reason triggers counts files)
  unfolding process_triggers
  process_triggers-IsCounted [] counts files = omega arith
  process_triggers-IsCounted (trigger ∷ rest) counts files =
      process_due-IsCounted (length rest) (process_triggers tools port now reason rest)
        (process_triggers-IsCounted rest) trigger trigger.next_run_at counts files

  -- A tick counts each active trigger once: what it counts as fired, skipped and errors adds up to
  -- the number of active triggers, or to less if it stops by an exception, whatever the port
  -- answers.
  pub process_tick-IsCounted :
      (files : TriggerFiles)
      → IsCounted
          (length (filter (λ (t : Trigger). is_active t.status) files.triggers))
          (process_tick tools port now reason files)
  unfolding process_tick
  process_tick-IsCounted files =
      let due = filter (λ (t : Trigger). is_active t.status) files.triggers in
      IsCounted-along (length due + 0) (length due) _ (omega arith)
        (process_triggers-IsCounted due (record { fired = 0; skipped = 0; errors = 0 }) files)

  -- A daily trigger whose minute cannot be read.
  module _ (cron minute hour : String) (more : List String)
      (parts : tools.words cron ≡ minute ∷ hour ∷ "*" ∷ "*" ∷ "*" ∷ more)
      (unread : tools.parse_int minute ≡ none) where
    no_next : (time : ℕ) → compute_next_cron_time tools cron time ≡ none
    unfolding compute_next_cron_time next_of_parts
    no_next time =
        rw (parts, unread)
          (elim (Option-cases (tools.parse_int hour)) [
            | inl e ↦ rw e refl
            | inr (h, e) ↦ rw e refl
          ])

    invalid_run : (time : ℕ) → compute_next_run tools cron time ≡ invalid_date
    unfolding compute_next_run next_run_of_parts
    invalid_run time =
        rw (parts, unread)
          (elim (Option-cases (tools.parse_int hour)) [
            | inl e ↦ rw e refl
            | inr (h, e) ↦ rw e refl
          ])

    -- Where the first of the active triggers has a cron text with "*" in its last three fields and
    -- a minute that cannot be read as a number, and its next run is what computeNextCronTime gave
    -- for that text, the tick of the scheduler ends by an exception before any trigger is fired,
    -- and no file changes.
    pub process_tick-stopped :
        (files : TriggerFiles) (trigger : Trigger) (rest : List Trigger) (written : ℕ)
        → filter (λ (t : Trigger). is_active t.status) files.triggers ≡ trigger ∷ rest
        → trigger.cron_expression ≡ cron
        → trigger.next_run_at ≡ compute_next_cron_time tools cron written
        → process_tick tools port now reason files
          ≡ stopped (record { fired = 0; skipped = 0; errors = 0 }) files
    unfolding process_tick process_triggers process_due set_next_run
    process_tick-stopped files trigger rest written first named from =
        rw (first, from ∙ no_next written, named, invalid_run now) refl
