-- ===== src/Triggers/Scheduler.antt =====
-- `processTick` of the scheduler: the active triggers that are due are fired one after another.
use vibecoding_dofe_ai.Base.{
  ℕ, suc, String, List, [], ◌∷◌, Option, none, some, filter, ltb, if◌then◌else◌,
}
use vibecoding_dofe_ai.Store.{Reply, answer, refusal}
use vibecoding_dofe_ai.Triggers.Cron.{
  CronTools, NextRun, no_run, invalid_date, run_at, compute_next_run,
}
use vibecoding_dofe_ai.Triggers.Files.{is_active, Trigger, TriggerFiles, write_schedule_trigger}
use vibecoding_dofe_ai.Triggers.Firing.{IssuePort, FireResponse, fire_schedule_trigger}

pub record Counts : Type 0 where
  pub fired : ℕ
  pub skipped : ℕ
  pub errors : ℕ

-- The end of a tick; `stopped` is an exception that leaves the loop.
pub data Tick : Type 0 where
  ticked stopped : Counts → TriggerFiles → Tick

abbrev pub add_skipped : Counts → Counts
add_skipped counts = record counts { skipped = suc counts.skipped }

-- `result.created`, or a trigger that is gone.
abbrev pub add_fired : Reply (FireResponse × TriggerFiles) → Counts → Counts
add_fired (refusal e) counts = record counts { errors = suc counts.errors }
add_fired (answer (response, files)) counts =
    if response.created
    then record counts { fired = suc counts.fired }
    else record counts { errors = suc counts.errors }

abbrev pub files_after : Reply (FireResponse × TriggerFiles) → TriggerFiles → TriggerFiles
files_after (refusal e) files = files
files_after (answer (response, after)) files = after

module _ (tools : CronTools) (port : IssuePort) (now : ℕ) (reason : Option String) where
  -- A trigger without a next run gets one; `next` is the rest of the loop.
  unfoldable pub set_next_run :
      (next : Counts → TriggerFiles → Tick) → Trigger → NextRun → Counts → TriggerFiles → Tick
  set_next_run next trigger no_run counts files = next (add_skipped counts) files
  set_next_run next trigger invalid_date counts files = stopped counts files
  set_next_run next trigger (run_at time) counts files =
      next (add_skipped counts) (
        write_schedule_trigger (record trigger { next_run_at = some time; updated_at = now }) files)

  unfoldable pub process_due :
      (next : Counts → TriggerFiles → Tick) → Trigger → Option ℕ → Counts → TriggerFiles → Tick
  process_due next trigger none counts files =
      set_next_run next trigger (compute_next_run tools trigger.cron_expression now) counts files
  process_due next trigger (some next_run_at) counts files =
      if ltb now next_run_at
      then next (add_skipped counts) files
      else let result = fire_schedule_trigger tools port now trigger.id reason files in
        next (add_fired result counts) (files_after result files)

  unfoldable pub process_triggers : List Trigger → Counts → TriggerFiles → Tick
  process_triggers [] counts files = ticked counts files
  process_triggers (trigger ∷ rest) counts files =
      process_due (process_triggers rest) trigger trigger.next_run_at counts files

  unfoldable pub process_tick : TriggerFiles → Tick
  process_tick files =
      process_triggers (filter (λ trigger. is_active trigger.status) files.triggers)
        (record { fired = 0; skipped = 0; errors = 0 }) files
