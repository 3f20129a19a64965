-- ===== src/Triggers/Files.antt =====
-- The schedule triggers of the store: a file for each id, in the order in which
-- the ids were first written, and the executions of all triggers.
use vibecoding_dofe_ai.Base.{
  ℕ, suc, Bool, true, false, not, ◌&&◌, String, List, [], ◌∷◌, Option, length, find, filter, any,
  if◌then◌else◌, ◌==◌, string_eq,
}

pub data TriggerStatus : Type 0 where
  active paused_trigger error_status : TriggerStatus

abbrev pub is_active : TriggerStatus → Bool
is_active active = true
is_active _ = false

abbrev pub is_paused : TriggerStatus → Bool
is_paused paused_trigger = true
is_paused _ = false

-- `LoopScheduleTriggerSchema`; times are milliseconds.
pub record Trigger : Type 0 where
  pub id : String
  pub name : String
  pub cron_expression : String
  pub status : TriggerStatus
  pub target_repo : String
  pub template_title : String
  pub template_body : String
  pub template_priority : String
  pub template_acceptance_criteria : List String
  pub failure_count : ℕ
  pub max_failures : ℕ
  pub last_run_at : Option ℕ
  pub next_run_at : Option ℕ
  pub created_at : ℕ
  pub updated_at : ℕ

-- `LoopTriggerExecutionSchema`
pub record Execution : Type 0 where
  pub id : String
  pub trigger_id : String
  pub output_issue_id : String
  pub reason : Option String
  pub created_at : ℕ

pub record TriggerFiles : Type 0 where
  pub triggers : List Trigger
  pub executions : List Execution

abbrev pub has_id : String → Trigger → Bool
has_id id trigger = trigger.id == id

abbrev pub stored : String → List Trigger → Bool
stored id triggers = any (has_id id) triggers

-- The file of the id is written over, or is a new one.
abbrev pub put : Trigger → List Trigger → List Trigger
put trigger [] = trigger ∷ []
put trigger (other ∷ rest) =
    let later = put trigger rest in if other.id == trigger.id then trigger ∷ rest else other ∷ later

unfoldable pub write_schedule_trigger : Trigger → TriggerFiles → TriggerFiles
write_schedule_trigger trigger files = record files { triggers = put trigger files.triggers }

unfoldable pub read_schedule_trigger : String → TriggerFiles → Option Trigger
read_schedule_trigger id files = find (has_id id) files.triggers

unfoldable pub delete_schedule_trigger_file : String → TriggerFiles → TriggerFiles
delete_schedule_trigger_file id files = record files {
  triggers = filter (λ trigger. not (has_id id trigger)) files.triggers;
}

unfoldable pub next_schedule_trigger_seq : TriggerFiles → ℕ
next_schedule_trigger_seq files = suc (length files.triggers)

unfoldable pub next_trigger_execution_seq : TriggerFiles → ℕ
next_trigger_execution_seq files = suc (length files.executions)

-- A file for the execution's id, in the directory of its trigger.
abbrev pub put_execution : Execution → List Execution → List Execution
put_execution execution [] = execution ∷ []
put_execution execution (other ∷ rest) =
    let later = put_execution execution rest in
    if other.trigger_id == execution.trigger_id && other.id == execution.id
    then execution ∷ rest
    else other ∷ later

unfoldable pub write_trigger_execution : Execution → TriggerFiles → TriggerFiles
write_trigger_execution execution files = record files {
  executions = put_execution execution files.executions;
}
