-- ===== src/Triggers/Firing.antt =====
-- Creating, changing and firing a trigger. `now` is the time that a call reads from the clock; the
-- port that creates an issue answers as it likes.
use vibecoding_dofe_ai.Base.{
  ℕ, suc, Bool, true, false, String, List, [], ◌∷◌, Option, none, some, concat, decimal, leb,
  or_else, if◌then◌else◌, ◌==◌, string_eq,
}
use vibecoding_dofe_ai.Store.{not_found, Reply, answer, refusal}
use vibecoding_dofe_ai.Triggers.Cron.{CronTools, compute_next_cron_time}
use vibecoding_dofe_ai.Triggers.Files.{
  TriggerStatus, active, error_status, is_paused, Trigger, TriggerFiles, write_schedule_trigger,
  read_schedule_trigger, delete_schedule_trigger_file, next_schedule_trigger_seq,
  next_trigger_execution_seq, write_trigger_execution,
}

-- `LoopsIssueCreationPort`: the id of the new issue.
abbrev pub IssuePort : Type 0
IssuePort = Trigger → TriggerFiles → Reply String

-- `CreateScheduleTriggerRequestSchema`
pub record CreateTriggerRequest : Type 0 where
  pub name : String
  pub cron_expression : String
  pub target_repo : String
  pub template_title : String
  pub template_body : String
  pub template_priority : Option String
  pub template_acceptance_criteria : List String

-- `UpdateScheduleTriggerRequestSchema`
pub record UpdateTriggerRequest : Type 0 where
  pub name : Option String
  pub cron_expression : Option String
  pub status : Option TriggerStatus
  pub template_title : Option String
  pub template_body : Option String
  pub template_priority : Option String
  pub template_acceptance_criteria : Option (List String)

-- `LoopWebhookTriggerResponse`
pub record FireResponse : Type 0 where
  pub issue_id : String
  pub event : String
  pub created : Bool

unfoldable pub get_schedule_trigger : String → Option Trigger → Reply Trigger
get_schedule_trigger id none =
    refusal (not_found (concat ("Schedule trigger " ∷ id ∷ " not found" ∷ [])))
get_schedule_trigger id (some trigger) = answer trigger

unfoldable pub new_trigger : CronTools → (now : ℕ) → TriggerFiles → CreateTriggerRequest → Trigger
new_trigger tools now files request = record {
  id = concat ("sched-" ∷ decimal (next_schedule_trigger_seq files) ∷ []);
  name = request.name;
  cron_expression = request.cron_expression;
  status = active;
  target_repo = request.target_repo;
  template_title = request.template_title;
  template_body = request.template_body;
  template_priority = or_else request.template_priority "P2";
  template_acceptance_criteria = request.template_acceptance_criteria;
  failure_count = 0;
  max_failures = 3;
  last_run_at = none;
  next_run_at = compute_next_cron_time tools request.cron_expression now;
  created_at = now;
  updated_at = now;
}

unfoldable pub create_schedule_trigger :
    CronTools → (now : ℕ) → CreateTriggerRequest → TriggerFiles → Trigger × TriggerFiles
create_schedule_trigger tools now request files =
    let trigger = new_trigger tools now files request in
    (trigger, write_schedule_trigger trigger files)

-- `input.cronExpression ? ... : existing.nextRunAt`
abbrev pub updated_next : CronTools → (now : ℕ) → Option String → Trigger → Option ℕ
updated_next tools now none existing = existing.next_run_at
updated_next tools now (some cron) existing =
    if cron == "" then existing.next_run_at else compute_next_cron_time tools cron now

unfoldable pub updated_trigger : CronTools → (now : ℕ) → UpdateTriggerRequest → Trigger → Trigger
updated_trigger tools now request existing = record existing {
  name = or_else request.name existing.name;
  cron_expression = or_else request.cron_expression existing.cron_expression;
  status = or_else request.status existing.status;
  template_title = or_else request.template_title existing.template_title;
  template_body = or_else request.template_body existing.template_body;
  template_priority = or_else request.template_priority existing.template_priority;
  template_acceptance_criteria =
      or_else request.template_acceptance_criteria existing.template_acceptance_criteria;
  next_run_at = updated_next tools now request.cron_expression existing;
  updated_at = now;
}

-- The rest of a call behind `getScheduleTrigger`.
abbrev pub on_trigger : {A : Type 0} → Reply Trigger → (Trigger → A) → Reply A
on_trigger (answer trigger) k = answer (k trigger)
on_trigger (refusal e) k = refusal e

unfoldable pub update_schedule_trigger :
    CronTools
    → (now : ℕ) → (id : String) → UpdateTriggerRequest
    → TriggerFiles
    → Reply (Trigger × TriggerFiles)
update_schedule_trigger tools now id request files =
    on_trigger (get_schedule_trigger id (read_schedule_trigger id files)) (λ existing.
      let updated = updated_trigger tools now request existing in
      (updated, write_schedule_trigger updated files))

unfoldable pub delete_schedule_trigger : (id : String) → TriggerFiles → Reply TriggerFiles
delete_schedule_trigger id files =
    on_trigger (get_schedule_trigger id (read_schedule_trigger id files))
      (λ existing. delete_schedule_trigger_file id files)

-- The trigger after an issue was created.
unfoldable pub fired_trigger : CronTools → (now : ℕ) → Trigger → Trigger
fired_trigger tools now trigger = record trigger {
  last_run_at = some now;
  next_run_at = compute_next_cron_time tools trigger.cron_expression now;
  failure_count = 0;
  updated_at = now;
}

-- The trigger after its issue could not be created: its next run stays where it was.
unfoldable pub failed_trigger : (now : ℕ) → Trigger → Trigger
failed_trigger now trigger = record trigger {
  failure_count = suc trigger.failure_count;
  status =
      if leb trigger.max_failures (suc trigger.failure_count) then error_status else trigger.status;
  last_run_at = some now;
  updated_at = now;
}

-- The `try` and its `catch`.
unfoldable pub fire_with :
    CronTools
    → (now : ℕ) → (reason : Option String) → TriggerFiles
    → Trigger
    → Reply String
    → FireResponse × TriggerFiles
unfolding fired_trigger failed_trigger
fire_with tools now reason files trigger (answer issue_id) =
    let written = write_schedule_trigger (fired_trigger tools now trigger) files in
    (
      record { issue_id = issue_id; event = trigger.name; created = true },
      write_trigger_execution
          (record {
            id = concat ("exec-" ∷ decimal (next_trigger_execution_seq written) ∷ []);
            trigger_id = trigger.id;
            output_issue_id = issue_id;
            reason = reason;
            created_at = now;
          })
          written,
    )
fire_with tools now reason files trigger (refusal e) = (
  record { issue_id = ""; event = trigger.name; created = false },
  write_schedule_trigger (failed_trigger now trigger) files,
)

unfoldable pub fire_trigger :
    CronTools
    → IssuePort
    → (now : ℕ) → (reason : Option String) → TriggerFiles
    → Trigger
    → FireResponse × TriggerFiles
fire_trigger tools port now reason files trigger =
    if is_paused trigger.status
    then (record { issue_id = ""; event = trigger.name; created = false }, files)
    else fire_with tools now reason files trigger (port trigger files)

unfoldable pub fire_schedule_trigger :
    CronTools
    → IssuePort
    → (now : ℕ) → (id : String) → (reason : Option String) → TriggerFiles
    → Reply (FireResponse × TriggerFiles)
fire_schedule_trigger tools port now id reason files =
    on_trigger (get_schedule_trigger id (read_schedule_trigger id files))
      (fire_trigger tools port now reason files)
