-- ===== src/Samples/Triggers.antt =====
-- Schedule triggers, a reader of cron texts that knows a few, and ports that answer or refuse.
use vibecoding_dofe_ai.Base.{
  ℕ, String, List, [], ◌∷◌, Option, none, some, if◌then◌else◌, ◌==◌, string_eq,
}
use vibecoding_dofe_ai.Store.{answer, refusal, failure}
use vibecoding_dofe_ai.Triggers.{
  CronTools, Trigger, TriggerFiles, active, IssuePort, CreateTriggerRequest,
}

abbrev pub sample_words : String → List String
sample_words cron =
    if cron == "*/5 * * * *"
    then "*/5" ∷ "*" ∷ "*" ∷ "*" ∷ "*" ∷ []
    else if cron == "30 9 * * 1"
    then "30" ∷ "9" ∷ "*" ∷ "*" ∷ "1" ∷ []
    else "30" ∷ "9" ∷ "*" ∷ "*" ∷ "*" ∷ []

abbrev pub sample_parse : String → Option ℕ
sample_parse word =
    if word == "30"
    then some 30
    else if word == "9"
    then some 9
    else if word == "1"
    then some 1
    else none

abbrev pub cron_tools : CronTools
cron_tools = record { words = sample_words; parse_int = sample_parse }

abbrev pub sample_trigger : String → String → Option ℕ → Trigger
sample_trigger id cron next = record {
  id = id;
  name = "nightly";
  cron_expression = cron;
  status = active;
  target_repo = "web";
  template_title = "Check";
  template_body = "Check the build";
  template_priority = "P2";
  template_acceptance_criteria = "the build passes" ∷ [];
  failure_count = 0;
  max_failures = 3;
  last_run_at = none;
  next_run_at = next;
  created_at = 0;
  updated_at = 0;
}

abbrev pub trigger_files : List Trigger → TriggerFiles
trigger_files triggers = record { triggers = triggers; executions = [] }

abbrev pub sample_request : CreateTriggerRequest
sample_request = record {
  name = "nightly";
  cron_expression = "30 9 * * *";
  target_repo = "web";
  template_title = "Check";
  template_body = "Check the build";
  template_priority = none;
  template_acceptance_criteria = "the build passes" ∷ [];
}

abbrev pub refusing_port : IssuePort
refusing_port trigger files = refusal (failure "no workspace")

abbrev pub answering_port : IssuePort
answering_port trigger files = answer "issue-1"
