-- ===== src/Service/Shards.antt =====
-- `runShardTests`, `recordShardImplementation`, `intervene`, and the port of the scheduler.
use vibecoding_dofe_ai.Base.{
  ℕ, true, false, String, List, [], ◌∷◌, map, Option, none, some, find, count, concat, decimal,
  if◌then◌else◌, ◌==◌, string_eq, ◌&&◌,
}
use vibecoding_dofe_ai.Schema.{
  Shard, Annotation, ImplementationRecord, TestRecord, Detail, Intervention, InterventionRequest,
  pause, resume, take, RecordImplementationRequest, TestStatus, is_test_pass, is_test_fail, is_done,
  is_in_progress, needs_work_status, in_progress, phase_4_implement, phase_5_review, paused_phase,
  mark_pass, mark_fail, unreviewed, verdict_needs_work, human, impl_in_progress,
}
use vibecoding_dofe_ai.Store.{
  M, Env, return, throw, exec, call, ◌>>=◌, ◌>>◌, now, now_millis, get_detail, not_found,
  bad_request, write_test_record, write_intervention,
}
use vibecoding_dofe_ai.Engine.{ShardRunnerPort, set_status, next_resume_phase}
use vibecoding_dofe_ai.Adapters.{Adapters}
use vibecoding_dofe_ai.ShardState.{persist_implementation, apply_review}

-- `detail.shards.find((item) => item.id === shardId)`
unfoldable pub find_shard : String → List Shard → Option Shard
find_shard shard_id shards = find (λ shard. shard.id == shard_id) shards

shard_not_found : {A : Type 0} → String → M A
shard_not_found shard_id = throw (not_found (concat ("Shard " ∷ shard_id ∷ " not found" ∷ [])))

-- The outcome of a test run on the annotation of its target.
abbrev pub tested_annotation :
    (target : String) → TestStatus → (passed failed : String) → Annotation → Annotation
tested_annotation target status passed failed annotation =
    if annotation.target == target
    then record annotation {
      test_status = if is_test_pass status then mark_pass else mark_fail;
      verdict = if is_test_pass status then unreviewed else verdict_needs_work;
      notes = if is_test_pass status then passed else failed;
    }
    else annotation

-- A failed run sends its shard back.
abbrev pub tested_shard : (shard_id : String) → TestStatus → Shard → Shard
tested_shard shard_id status shard =
    if shard.id == shard_id && is_test_fail status
    then record shard { status = needs_work_status }
    else shard

-- The run of the tests of a shard that was looked up.
unfoldable pub test_found :
    Env
    → Adapters
    → (issue_id shard_id runner : String) → (commands : List String) → Detail
    → Option Shard
    → M TestRecord
unfolding shard_not_found now write_test_record
test_found env adapters issue_id shard_id runner commands detail none = shard_not_found shard_id
test_found env adapters issue_id shard_id runner commands detail (some shard) = do
  test ← call (adapters.run_commands shard_id detail.state.round runner commands)
  updated ← now env
  exec (
      write_test_record issue_id shard_id test
        (map
          (tested_annotation shard_id test.status "Runner 测试命令已通过，等待实现审查。" "Runner 测试命令失败，需修复后重跑。")
          detail.annotations)
        (map (tested_shard shard_id test.status) detail.shards)
        (record (detail.state) { phase = phase_5_review; updated = updated }))
  return test

unfoldable pub run_shard_tests :
    Env → Adapters → (issue_id shard_id runner : String) → (commands : List String) → M TestRecord
run_shard_tests env adapters issue_id shard_id runner commands = do
  detail ← get_detail
  test_found env adapters issue_id shard_id runner commands detail
      (find_shard shard_id detail.shards)

unfoldable pub manual_record :
    (issue_id shard_id : String)
    → Detail
    → RecordImplementationRequest
    → (created : String) → (millis : ℕ) → ImplementationRecord
manual_record issue_id shard_id detail request created millis = record {
  id =
      concat
        ("impl-record-" ∷ shard_id ∷ "-r" ∷ decimal detail.state.round ∷ "-" ∷ decimal millis ∷ []);
  issue_id = issue_id;
  shard_id = shard_id;
  round = detail.state.round;
  implementer = request.implementer;
  summary = request.summary;
  changed_files = request.changed_files;
  notes = request.notes;
  created = created;
  tokens = none;
}

-- The record of an implementation of a shard that was looked up.
unfoldable pub record_found :
    Env
    → (issue_id shard_id : String) → RecordImplementationRequest
    → Detail
    → Option Shard
    → M ImplementationRecord
unfolding shard_not_found now now_millis manual_record
record_found env issue_id shard_id request detail none = shard_not_found shard_id
record_found env issue_id shard_id request detail (some shard) =
    if is_done shard.status
    then throw (bad_request "DONE shard cannot be overwritten by implementation record")
    else do
      created ← now env
      millis ← now_millis env
      let impl = manual_record issue_id shard_id detail request created millis
      persist_implementation env issue_id shard_id impl
      return impl

unfoldable pub record_shard_implementation :
    Env → (issue_id shard_id : String) → RecordImplementationRequest → M ImplementationRecord
record_shard_implementation env issue_id shard_id request = do
  detail ← get_detail
  record_found env issue_id shard_id request detail (find_shard shard_id detail.shards)

abbrev taken_annotation : (shard_id : String) → (notes : String) → Annotation → Annotation
taken_annotation shard_id notes annotation =
    if annotation.target == shard_id
    then record annotation {
      annotator = human;
      impl_status = impl_in_progress;
      verdict = unreviewed;
      notes = notes;
    }
    else annotation

-- `request.notes || 'Human took over this shard.'`
take_notes : Option String → String
take_notes none = "Human took over this shard."
take_notes (some notes) = if notes == "" then "Human took over this shard." else notes

-- A human takes over the shard that was looked up.
unfoldable pub take_found :
    Env → (issue_id shard_id : String) → InterventionRequest → Detail → Option Shard → M Detail
unfolding shard_not_found now set_status take_notes write_intervention
take_found env issue_id shard_id request detail none = shard_not_found shard_id
take_found env issue_id shard_id request detail (some shard) =
    if is_done shard.status then throw (bad_request "DONE shard cannot be taken over") else do
      updated ← now env
      let shards = set_status shard_id in_progress detail.shards
      exec (
          write_intervention issue_id "take" request.actor
            (record (detail.state) {
              phase = phase_4_implement;
              paused = false;
              shards_in_progress = count (λ (s : Shard). is_in_progress s.status) shards;
              updated = updated;
            })
            (some shards)
            (some (map (taken_annotation shard_id (take_notes request.notes)) detail.annotations))
            (some shard_id) request.notes)
      get_detail

unfoldable pub take_shard :
    Env → (issue_id : String) → InterventionRequest → Detail → Option String → M Detail
take_shard env issue_id request detail none =
    throw (bad_request "shardId is required for take intervention")
take_shard env issue_id request detail (some shard_id) =
    take_found env issue_id shard_id request detail (find_shard shard_id detail.shards)

-- The three actions; `now` is read once in each.
unfoldable pub intervene_as :
    Env → (issue_id : String) → InterventionRequest → Detail → Intervention → M Detail
unfolding now write_intervention next_resume_phase
intervene_as env issue_id request detail pause = do
  updated ← now env
  exec (
      write_intervention issue_id "pause" request.actor
        (record (detail.state) { phase = paused_phase; paused = true; updated = updated }) none none
        none request.notes)
  get_detail
intervene_as env issue_id request detail resume = do
  updated ← now env
  exec (
      write_intervention issue_id "resume" request.actor
        (record (detail.state) {
          phase = next_resume_phase detail.state;
          paused = false;
          updated = updated;
        })
        none none none request.notes)
  get_detail
intervene_as env issue_id request detail take =
    take_shard env issue_id request detail request.shard_id

unfoldable pub intervene : Env → (issue_id : String) → InterventionRequest → M Detail
intervene env issue_id request = do
  detail ← get_detail
  intervene_as env issue_id request detail request.action

-- `shardRunnerPort`
unfoldable pub shard_runner_port : Env → Adapters → (issue_id : String) → ShardRunnerPort
shard_runner_port env adapters issue_id = record {
  read_fresh_detail = get_detail;
  run_agent = λ issue shard round. call (adapters.run_agent issue shard round);
  persist_implementation =
      λ shard_id impl. persist_implementation env issue_id shard_id impl >> get_detail;
  run_tests = λ shard_id.
      run_shard_tests env adapters issue_id shard_id "loops-runner" env.config.default_commands;
  review_tests = λ matrix test. call (adapters.agent.review_tests matrix test);
  review = λ shard impl test. call (adapters.agent.review shard impl (some test));
  apply_review =
      λ shard_id request. apply_review env adapters issue_id shard_id request >>= λ _. return tt;
}
