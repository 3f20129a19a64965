-- ===== src/Remote/Jobs.antt =====
-- `executeRemoteShardJob` and the three kinds of jobs.
use vibecoding_dofe_ai.Base.{
  ℕ, ◌-◌, String, List, [], ◌∷◌, ◌++◌, map, Option, none, some, find, length, concat, join, decimal,
  if◌then◌else◌, ◌==◌, string_eq, nat_eq,
}
use vibecoding_dofe_ai.Schema.{
  Issue, Shard, Annotation, ImplementationRecord, TestRecord, TestStatus, FailedTest, Detail,
  ReviewShardRequest, in_progress, phase_4_implement, phase_5_review, is_test_pass, test_pass,
  test_missing, test_fail, test_flaky, skipped, mark_pass, mark_fail, unreviewed,
  verdict_needs_work, shard_status_text, verdict_text,
}
use vibecoding_dofe_ai.Store.{
  M, Env, Error, bad_request, not_found, failure, Outcome, done, thrown, return, exec, ◌>>=◌, ◌>>◌,
  now, now_millis, write_shard_progress, write_test_record,
}
use vibecoding_dofe_ai.Engine.{ReviewOutput, set_status}
use vibecoding_dofe_ai.ShardState.{impl_of, test_of}
use vibecoding_dofe_ai.Service.{find_shard, tested_shard}

pub data WorkerKind : Type 0 where
  implement_kind test_kind review_kind : WorkerKind
  other_kind : String → WorkerKind

pub data RuntimeBackend : Type 0 where
  codex_cli claude_code_cli docker : RuntimeBackend

abbrev pub backend_text : RuntimeBackend → String
backend_text codex_cli = "codex-cli"
backend_text claude_code_cli = "claude-code-cli"
backend_text docker = "docker"

-- `LoopsRemoteShardExecutionJob`
pub record RemoteJob : Type 0 where
  pub issue_id : String
  pub shard_id : String
  pub worker_kind : WorkerKind
  pub runtime_backend : RuntimeBackend
  pub artifact_root : String
  pub command : Option String
  pub sandbox_profile : Option String

pub record Artifact : Type 0 where
  pub kind : String
  pub ref : String

pub data JobStatus : Type 0 where
  completed failed : JobStatus

-- `LoopsRemoteShardExecutionResult`
pub record JobResult : Type 0 where
  pub status : JobStatus
  pub artifacts : List Artifact
  pub error : Option String
  pub summary : Option String
  pub duration_ms : ℕ

-- `LoopsRemoteShardRuntimePort`, for the issue of the loop
pub record RuntimePort : Type 0 where
  pub read_detail : M Detail
  pub run_implementation :
      Issue
      → Shard
      → (round : ℕ) → RuntimeBackend
      → (command sandbox_profile : Option String) → M (ImplementationRecord × Option String)
  pub persist_implementation : (shard_id : String) → ImplementationRecord → M (Unit {0})
  pub run_tests :
      (shard_id : String)
      → (round : ℕ) → (cwd : String) → RuntimeBackend
      → (command sandbox_profile : Option String) → M TestRecord
  pub review : Shard → ImplementationRecord → Option TestRecord → M ReviewOutput
  pub apply_review : (shard_id : String) → ReviewShardRequest → M (Unit {0})

-- `writeArtifact`: a file that cannot be written is only logged.
artifact : (artifact_root kind extension : String) → Artifact
artifact root kind extension = record {
  kind = kind;
  ref = concat (root ∷ "/" ∷ kind ∷ extension ∷ []);
}

-- `if (logContent)`
log_artifacts : (artifact_root : String) → Option String → List Artifact
log_artifacts root none = []
log_artifacts root (some content) = if content == "" then [] else artifact root "worker" ".log" ∷ []

-- `Date.now() - start`
abbrev pub since : ℕ → ℕ → ℕ
since start millis = millis - start

unfoldable pub finish_job :
    Env → (start : ℕ) → JobStatus → List Artifact → (error summary : Option String) → M JobResult
unfolding now_millis
finish_job env start status artifacts error summary = do
  millis ← now_millis env
  return (record {
    status = status;
    artifacts = artifacts;
    error = error;
    summary = summary;
    duration_ms = since start millis;
  })

unfoldable pub mark_remote_progress : Env → RemoteJob → Detail → Shard → M (Unit {0})
unfolding now set_status write_shard_progress
mark_remote_progress env job detail shard = do
  updated ← now env
  exec (
      write_shard_progress job.issue_id job.shard_id (shard_status_text shard.status) "IN_PROGRESS"
        (concat ("remote-runner:" ∷ backend_text job.runtime_backend ∷ []))
        (set_status job.shard_id in_progress detail.shards)
        (record (detail.state) {
          phase = phase_4_implement;
          shards_in_progress = 1;
          updated = updated;
        })
        none)

unfoldable pub execute_implementation_job :
    Env → RuntimePort → RemoteJob → (start : ℕ) → Detail → Shard → M JobResult
unfolding artifact log_artifacts
execute_implementation_job env port job start detail shard = do
  mark_remote_progress env job detail shard
  ran ←
      port.run_implementation detail.issue shard detail.state.round job.runtime_backend job.command
        job.sandbox_profile
  port.persist_implementation job.shard_id ran.0
  finish_job env start completed
      (log_artifacts job.artifact_root ran.1 ++ artifact job.artifact_root "handoff" ".json" ∷ [])
      none (some ran.0.summary)

-- The notes name the failed tests.
pub test_notes : List FailedTest → String
test_notes [] = "Tests passed — awaiting review."
test_notes failures =
    concat ("Test failures: " ∷ join ", " (map (λ (f : FailedTest). f.name) failures) ∷ [])

abbrev pub remote_tested_annotation : (shard_id : String) → TestRecord → Annotation → Annotation
remote_tested_annotation shard_id tested annotation =
    if annotation.target == shard_id
    then record annotation {
      test_status = if is_test_pass tested.status then mark_pass else mark_fail;
      verdict = if is_test_pass tested.status then unreviewed else verdict_needs_work;
      notes = test_notes tested.failed_tests;
    }
    else annotation

test_status_text : TestStatus → String
test_status_text test_pass = "TEST-PASS"
test_status_text test_missing = "TEST-MISSING"
test_status_text test_fail = "TEST-FAIL"
test_status_text test_flaky = "TEST-FLAKY"
test_status_text skipped = "SKIPPED"

unfoldable pub write_remote_tests : Env → RemoteJob → Detail → TestRecord → M (Unit {0})
unfolding now write_test_record test_notes
write_remote_tests env job detail test = do
  updated ← now env
  exec (
      write_test_record job.issue_id job.shard_id test
        (map (remote_tested_annotation job.shard_id test) detail.annotations)
        (map (tested_shard job.shard_id test.status) detail.shards)
        (record (detail.state) { phase = phase_5_review; updated = updated }))

unfoldable pub execute_test_job : Env → RuntimePort → RemoteJob → (start : ℕ) → Detail → M JobResult
unfolding artifact test_status_text
execute_test_job env port job start detail = do
  test ←
      port.run_tests job.shard_id detail.state.round detail.issue.target_repo job.runtime_backend
        job.command job.sandbox_profile
  write_remote_tests env job detail test
  finish_job env start completed (artifact job.artifact_root "test-results" ".json" ∷ []) none (
      some (
        concat (
          "Tests "
          ∷ test_status_text test.status
          ∷ ": "
          ∷ decimal (length test.failed_tests)
          ∷ " failures"
          ∷ [])))

abbrev pub remote_review_request : RuntimeBackend → ReviewOutput → ReviewShardRequest
remote_review_request backend review = record {
  reviewer = concat ("remote-runner:" ∷ backend_text backend ∷ []);
  verdict = review.verdict;
  summary = review.summary;
  issues = review.issues;
  fix_instructions = review.fix_instructions;
}

-- The review of an implementation that was looked up.
unfoldable pub review_job_found :
    Env
    → RuntimePort
    → RemoteJob
    → (start : ℕ) → Detail
    → Shard
    → Option ImplementationRecord
    → M JobResult
unfolding artifact
review_job_found env port job start detail shard none =
    finish_job env start failed []
      (some (
        concat (
          "No implementation record found for shard "
          ∷ job.shard_id
          ∷ " at round "
          ∷ decimal detail.state.round
          ∷ [])))
      none
review_job_found env port job start detail shard (some impl) = do
  review ←
      port.review shard impl (find (test_of job.shard_id detail.state.round) detail.test_records)
  port.apply_review job.shard_id (remote_review_request job.runtime_backend review)
  finish_job env start completed (artifact job.artifact_root "review-verdict" ".json" ∷ []) none
      (some (concat ("Review " ∷ verdict_text review.verdict ∷ ": " ∷ review.summary ∷ [])))

unfoldable pub execute_review_job :
    Env → RuntimePort → RemoteJob → (start : ℕ) → Detail → Shard → M JobResult
execute_review_job env port job start detail shard =
    review_job_found env port job start detail shard
      (find (impl_of job.shard_id detail.state.round) detail.implementation_records)

-- The branch of the job's kind, for the shard that was looked up.
unfoldable pub run_job :
    Env → RuntimePort → RemoteJob → (start : ℕ) → Detail → Shard → WorkerKind → M JobResult
run_job env port job start detail shard implement_kind =
    execute_implementation_job env port job start detail shard
run_job env port job start detail shard test_kind = execute_test_job env port job start detail
run_job env port job start detail shard review_kind =
    execute_review_job env port job start detail shard
run_job env port job start detail shard (other_kind kind) =
    finish_job env start failed [] (some (concat ("Unknown workerKind: " ∷ kind ∷ []))) none

unfoldable pub job_on_shard :
    Env → RuntimePort → RemoteJob → (start : ℕ) → Detail → Option Shard → M JobResult
job_on_shard env port job start detail none =
    finish_job env start failed []
      (some (concat ("Shard " ∷ job.shard_id ∷ " not found in issue " ∷ job.issue_id ∷ []))) none
job_on_shard env port job start detail (some shard) =
    run_job env port job start detail shard job.worker_kind

-- `error.message`
abbrev pub error_text : Error → String
error_text (bad_request text) = text
error_text (not_found text) = text
error_text (failure text) = text

-- The `catch`: `cut` is `message.slice(0, 200)`.
unfoldable pub job_failed :
    Env → (cut : ℕ → String → String) → RemoteJob → (start : ℕ) → Error → M JobResult
unfolding artifact now
job_failed env cut job start error = do
  stamp ← now env
  finish_job env start failed (artifact job.artifact_root "worker" ".log" ∷ [])
      (some (error_text error))
      (some (concat ("Execution failed: " ∷ cut 200 (error_text error) ∷ [])))

-- What the `try` block guards is the read of the detail: the jobs are returned as promises that are
-- not awaited in it, so that their exceptions pass the `catch`.
unfoldable pub read_guarded :
    Env
    → (cut : ℕ → String → String) → RemoteJob
    → (start : ℕ) → (next : Detail → M JobResult) → Outcome Detail
    → Outcome JobResult
read_guarded env cut job start next (done detail w) = next detail w
read_guarded env cut job start next (thrown error w) = job_failed env cut job start error w

unfoldable pub execute_remote_shard_job :
    Env → (cut : ℕ → String → String) → RuntimePort → RemoteJob → M JobResult
unfolding now_millis
execute_remote_shard_job env cut port job = do
  start ← now_millis env
  λ w.
      read_guarded env cut job start
        (λ detail. job_on_shard env port job start detail (find_shard job.shard_id detail.shards))
        (port.read_detail w)
