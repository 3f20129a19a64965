-- ===== src/Service/Rounds.antt =====
-- The whole-loop review: the evidence of the round, the regression run, the next round, and the
-- ports of `reviewGlobal` and `finalize`.
use vibecoding_dofe_ai.Base.{
  ℕ, ◌+◌, Bool, true, false, not, ◌&&◌, String, List, [], ◌∷◌, ◌++◌, map, Option, none, some, find,
  filter, leb, concat, join, is_some, if◌then◌else◌, ◌==◌, nat_eq, string_eq,
}
use vibecoding_dofe_ai.Schema.{
  Shard, Annotation, ImplementationRecord, TestRecord, ReviewRecord, ReviewIssue, Severity, major,
  critical, GlobalReviewRecord, Detail, phase_1_spec, phase_4_implement, phase_7_global_review,
  paused_phase, is_done, is_pass, is_test_pass, verdict_text, severity_text, shard_status_text,
}
use vibecoding_dofe_ai.Store.{
  M, Env, return, throw, exec, call, ◌>>=◌, ◌>>◌, now, get_detail, bad_request, write_test_record,
  write_global_review, write_spec, write_notification, append_log, global_regression, reloop_limit,
  reloop_entry,
}
use vibecoding_dofe_ai.Engine.{
  GlobalReviewPort, FinalizePort, next_spec_version, build_reloop_spec, reloop_state,
}
use vibecoding_dofe_ai.Adapters.{Adapters, CommitResult}
use vibecoding_dofe_ai.Evidence.{
  RequirementStatus, accepted, reviewed, tested, implemented_status, planned, missing, CoverageItem,
  build_requirements_coverage,
}
use vibecoding_dofe_ai.ShardState.{impl_of, test_of, tests_pass}
use vibecoding_dofe_ai.Service.Shards.{tested_annotation}

abbrev pub is_covered : RequirementStatus → Bool
is_covered accepted = true
is_covered reviewed = true
is_covered _ = false

requirement_status_text : RequirementStatus → String
requirement_status_text accepted = "accepted"
requirement_status_text reviewed = "reviewed"
requirement_status_text tested = "tested"
requirement_status_text implemented_status = "implemented"
requirement_status_text planned = "planned"
requirement_status_text missing = "missing"

abbrev requirement_severity : RequirementStatus → Severity
requirement_severity missing = critical
requirement_severity _ = major

requirement_issue : CoverageItem → ReviewIssue
requirement_issue item = record {
  severity = requirement_severity item.status;
  desc = concat (
      "Initial requirement "
      ∷ item.id
      ∷ " is "
      ∷ requirement_status_text item.status
      ∷ ": "
      ∷ item.criterion
      ∷ []);
}

abbrev pub review_of : String → ℕ → ReviewRecord → Bool
review_of shard_id round review = review.shard_id == shard_id && review.round == round

-- `review?.verdict === 'PASS'`
abbrev pub review_passes : Option ReviewRecord → Bool
review_passes none = false
review_passes (some review) = is_pass review.verdict

major_issue : Shard → String → ReviewIssue
major_issue shard text = record { severity = major; desc = concat (shard.id ∷ text ∷ []) }

abbrev pub issue_unless : Bool → ReviewIssue → List ReviewIssue
issue_unless true issue = []
issue_unless false issue = issue ∷ []

-- What one shard lacks of the evidence of the round.
unfoldable pub shard_evidence_issues : Detail → Shard → List ReviewIssue
unfolding major_issue
shard_evidence_issues detail shard =
    let round = detail.state.round in
    issue_unless (is_done shard.status)
      (major_issue shard (concat (" is " ∷ shard_status_text shard.status ∷ ", not DONE." ∷ [])))
    ++ (issue_unless (is_some (find (impl_of shard.id round) detail.implementation_records))
          (major_issue shard " missing current-round implementation record.")
        ++ (issue_unless (tests_pass (find (test_of shard.id round) detail.test_records))
              (major_issue shard " missing current-round TEST-PASS record.")
            ++ issue_unless (review_passes (find (review_of shard.id round) detail.review_records))
                (major_issue shard " missing current-round PASS review record.")))

unfoldable pub all_evidence_issues : Detail → List Shard → List ReviewIssue
all_evidence_issues detail [] = []
all_evidence_issues detail (shard ∷ shards) =
    shard_evidence_issues detail shard ++ all_evidence_issues detail shards

unfoldable pub collect_global_evidence_issues : Adapters → Detail → List ReviewIssue
unfolding all_evidence_issues shard_evidence_issues requirement_issue requirement_status_text
collect_global_evidence_issues adapters detail =
    map requirement_issue (
      filter (λ (item : CoverageItem). not (is_covered item.status))
        (build_requirements_coverage adapters.text_matches detail))
    ++ all_evidence_issues detail detail.shards

abbrev global_shard : String
global_shard = "__global__"

unfoldable pub run_global_regression : Env → Adapters → Detail → M TestRecord
unfolding now write_test_record append_log
run_global_regression env adapters detail = do
  test ← call (
      adapters.run_commands global_shard detail.state.round "loops-regression-runner"
        env.config.regression_commands)
  updated ← now env
  exec (
      write_test_record detail.issue.id global_shard test
        (map
          (tested_annotation detail.issue.id test.status
            "Global regression commands passed before global review."
            "Global regression commands failed; global review is blocked.")
          detail.annotations)
        detail.shards
        (record (detail.state) {
          phase = if is_test_pass test.status then phase_7_global_review else phase_4_implement;
          updated = updated;
        }))
  exec (append_log (global_regression detail.issue.id test.status test.commands))
  return test

reloop_notes : GlobalReviewRecord → String
reloop_notes review = join "\n" (
    concat ("global_verdict: " ∷ verdict_text review.verdict ∷ [])
    ∷ concat ("summary: " ∷ review.summary ∷ [])
    ∷ (map
          (λ (item : ReviewIssue).
            concat ("issue(" ∷ severity_text item.severity ∷ "): " ∷ item.desc ∷ []))
          review.issues
        ++ map (λ item. concat ("fix: " ∷ item ∷ [])) review.fix_instructions))

-- The loop waits for a human once the rounds are used up.
unfoldable pub pause_at_reloop_limit :
    Env
    → (issue_id : String) → Detail
    → GlobalReviewRecord
    → List Annotation
    → (updated : String) → M Detail
unfolding write_global_review append_log write_notification
pause_at_reloop_limit env issue_id detail review annotations updated = do
  exec (
      write_global_review issue_id review annotations (record (detail.state) {
        phase = paused_phase;
        paused = true;
        global_verdict = some review.verdict;
        updated = updated;
      }))
  exec (append_log (reloop_limit issue_id env.config.max_reloop review.verdict))
  exec (write_notification issue_id "RELOOP_LIMIT" review.reviewer)
  get_detail

unfoldable pub start_next_round :
    Env
    → (issue_id : String) → Detail
    → GlobalReviewRecord
    → List Annotation
    → (updated : String) → M Detail
unfolding write_global_review write_spec append_log next_spec_version build_reloop_spec reloop_state
    reloop_notes
start_next_round env issue_id detail review annotations updated = do
  let version = next_spec_version detail.state.spec_version
  let spec = build_reloop_spec detail version updated review.reviewer (reloop_notes review)
  exec (
      write_global_review issue_id review annotations (record (detail.state) {
        phase = phase_1_spec;
        global_verdict = some review.verdict;
        updated = updated;
      }))
  exec (write_spec detail.issue spec (reloop_state detail.state updated))
  exec (
      append_log (
        reloop_entry issue_id review.verdict (detail.state.round + 1)
          (detail.state.reloop_count + 1) env.config.max_reloop))
  get_detail

unfoldable pub auto_reloop_after_global_review :
    Env
    → (issue_id : String) → Detail
    → GlobalReviewRecord
    → List Annotation
    → (updated : String) → M Detail
unfolding pause_at_reloop_limit start_next_round
auto_reloop_after_global_review env issue_id detail review annotations updated =
    if leb env.config.max_reloop detail.state.reloop_count
    then pause_at_reloop_limit env issue_id detail review annotations updated
    else start_next_round env issue_id detail review annotations updated

-- `globalReviewPort`
unfoldable pub global_review_port : Env → Adapters → (issue_id : String) → GlobalReviewPort
global_review_port env adapters issue_id = record {
  get_detail = get_detail;
  collect_evidence_issues = collect_global_evidence_issues adapters;
  run_regression = run_global_regression env adapters;
  run_agent_global_review = λ detail. do
    review_detail ← get_detail
    review ← call (adapters.agent.review_global review_detail)
    return (review, review_detail);
  auto_reloop = auto_reloop_after_global_review env issue_id;
  read_detail = get_detail;
}

unfoldable pub refuse_blocked : (blockers : List String) → M (Unit {0})
refuse_blocked [] = return tt
refuse_blocked blockers = throw (
    bad_request (
      concat (
        "Release gate is not ready:\n"
        ∷ join "\n" (map (λ b. concat ("- " ∷ b ∷ [])) blockers)
        ∷ [])))

-- `enforceReleaseGate`: no blocker may be left.
unfoldable pub enforce_release_gate : Adapters → Detail → M (Unit {0})
enforce_release_gate adapters detail = refuse_blocked (adapters.release_blockers detail)

abbrev pub changed_files : Option ImplementationRecord → Shard → List String
changed_files none shard = shard.files_hint
changed_files (some impl) shard = impl.changed_files

-- The commits of `openConvergencePr`, one for each shard.
unfoldable pub commit_shards : Adapters → Detail → List Shard → M (List CommitResult)
commit_shards adapters detail [] = return []
commit_shards adapters detail (shard ∷ shards) = do
  commit ← call (
      adapters.git.commit_shard detail.issue shard (
        changed_files
          (find (λ (impl : ImplementationRecord). impl.shard_id == shard.id)
            detail.implementation_records)
          shard))
  commits ← commit_shards adapters detail shards
  return (commit ∷ commits)

-- `finalizePort`; the comment on the pull request changes no file of the loop.
unfoldable pub finalize_port : Adapters → FinalizePort
finalize_port adapters = record {
  get_detail = get_detail;
  enforce_release_gate_or_throw = enforce_release_gate adapters;
  open_convergence_pr = λ detail. do
    commits ← commit_shards adapters detail detail.shards
    call (adapters.git.create_convergence_pr detail commits);
  annotate_finalize = λ detail pr. call (adapters.agent.annotate_finalize detail pr);
  build_learnings = adapters.build_learnings;
  publish_pr_comment = λ pr. return tt;
  read_detail = get_detail;
}
