-- ===== src/Engine/Closing.antt =====
-- `finalize` and `reviewGlobal`.
use vibecoding_dofe_ai.Base.{
  ℕ, Bool, true, false, String, List, [], ◌∷◌, map, Option, none, some, length, ltb, concat,
  decimal, if◌then◌else◌, ◌==◌, string_eq,
}
use vibecoding_dofe_ai.Schema.{
  Annotation, FailedTest, ReviewIssue, GlobalReviewRecord, TestRecord, StateItem, Detail, Verdict,
  VerdictMark, pass, needs_work, fail, major, codex, closed, phase_4_implement, phase_8_annotate,
  verdict_pass, verdict_needs_work, verdict_fail, is_pass, is_test_pass, verdict_text,
}
use vibecoding_dofe_ai.Store.{
  M, Env, return, throw, exec, ◌>>=◌, ◌>>◌, now, now_millis, bad_request, write_finalize,
  write_global_review,
}
use vibecoding_dofe_ai.Engine.Ports.{FinalizePort, GlobalReviewPort, ReviewOutput}
use vibecoding_dofe_ai.Engine.Phases.{is_terminal}

abbrev pub verdict_passed : Option Verdict → Bool
verdict_passed none = false
verdict_passed (some verdict) = is_pass verdict

unfoldable pub closed_state : StateItem → (updated : String) → StateItem
closed_state state updated = record state { phase = closed; finalized = true; updated = updated }

unfoldable pub finalize : Env → FinalizePort → M Detail
unfolding is_terminal now closed_state write_finalize
finalize env port = do
  detail ← port.get_detail
  if is_terminal detail
      then return detail
      else if verdict_passed detail.state.global_verdict
      then (do
        port.enforce_release_gate_or_throw detail
        created ← now env
        pr ← port.open_convergence_pr detail
        annotations ← port.annotate_finalize detail pr
        let learnings = port.build_learnings detail pr created
        exec (
            write_finalize detail.issue annotations (closed_state detail.state created) pr
              learnings)
        port.publish_pr_comment pr
        port.read_detail)
      else throw (bad_request "Global review PASS is required before finalize")

-- `global-review-${issueId}-r${round}-${Date.now()}`
global_review_id : (issue_id : String) → (round millis : ℕ) → String
unfolding decimal
global_review_id issue_id round millis =
    concat ("global-review-" ∷ issue_id ∷ "-r" ∷ decimal round ∷ "-" ∷ decimal millis ∷ [])

-- A review that blocks the loop: the record, and the state back in implementation.
unfoldable pub write_blocking_review :
    Env
    → (issue_id : String) → Detail
    → List ReviewIssue
    → (fix_instructions : List String) → (summary : String) → M (Unit {0})
unfolding now now_millis global_review_id write_global_review
write_blocking_review env issue_id detail issues fix_instructions summary = do
  created ← now env
  millis ← now_millis env
  exec (
      write_global_review issue_id
        (record {
          id = global_review_id issue_id detail.state.round millis;
          issue_id = issue_id;
          reviewer = "system";
          round = detail.state.round;
          verdict = needs_work;
          issues = issues;
          fix_instructions = fix_instructions;
          summary = summary;
          created = created;
        })
        detail.annotations
        (record (detail.state) {
          phase = phase_4_implement;
          global_verdict = some needs_work;
          updated = created;
        }))

abbrev regression_issue : FailedTest → ReviewIssue
regression_issue item = record {
  severity = major;
  desc = concat ("Global regression failed: " ∷ item.name ∷ ": " ∷ item.reason ∷ []);
}

abbrev regression_fixes : List String → List String
regression_fixes [] = "修复全局回归失败后重新执行整体复查。" ∷ []
regression_fixes given = given

abbrev pub verdict_mark : Verdict → VerdictMark
verdict_mark pass = verdict_pass
verdict_mark fail = verdict_fail
verdict_mark needs_work = verdict_needs_work

abbrev global_annotation : (issue_id : String) → ReviewOutput → Annotation → Annotation
global_annotation issue_id review annotation =
    if annotation.target == issue_id
    then record annotation {
      annotator = codex;
      verdict = verdict_mark review.verdict;
      notes = concat ("整体复查 " ∷ verdict_text review.verdict ∷ "：" ∷ review.summary ∷ []);
    }
    else annotation

-- The third branch: the verdict of the agent.
unfoldable pub conclude_review :
    Env → (issue_id : String) → GlobalReviewPort → Detail → Detail → ReviewOutput → M Detail
unfolding now now_millis global_review_id write_global_review
conclude_review env issue_id port detail review_detail review = do
  created ← now env
  millis ← now_millis env
  let written : GlobalReviewRecord = record {
    id = global_review_id issue_id detail.state.round millis;
    issue_id = issue_id;
    reviewer = "codex";
    round = detail.state.round;
    verdict = review.verdict;
    issues = review.issues;
    fix_instructions = review.fix_instructions;
    summary = review.summary;
    created = created;
  }
  let annotations = map (global_annotation issue_id review) review_detail.annotations
  if is_pass review.verdict
      then (do
        exec (
            write_global_review issue_id written annotations (record (review_detail.state) {
              phase = phase_8_annotate;
              global_verdict = some review.verdict;
              updated = created;
            }))
        port.read_detail)
      else port.auto_reloop review_detail written annotations created

-- What follows the regression run.
unfoldable pub conclude_regression :
    Env → (issue_id : String) → GlobalReviewPort → Detail → TestRecord → M Detail
conclude_regression env issue_id port detail regression =
    if is_test_pass regression.status
    then (do
      answered ← port.run_agent_global_review detail
      conclude_review env issue_id port detail answered.1 answered.0)
    else do
      write_blocking_review env issue_id detail (map regression_issue regression.failed_tests)
          (regression_fixes regression.fix_instructions)
          "Global review blocked: regression tests failed."
      port.read_detail

unfoldable pub review_global : Env → (issue_id : String) → GlobalReviewPort → M Detail
unfolding is_terminal
review_global env issue_id port = do
  detail ← port.get_detail
  if is_terminal detail
      then return detail
      else if ltb 0 (length (port.collect_evidence_issues detail))
      then (do
        write_blocking_review env issue_id detail (port.collect_evidence_issues detail)
            ("补齐当前 round 的 implementation/test/review 证据后重新整体复查。" ∷ [])
            "Global review blocked: current-round evidence is incomplete."
        port.read_detail)
      else do
        regression ← port.run_regression detail
        conclude_regression env issue_id port detail regression
