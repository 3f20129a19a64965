-- ===== src/ShardState.antt =====
-- apps/api/src/modules/loops/loops-remote-shard-state.adapter.ts: the record of an implementation
-- and the verdict of a review are applied to the shards, the annotations and the state.
use vibecoding_dofe_ai.Base.{
  includes, ℕ, ◌+◌, Bool, true, false, not, ◌&&◌, String, List, [], ◌∷◌, ◌++◌, map, Option, none,
  some, length, find, count, leb, or_else, concat, join, decimal, if◌then◌else◌, ◌==◌, nat_eq,
  string_eq,
}
use vibecoding_dofe_ai.Schema.{
  Shard, ShardStatus, Annotation, ImplementationRecord, TestRecord, ReviewRecord, StateItem, Detail,
  ReviewShardRequest, Verdict, pass, needs_work, fail, done_status, failed_status,
  needs_work_status, implemented, phase_4_implement, phase_5_review, phase_6_converge, impl_done,
  impl_failed, mark_pass, unreviewed, partial, full, is_done, is_pass, is_needs_work, is_test_pass,
  verdict_text,
}
use vibecoding_dofe_ai.Store.{
  M, Env, return, throw, exec, call, ◌>>=◌, ◌>>◌, now, now_millis, get_detail, not_found,
  bad_request, write_implementation_record, write_review_record, write_notification, append_log,
  shard_redo_limit, shard_commit,
}
use vibecoding_dofe_ai.Engine.{apply_cost_guard, set_status, verdict_mark}
use vibecoding_dofe_ai.Adapters.{Adapters}

-- `Array.from(new Set(texts))`
unfoldable pub unique : List String → List String → List String
unique seen [] = []
unique seen (s ∷ ss) =
    let later = unique (s ∷ seen) ss in if includes seen s then unique seen ss else s ∷ later

has_files : List String → Bool
has_files [] = false
has_files _ = true

implemented_annotation : (shard_id : String) → ImplementationRecord → Annotation → Annotation
unfolding has_files unique
implemented_annotation shard_id impl annotation =
    if annotation.target == shard_id
    then record annotation {
      impl_status = impl_done;
      verdict = unreviewed;
      coverage = if has_files impl.changed_files then partial else annotation.coverage;
      location = unique [] (annotation.location ++ impl.changed_files);
      notes = concat ("Implementation Record 已登记：" ∷ impl.summary ∷ []);
    }
    else annotation

unfoldable pub persist_implementation :
    Env → (issue_id shard_id : String) → ImplementationRecord → M (Unit {0})
unfolding implemented_annotation set_status write_implementation_record
persist_implementation env issue_id shard_id impl = do
  detail ← get_detail
  updated ← now env
  state ←
      apply_cost_guard env
        (record (detail.state) {
          phase = phase_5_review;
          shards_in_progress = 0;
          updated = updated;
        })
        1 (or_else impl.tokens 0)
  exec (
      write_implementation_record issue_id shard_id impl
        (map (implemented_annotation shard_id impl) detail.annotations)
        (set_status shard_id implemented detail.shards) state)

-- `record.shardId === shardId && record.round === detail.state.round`
abbrev pub impl_of : String → ℕ → ImplementationRecord → Bool
impl_of shard_id round impl = impl.shard_id == shard_id && impl.round == round

abbrev pub test_of : String → ℕ → TestRecord → Bool
test_of shard_id round test = test.shard_id == shard_id && test.round == round

-- `testRecord?.status === 'TEST-PASS'`
abbrev pub tests_pass : Option TestRecord → Bool
tests_pass none = false
tests_pass (some test) = is_test_pass test.status

-- How often the shard was sent back.
unfoldable pub needs_work_count : (shard_id : String) → List ReviewRecord → ℕ
needs_work_count shard_id reviews =
    count (λ review. review.shard_id == shard_id && is_needs_work review.verdict) reviews

unfoldable pub redo_limit_exceeded : Env → (shard_id : String) → Detail → Verdict → Bool
unfolding needs_work_count
redo_limit_exceeded env shard_id detail verdict =
    is_needs_work verdict
    && leb env.config.max_shard_redo (needs_work_count shard_id detail.review_records)

unfoldable pub effective_verdict : Bool → Verdict → Verdict
effective_verdict exceeded verdict = if exceeded then fail else verdict

abbrev pub verdict_status : Verdict → ShardStatus
verdict_status pass = done_status
verdict_status fail = failed_status
verdict_status needs_work = needs_work_status

unfoldable pub apply_shard_review_status : List Shard → (shard_id : String) → Verdict → List Shard
unfolding set_status
apply_shard_review_status shards shard_id verdict =
    set_status shard_id (verdict_status verdict) shards

review_notes : Verdict → ReviewRecord → String
review_notes pass review = concat ("Review Record PASS：" ∷ review.summary ∷ [])
review_notes verdict review =
    let fixes = join "；" review.fix_instructions in
    concat (
      "Review Record "
      ∷ verdict_text verdict
      ∷ "："
      ∷ (if fixes == "" then review.summary else fixes)
      ∷ [])

reviewed_annotation :
    (shard_id : String) → Verdict → ReviewRecord → (tests_passed : Bool) → Annotation → Annotation
unfolding review_notes
reviewed_annotation shard_id verdict review tests_passed annotation =
    if annotation.target == shard_id
    then record annotation {
      impl_status = elim verdict [
        | pass ↦ impl_done
        | fail ↦ impl_failed
        | needs_work ↦ annotation.impl_status
      ];
      test_status = if tests_passed then mark_pass else annotation.test_status;
      verdict = verdict_mark verdict;
      coverage = if is_pass verdict then full else annotation.coverage;
      notes = review_notes verdict review;
    }
    else annotation

unfoldable pub apply_shard_review_annotations :
    List Annotation
    → (shard_id : String) → Verdict
    → ReviewRecord
    → (tests_passed : Bool) → List Annotation
unfolding reviewed_annotation
apply_shard_review_annotations annotations shard_id verdict review tests_passed =
    map (reviewed_annotation shard_id verdict review tests_passed) annotations

unfoldable pub review_record_of :
    Env
    → (issue_id shard_id : String) → Detail
    → ReviewShardRequest
    → (exceeded : Bool) → (created : String) → (millis : ℕ) → ReviewRecord
unfolding effective_verdict
review_record_of env issue_id shard_id detail request exceeded created millis =
    let limit = decimal env.config.max_shard_redo in
    record {
      id = concat (
          "review-record-"
          ∷ shard_id
          ∷ "-r"
          ∷ decimal detail.state.round
          ∷ "-"
          ∷ decimal millis
          ∷ []);
      issue_id = issue_id;
      shard_id = shard_id;
      round = detail.state.round;
      reviewer = request.reviewer;
      verdict = effective_verdict exceeded request.verdict;
      issues = request.issues;
      fix_instructions =
          if exceeded
          then request.fix_instructions
            ++ concat (
                "Shard exceeded max_shard_redo=" ∷ limit
                ∷ "; escalate to FAILED and require convergence/reloop decision." ∷ [])
              ∷ []
          else request.fix_instructions;
      summary =
          if exceeded
          then concat (
              request.summary ∷ " Shard exceeded max_shard_redo=" ∷ limit ∷ "; escalated to FAILED."
              ∷ [])
          else request.summary;
      created = created;
    }

-- The state after a review: the loop converges when every shard is DONE.
unfoldable pub reviewed_state : StateItem → List Shard → (updated : String) → StateItem
reviewed_state state shards updated =
    let shards_done = count (λ (s : Shard). is_done s.status) shards in
    record state {
      phase = if shards_done == length shards then phase_6_converge else phase_4_implement;
      shards_done = shards_done;
      shards_in_progress = 0;
      updated = updated;
    }

-- `if (redoLimitExceeded)`: the log and the notification.
unfoldable pub write_redo_limit_side_effects :
    Env → (issue_id shard_id : String) → ReviewShardRequest → ℕ → (exceeded : Bool) → M (Unit {0})
unfolding append_log write_notification
write_redo_limit_side_effects env issue_id shard_id request number false = return tt
write_redo_limit_side_effects env issue_id shard_id request number true = do
  exec (append_log (shard_redo_limit issue_id shard_id env.config.max_shard_redo (number + 1)))
  exec (write_notification issue_id "SHARD_REDO_LIMIT" request.reviewer)

-- `if (effectiveVerdict === 'PASS')`: the commit of the shard.
unfoldable pub commit_if_passed :
    Adapters → (issue_id : String) → Detail → Shard → ImplementationRecord → Verdict → M (Unit {0})
unfolding append_log
commit_if_passed adapters issue_id detail shard impl pass = do
  commit ← call (adapters.git.commit_shard detail.issue shard impl.changed_files)
  exec (append_log (shard_commit issue_id shard.id commit.committed))
commit_if_passed adapters issue_id detail shard impl _ = return tt

-- The part of `applyReview` behind its checks.
unfoldable pub record_review :
    Env
    → Adapters
    → (issue_id : String) → Detail
    → Shard
    → ImplementationRecord
    → (tests_passed : Bool) → ReviewShardRequest
    → M ReviewRecord
unfolding apply_shard_review_status apply_shard_review_annotations review_record_of
    effective_verdict reviewed_state now now_millis write_review_record redo_limit_exceeded
record_review env adapters issue_id detail shard impl tests_passed request = do
  let exceeded = redo_limit_exceeded env shard.id detail request.verdict
  let verdict = effective_verdict exceeded request.verdict
  created ← now env
  millis ← now_millis env
  let review = review_record_of env issue_id shard.id detail request exceeded created millis
  let shards = apply_shard_review_status detail.shards shard.id verdict
  let annotations =
      apply_shard_review_annotations detail.annotations shard.id verdict review tests_passed
  state ← apply_cost_guard env (reviewed_state detail.state shards created) 1 0
  exec (write_review_record issue_id shard.id review annotations shards state)
  write_redo_limit_side_effects env issue_id shard.id request
      (needs_work_count shard.id detail.review_records) exceeded
  commit_if_passed adapters issue_id detail shard impl verdict
  return review

-- The checks of the test record and the implementation of a shard that was looked up.
unfoldable pub review_implemented :
    Env
    → Adapters
    → (issue_id : String) → ReviewShardRequest
    → Detail
    → Shard
    → Option ImplementationRecord
    → M ReviewRecord
review_implemented env adapters issue_id request detail shard none =
    throw (bad_request "Implementation Record is required before shard review")
review_implemented env adapters issue_id request detail shard (some impl) =
    let passed = tests_pass (find (test_of shard.id detail.state.round) detail.test_records) in
    if is_pass request.verdict && not passed
    then throw (bad_request "Shard cannot be DONE until latest round tests pass")
    else record_review env adapters issue_id detail shard impl passed request

unfoldable pub review_found :
    Env
    → Adapters
    → (issue_id shard_id : String) → ReviewShardRequest
    → Detail
    → Option Shard
    → M ReviewRecord
review_found env adapters issue_id shard_id request detail none =
    throw (not_found (concat ("Shard " ∷ shard_id ∷ " not found" ∷ [])))
review_found env adapters issue_id shard_id request detail (some shard) =
    review_implemented env adapters issue_id request detail shard
      (find (impl_of shard.id detail.state.round) detail.implementation_records)

unfoldable pub apply_review :
    Env → Adapters → (issue_id shard_id : String) → ReviewShardRequest → M ReviewRecord
apply_review env adapters issue_id shard_id request = do
  detail ← get_detail
  review_found env adapters issue_id shard_id request detail
      (find (λ (shard : Shard). shard.id == shard_id) detail.shards)
