-- ===== src/Store/Writes.antt =====
-- The writing methods of the store. Every method ends in `upsertState` and a line of the log.
use vibecoding_dofe_ai.Base.{
  ℕ, Bool, not, ◌&&◌, String, List, [], ◌∷◌, ◌++◌, Option, none, some, length, filter,
  if◌then◌else◌, ◌==◌, nat_eq, string_eq,
}
use vibecoding_dofe_ai.Schema.{
  Issue, Spec, Shard, Annotation, TestMatrix, ImplementationRecord, TestRecord, ReviewRecord,
  GlobalReviewRecord, ConvergencePr, Learning, StateItem, IssueStatus, in_loop, closed_status,
  rejected_status, is_closed, is_rejected, is_draft, is_converge,
}
use vibecoding_dofe_ai.Store.Files.{
  LogEntry, spec_state, test_matrix_entry, annotate, test_run, implementation_record, review_record,
  shard_state, global_review_entry, final_annotate, human_intervene, notification_recorded, World,
}

unfoldable pub append_log : LogEntry → World → World
append_log entry w = record w { log = w.log ++ entry ∷ [] }

unfoldable pub upsert_state : StateItem → World → World
upsert_state next w = record w { state = next }

unfoldable pub write_notification : (issue_id kind recipient : String) → World → World
unfolding append_log
write_notification issue_id kind recipient w =
    append_log (notification_recorded issue_id kind recipient) (record w {
      notifications =
          w.notifications
          ++ record { issue_id = issue_id; kind = kind; recipient = recipient } ∷ [];
    })

unfoldable pub issue_status_for_spec : Spec → StateItem → IssueStatus
issue_status_for_spec spec state =
    if is_closed state.phase
    then if is_rejected spec.status then rejected_status else closed_status
    else in_loop

unfoldable pub write_spec : Issue → Spec → StateItem → World → World
unfolding issue_status_for_spec upsert_state append_log write_notification
write_spec issue spec state w =
    let written = record w {
      specs = spec ∷ w.specs;
      issue = record issue { status = issue_status_for_spec spec state; updated = state.updated };
    } in
    let logged =
      append_log (spec_state issue.id spec.id spec.status none) (upsert_state state written) in
    if is_draft spec.status
    then write_notification issue.id "SPEC_REVIEW_REQUESTED" issue.submitter_id logged
    else logged

unfoldable pub write_shards :
    Issue → Spec → List Shard → TestMatrix → List Annotation → StateItem → World → World
unfolding upsert_state append_log write_notification
write_shards issue spec shards test_matrix annotations state w =
    let written = record w {
      shards = shards;
      test_matrix = some test_matrix;
      annotations = annotations;
    } in
    let logged = append_log (annotate issue.id (length annotations)) (
      append_log (test_matrix_entry issue.id spec.id (length test_matrix.required_tests))
        (upsert_state state written)) in
    write_notification issue.id "LOOP_STARTED" issue.submitter_id logged

unfoldable pub write_test_record :
    (issue_id shard_id : String)
    → TestRecord
    → List Annotation
    → List Shard
    → StateItem
    → World
    → World
unfolding upsert_state append_log
write_test_record issue_id shard_id test annotations shards state w =
    append_log (test_run issue_id shard_id test.status test.commands) (
      upsert_state state (record w {
        test_records = test ∷ w.test_records;
        annotations = annotations;
        shards = shards;
      }))

-- The file of the shard and round is written anew.
abbrev pub other_file : String → ℕ → String × ImplementationRecord → Bool
other_file shard_id round entry = not (entry.0 == shard_id && entry.1.round == round)

unfoldable pub write_implementation_record :
    (issue_id shard_id : String)
    → ImplementationRecord
    → List Annotation
    → List Shard
    → StateItem
    → World
    → World
unfolding upsert_state append_log
write_implementation_record issue_id shard_id impl annotations shards state w =
    append_log (implementation_record issue_id shard_id impl.implementer impl.changed_files) (
      upsert_state state (record w {
        implementations =
            (shard_id, impl) ∷ filter (other_file shard_id impl.round) w.implementations;
        annotations = annotations;
        shards = shards;
      }))

unfoldable pub write_review_record :
    (issue_id shard_id : String)
    → ReviewRecord
    → List Annotation
    → List Shard
    → StateItem
    → World
    → World
unfolding upsert_state append_log write_notification
write_review_record issue_id shard_id review annotations shards state w =
    let logged = append_log (review_record issue_id shard_id review.verdict review.reviewer) (
      upsert_state state (record w {
        review_records = review ∷ w.review_records;
        annotations = annotations;
        shards = shards;
      })) in
    if is_converge state.phase
    then write_notification issue_id "CONVERGENCE_READY" review.reviewer logged
    else logged

abbrev pub given {ℓ} : {A : Type ℓ} → Option A → A → A
given none old = old
given (some new) old = new

unfoldable pub write_shard_progress :
    (issue_id shard_id from to actor : String)
    → List Shard
    → StateItem
    → Option (List Annotation)
    → World
    → World
unfolding upsert_state append_log
write_shard_progress issue_id shard_id from to actor shards state annotations w =
    append_log (shard_state issue_id shard_id from to actor) (
      upsert_state state
        (record w { shards = shards; annotations = given annotations w.annotations }))

unfoldable pub write_global_review :
    (issue_id : String) → GlobalReviewRecord → List Annotation → StateItem → World → World
unfolding upsert_state append_log
write_global_review issue_id review annotations state w =
    append_log (global_review_entry issue_id review.verdict review.reviewer)
      (upsert_state state (record w { global_review = some review; annotations = annotations }))

abbrev pub kept_learnings : List Learning → List Learning → List Learning
kept_learnings [] old = old
kept_learnings new old = new

unfoldable pub write_finalize :
    Issue → List Annotation → StateItem → ConvergencePr → List Learning → World → World
unfolding upsert_state append_log
write_finalize issue annotations state pr learnings w = append_log (final_annotate issue.id pr.id) (
    upsert_state state (record w {
      annotations = annotations;
      convergence_pr = some pr;
      learnings = kept_learnings learnings w.learnings;
      issue = record issue { status = closed_status; updated = state.updated };
    }))

unfoldable pub write_intervention :
    (issue_id action actor : String)
    → StateItem
    → Option (List Shard)
    → Option (List Annotation)
    → (shard_id notes : Option String) → World
    → World
unfolding upsert_state append_log write_notification
write_intervention issue_id action actor state shards annotations shard_id notes w =
    write_notification issue_id "HUMAN_INTERVENTION" actor (
      append_log (human_intervene issue_id action actor shard_id notes) (
        upsert_state state (record w {
          shards = given shards w.shards;
          annotations = given annotations w.annotations;
        })))
