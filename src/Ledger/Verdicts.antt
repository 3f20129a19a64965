-- ===== src/Ledger/Verdicts.antt =====
-- The agreement of the files across a test run and a shard review: `runShardTests` and
-- `applyReview`.
use vibecoding_dofe_ai.Base.{
  ℕ, ◌∙◌, ◌≡◌, refl, Bool, true, false, not, ◌&&◌, String, List, ◌∷◌, map, Option, none, some, find,
  any, Bool-cases, inl, inr, arith, nat_eq, string_eq, str_eq_iff,
}
use vibecoding_dofe_ai.Schema.{
  Shard, Annotation, StateItem, is_converge, ReviewRecord, ImplementationRecord, TestStatus, Detail,
  Verdict, ReviewShardRequest, pass, needs_work, fail, is_done, is_pass,
}
use vibecoding_dofe_ai.Store.{
  World, Env, ◌>>◌, return, now, now_millis, tick, write_review_record, final, read_detail,
}
use vibecoding_dofe_ai.Engine.{set_status, with_status}
use vibecoding_dofe_ai.Adapters.{Adapters}
use vibecoding_dofe_ai.ShardState.{
  test_of, tests_pass, effective_verdict, verdict_status, write_redo_limit_side_effects,
  apply_shard_review_status, reviewed_state, review_record_of, redo_limit_exceeded,
  needs_work_count, apply_shard_review_annotations, commit_if_passed, record_review, review_found,
  review_implemented, apply_review,
}
use vibecoding_dofe_ai.Service.{run_shard_tests, test_found, tested_shard}
use vibecoding_dofe_ai.Ledger.Sound.{
  ledger, current, IsConsistent, passing_test, relabel-IsSound, add_test-IsSound,
}
use vibecoding_dofe_ai.Ledger.Accepting.{
  tests_pass-any, effective_verdict-pass, reviewed_ledger, reviewed_ledger-IsSound,
}
use vibecoding_dofe_ai.Ledger.Keeps.{
  Keeps, IsSameCount, return-Keeps, reply-IsConsistent, guard-IsConsistent, then-Keeps,
  same-IsConsistent,
}

pub tested_shard-keeps :
    (id : String) (status : TestStatus) (s : Shard)
    → ((tested_shard id status s).id ≡ s.id)
      × (is_done (tested_shard id status s).status ≡ true → is_done s.status ≡ true)
tested_shard-keeps id status s = (ground arith, ground arith)

test_found-Keeps :
    (env : Env) (adapters : Adapters) (issue_id shard_id runner : String) (commands : List String)
    (o : Option Shard) (w : World)
    → IsConsistent env w
    → IsConsistent env
        (final (test_found env adapters issue_id shard_id runner commands (read_detail w) o w))
unfolding test_found read_detail
test_found-Keeps env adapters issue_id shard_id runner commands none w h = h
test_found-Keeps env adapters issue_id shard_id runner commands (some shard) w h =
    reply-IsConsistent env (adapters.run_commands shard_id w.state.round runner commands w) _ w h
      (λ test. record {
        sound = add_test-IsSound test (
            relabel-IsSound (tested_shard shard_id test.status)
              (tested_shard-keeps shard_id test.status) h.sound);
      })

pub run_shard_tests-Keeps :
    (env : Env) (adapters : Adapters) (issue_id shard_id runner : String) (commands : List String)
    → Keeps env (run_shard_tests env adapters issue_id shard_id runner commands)
unfolding run_shard_tests
run_shard_tests-Keeps env adapters issue_id shard_id runner commands w h =
    test_found-Keeps env adapters issue_id shard_id runner commands _ w h

redo_limit-Keeps :
    (env : Env) (issue_id shard_id : String) (request : ReviewShardRequest) (number : ℕ)
    (exceeded : Bool)
    → Keeps env (write_redo_limit_side_effects env issue_id shard_id request number exceeded)
unfolding write_redo_limit_side_effects
redo_limit-Keeps env issue_id shard_id request number false w h = h
redo_limit-Keeps env issue_id shard_id request number true w h = same-IsConsistent env w _ refl h

commit-Keeps :
    (env : Env) (adapters : Adapters) (issue_id : String) (d : Detail) (shard : Shard)
    (impl : ImplementationRecord) (verdict : Verdict)
    → Keeps env (commit_if_passed adapters issue_id d shard impl verdict)
unfolding commit_if_passed
commit-Keeps env adapters issue_id d shard impl pass w h =
    reply-IsConsistent env (adapters.git.commit_shard d.issue shard impl.changed_files w) _ w h
      (λ commit. same-IsConsistent env w _ refl h)
commit-Keeps env adapters issue_id d shard impl needs_work w h = h
commit-Keeps env adapters issue_id d shard impl fail w h = h

-- The ledger behind the write of a review.
review_written :
    (issue_id id : String) (r : ReviewRecord) (annotations : List Annotation) (shards : List Shard)
    (t : StateItem) (v : World)
    → ledger (write_review_record issue_id id r annotations shards t v) ≡ record (ledger v) {
      total = t.shards_total;
      round = t.round;
      reloops = t.reloop_count;
      shards = shards;
      reviews = r ∷ v.review_records;
    }
unfolding write_review_record
review_written issue_id id r annotations shards t v = elim (Bool-cases (is_converge t.phase)) [
  | inl e ↦ rw e refl
  | inr e ↦ rw e refl
]

-- The cost guard stands between the state that was read and the write.
guarded :
    (r : ReviewRecord) (shards : List Shard) (s t : StateItem) (v w : World)
    → IsSameCount s t
    → ledger v ≡ ledger w
    → record (ledger v) {
      total = t.shards_total;
      round = t.round;
      reloops = t.reloop_count;
      shards = shards;
      reviews = r ∷ v.review_records;
    }
      ≡ record (ledger w) {
        total = s.shards_total;
        round = s.round;
        reloops = s.reloop_count;
        shards = shards;
        reviews = r ∷ w.review_records;
      }
guarded r shards s t v w same kept = ground arith

pub record_review-Keeps :
    (env : Env) (adapters : Adapters) (issue_id : String) (shard : Shard)
    (impl : ImplementationRecord) (passed : Bool) (request : ReviewShardRequest) (w : World)
    → (is_pass request.verdict ≡ true
        → any (passing_test (ledger w) shard.id) w.test_records ≡ true)
    → IsConsistent env w
    → IsConsistent env
        (final (record_review env adapters issue_id (read_detail w) shard impl passed request w))
unfolding record_review read_detail now now_millis tick apply_shard_review_status set_status
    reviewed_state review_record_of reviewed_ledger
record_review-Keeps env adapters issue_id shard impl passed request w tested h =
    let d = read_detail w in
    let exceeded = redo_limit_exceeded env shard.id d request.verdict in
    let verdict = effective_verdict exceeded request.verdict in
    let number = needs_work_count shard.id d.review_records in
    let created = env.clock.iso w.ticks in
    let review =
      review_record_of env issue_id shard.id d request exceeded created
        (env.clock.millis (tick w).ticks) in
    let shards = map (with_status shard.id (verdict_status verdict)) (current (ledger w)) in
    let annotations = apply_shard_review_annotations d.annotations shard.id verdict review passed in
    let limit = write_redo_limit_side_effects env issue_id shard.id request number exceeded in
    let commit = commit_if_passed adapters issue_id d shard impl verdict in
    guard-IsConsistent env (reviewed_state d.state shards created) 1 0 (tick (tick w)) _
      (λ t v same kept.
        then-Keeps env limit (commit >> return review)
          (redo_limit-Keeps env issue_id shard.id request number exceeded)
          (then-Keeps env commit (return review)
            (commit-Keeps env adapters issue_id d shard impl verdict) (return-Keeps env review))
          (write_review_record issue_id shard.id review annotations shards t v)
          (same-IsConsistent env
            (record w { shards = shards; review_records = review ∷ w.review_records }) _
            (review_written issue_id shard.id review annotations shards t v
              ∙ guarded review shards (reviewed_state d.state shards created) t v w same kept)
            (record {
              sound =
                  reviewed_ledger-IsSound env (ledger w) shard.id verdict review
                    (λ p. (
                      tested (effective_verdict-pass exceeded request.verdict p),
                      ground (arith, p, (str_eq_iff shard.id shard.id).1 refl),
                    ))
                    h.sound;
            })))

-- A PASS that is not refused for its tests has passing tests.
forced : (a b : Bool) → (a && not b) ≡ false → a ≡ true → b ≡ true
forced true true e p = refl
forced true false e p = cc
forced false b e p = cc

review_implemented-Keeps :
    (env : Env) (adapters : Adapters) (issue_id : String) (request : ReviewShardRequest)
    (shard : Shard) (o : Option ImplementationRecord) (w : World)
    → IsConsistent env w
    → IsConsistent env
        (final (review_implemented env adapters issue_id request (read_detail w) shard o w))
unfolding review_implemented read_detail record_review
review_implemented-Keeps env adapters issue_id request shard none w h = h
review_implemented-Keeps env adapters issue_id request shard (some impl) w h =
    let passed = tests_pass (find (test_of shard.id w.state.round) (read_detail w).test_records) in
    elim (Bool-cases (is_pass request.verdict && not passed)) [
      | inl e ↦ rw e h
      | inr e ↦ rw e (
          record_review-Keeps env adapters issue_id shard impl passed request w
            (λ p. tests_pass-any w shard.id (forced _ _ e p)) h)
    ]

review_found-Keeps :
    (env : Env) (adapters : Adapters) (issue_id shard_id : String) (request : ReviewShardRequest)
    (o : Option Shard) (w : World)
    → IsConsistent env w
    → IsConsistent env
        (final (review_found env adapters issue_id shard_id request (read_detail w) o w))
unfolding review_found
review_found-Keeps env adapters issue_id shard_id request none w h = h
review_found-Keeps env adapters issue_id shard_id request (some shard) w h =
    review_implemented-Keeps env adapters issue_id request shard _ w h

-- A shard review, on every branch, keeps the agreement: from files that agree, no shard becomes
-- DONE without a passing test run and a PASS review of the round.
pub apply_review-Keeps :
    (env : Env) (adapters : Adapters) (issue_id shard_id : String) (request : ReviewShardRequest)
    (w : World)
    → IsConsistent env w
    → IsConsistent env (final (apply_review env adapters issue_id shard_id request w))
unfolding apply_review
apply_review-Keeps env adapters issue_id shard_id request w h =
    review_found-Keeps env adapters issue_id shard_id request _ w h
