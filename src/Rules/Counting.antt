-- ===== src/Rules/Counting.antt =====
-- The count of DONE shards that a review leaves in the state.
use vibecoding_dofe_ai.Base.{ℕ, ◌≡◌, Bool, true, false, String, List, count, Bool-cases, inl, inr}
use vibecoding_dofe_ai.Schema.{
  Annotation, Shard, Detail, ImplementationRecord, ReviewRecord, ReviewShardRequest, StateItem,
  Verdict, pass, needs_work, fail, is_done, is_converge,
}
use vibecoding_dofe_ai.Store.{
  World, Env, M, Outcome, done, thrown, final, return, ◌>>◌, write_review_record, now, now_millis,
  tick,
}
use vibecoding_dofe_ai.Adapters.{Adapters}
use vibecoding_dofe_ai.ShardState.{
  record_review, write_redo_limit_side_effects, commit_if_passed, reviewed_state, review_record_of,
  redo_limit_exceeded, needs_work_count, effective_verdict, apply_shard_review_status,
  apply_shard_review_annotations,
}
use vibecoding_dofe_ai.Ledger.{after, reply-cases, guard-cases}

-- The state counts the DONE shards of the file.
abbrev pub IsCounted : World → Type 0
IsCounted w = w.state.shards_done ≡ count (λ (s : Shard). is_done s.status) w.shards

then-IsCounted :
    {B : Type 0} (o : Outcome (Unit {0})) (k : M B)
    → IsCounted (final o)
    → ((v : World) → IsCounted v → IsCounted (final (k v)))
    → IsCounted (final (after o (λ _. k)))
then-IsCounted (done a w) k h hk = hk w h
then-IsCounted (thrown e w) k h hk = h

limit-IsCounted :
    (env : Env) (issue_id id : String) (request : ReviewShardRequest) (n : ℕ) (exceeded : Bool)
    (w : World)
    → IsCounted w
    → IsCounted (final (write_redo_limit_side_effects env issue_id id request n exceeded w))
unfolding write_redo_limit_side_effects
limit-IsCounted env issue_id id request n false w h = h
limit-IsCounted env issue_id id request n true w h = h

commit-IsCounted :
    (adapters : Adapters) (issue_id : String) (d : Detail) (shard : Shard)
    (impl : ImplementationRecord) (verdict : Verdict) (w : World)
    → IsCounted w
    → IsCounted (final (commit_if_passed adapters issue_id d shard impl verdict w))
unfolding commit_if_passed
commit-IsCounted adapters issue_id d shard impl pass w h =
    reply-cases (λ o. IsCounted (final o))
      (adapters.git.commit_shard d.issue shard impl.changed_files w) _ w (λ e. h) (λ commit e. h)
commit-IsCounted adapters issue_id d shard impl needs_work w h = h
commit-IsCounted adapters issue_id d shard impl fail w h = h

written-IsCounted :
    (issue_id id : String) (r : ReviewRecord) (annotations : List Annotation) (shards : List Shard)
    (t : StateItem) (v : World)
    → t.shards_done ≡ count (λ (s : Shard). is_done s.status) shards
    → IsCounted (write_review_record issue_id id r annotations shards t v)
unfolding write_review_record
written-IsCounted issue_id id r annotations shards t v h = elim (Bool-cases (is_converge t.phase)) [
  | inl e ↦ rw e h
  | inr e ↦ rw e h
]

-- After a review that passed its checks, the shardsDone of the state is the number of DONE shards
-- in the file, whether or not the redo limit is reached, the cost guard pauses the loop or the
-- commit of the shard is refused.
pub record_review-IsCounted :
    (env : Env) (adapters : Adapters) (issue_id : String) (d : Detail) (shard : Shard)
    (impl : ImplementationRecord) (passed : Bool) (request : ReviewShardRequest) (w : World)
    → IsCounted (final (record_review env adapters issue_id d shard impl passed request w))
unfolding record_review now now_millis tick reviewed_state
record_review-IsCounted env adapters issue_id d shard impl passed request w =
    let exceeded = redo_limit_exceeded env shard.id d request.verdict in
    let verdict = effective_verdict exceeded request.verdict in
    let number = needs_work_count shard.id d.review_records in
    let created = env.clock.iso w.ticks in
    let review =
      review_record_of env issue_id shard.id d request exceeded created
        (env.clock.millis (tick w).ticks) in
    let shards = apply_shard_review_status d.shards shard.id verdict in
    let annotations = apply_shard_review_annotations d.annotations shard.id verdict review passed in
    let limit = write_redo_limit_side_effects env issue_id shard.id request number exceeded in
    let commit = commit_if_passed adapters issue_id d shard impl verdict in
    guard-cases env (λ o. IsCounted (final o)) (reviewed_state d.state shards created) 1 0
      (tick (tick w)) _
      (λ t v same kept.
        let written = write_review_record issue_id shard.id review annotations shards t v in
        then-IsCounted (limit written) (commit >> return review)
          (limit-IsCounted env issue_id shard.id request number exceeded written
            (written-IsCounted issue_id shard.id review annotations shards t v same.done_count))
          (λ u hu.
            then-IsCounted (commit u) (return review)
              (commit-IsCounted adapters issue_id d shard impl verdict u hu) (λ x hx. hx)))
