-- ===== src/Ending/Totals.antt =====
-- The shard count of the state across the calls of one round of the scheduler.
use vibecoding_dofe_ai.Base.{
  ℕ, ◌∙◌, ◌≡◌, Bool, true, false, not, ◌&&◌, String, List, Option, none, some, find, Bool-cases,
  inl, inr,
}
use vibecoding_dofe_ai.Schema.{
  Issue, Shard, Annotation, StateItem, is_converge, ReviewRecord, ImplementationRecord, TestRecord,
  Detail, Verdict, ReviewShardRequest, pass, needs_work, fail, is_pass,
}
use vibecoding_dofe_ai.Store.{
  World, Env, M, Outcome, done, thrown, return, ◌>>=◌, ◌>>◌, now, now_millis, tick,
  write_review_record, final, read_detail,
}
use vibecoding_dofe_ai.Engine.{
  TestReviewOutput, ShardRunnerPort, mark_in_progress, run_runnable_shard, shard_review_request,
}
use vibecoding_dofe_ai.Adapters.{Adapters}
use vibecoding_dofe_ai.ShardState.{
  test_of, tests_pass, effective_verdict, write_redo_limit_side_effects, apply_shard_review_status,
  reviewed_state, review_record_of, redo_limit_exceeded, needs_work_count,
  apply_shard_review_annotations, commit_if_passed, record_review, review_found, review_implemented,
  apply_review, persist_implementation,
}
use vibecoding_dofe_ai.Service.{run_shard_tests, test_found, shard_runner_port}
use vibecoding_dofe_ai.Ledger.{after, reply-cases, guard-cases}

-- The state counts `n` shards.
abbrev pub HasTotal : ℕ → World → Type 0
HasTotal n w = w.state.shards_total ≡ n

module _ (n : ℕ) where
  abbrev KeepsTotal : {A : Type 0} → M A → Type 0
  KeepsTotal m = (w : World) → HasTotal n w → HasTotal n (final (m w))

  then-HasTotal :
      {A B : Type 0} (o : Outcome A) (f : A → M B)
      → HasTotal n (final o)
      → ((a : A) → KeepsTotal (f a))
      → HasTotal n (final (after o f))
  then-HasTotal (done a w) f h hf = hf a w h
  then-HasTotal (thrown e w) f h hf = h

  module _ (env : Env) (adapters : Adapters) (issue_id : String) where
    test_found-KeepsTotal :
        (shard_id runner : String) (commands : List String) (o : Option Shard) (w : World)
        → HasTotal n w
        → HasTotal n
            (final (test_found env adapters issue_id shard_id runner commands (read_detail w) o w))
    unfolding test_found read_detail
    test_found-KeepsTotal shard_id runner commands none w h = h
    test_found-KeepsTotal shard_id runner commands (some shard) w h =
        reply-cases (λ o. HasTotal n (final o))
          (adapters.run_commands shard_id w.state.round runner commands w) _ w (λ e. h)
          (λ test e. h)

    limit-KeepsTotal :
        (shard_id : String) (request : ReviewShardRequest) (number : ℕ) (exceeded : Bool)
        → KeepsTotal (write_redo_limit_side_effects env issue_id shard_id request number exceeded)
    unfolding write_redo_limit_side_effects
    limit-KeepsTotal shard_id request number false w h = h
    limit-KeepsTotal shard_id request number true w h = h

    commit-KeepsTotal :
        (d : Detail) (shard : Shard) (impl : ImplementationRecord) (verdict : Verdict)
        → KeepsTotal (commit_if_passed adapters issue_id d shard impl verdict)
    unfolding commit_if_passed
    commit-KeepsTotal d shard impl pass w h =
        reply-cases (λ o. HasTotal n (final o))
          (adapters.git.commit_shard d.issue shard impl.changed_files w) _ w (λ e. h)
          (λ commit e. h)
    commit-KeepsTotal d shard impl needs_work w h = h
    commit-KeepsTotal d shard impl fail w h = h

    written-HasTotal :
        (id : String) (r : ReviewRecord) (annotations : List Annotation) (shards : List Shard)
        (t : StateItem) (v : World)
        → t.shards_total ≡ n
        → HasTotal n (write_review_record issue_id id r annotations shards t v)
    unfolding write_review_record
    written-HasTotal id r annotations shards t v h = elim (Bool-cases (is_converge t.phase)) [
      | inl e ↦ rw e h
      | inr e ↦ rw e h
    ]

    record_review-HasTotal :
        (d : Detail) (shard : Shard) (impl : ImplementationRecord) (passed : Bool)
        (request : ReviewShardRequest) (w : World)
        → d.state.shards_total ≡ n
        → HasTotal n (final (record_review env adapters issue_id d shard impl passed request w))
    unfolding record_review now now_millis tick reviewed_state
    record_review-HasTotal d shard impl passed request w h =
        let exceeded = redo_limit_exceeded env shard.id d request.verdict in
        let verdict = effective_verdict exceeded request.verdict in
        let number = needs_work_count shard.id d.review_records in
        let created = env.clock.iso w.ticks in
        let review =
          review_record_of env issue_id shard.id d request exceeded created
            (env.clock.millis (tick w).ticks) in
        let shards = apply_shard_review_status d.shards shard.id verdict in
        let annotations =
          apply_shard_review_annotations d.annotations shard.id verdict review passed in
        let limit = write_redo_limit_side_effects env issue_id shard.id request number exceeded in
        let commit = commit_if_passed adapters issue_id d shard impl verdict in
        guard-cases env (λ o. HasTotal n (final o)) (reviewed_state d.state shards created) 1 0
          (tick (tick w)) _
          (λ t v same kept.
            let written = write_review_record issue_id shard.id review annotations shards t v in
            then-HasTotal (limit written) (λ _. commit >> return review)
              (limit-KeepsTotal shard.id request number exceeded written
                (written-HasTotal shard.id review annotations shards t v (same.total ∙ h)))
              (λ _ u hu.
                then-HasTotal (commit u) (λ _. return review)
                  (commit-KeepsTotal d shard impl verdict u hu) (λ _ x hx. hx)))

    review_implemented-KeepsTotal :
        (request : ReviewShardRequest) (shard : Shard) (o : Option ImplementationRecord) (w : World)
        → HasTotal n w
        → HasTotal n
            (final (review_implemented env adapters issue_id request (read_detail w) shard o w))
    unfolding review_implemented read_detail
    review_implemented-KeepsTotal request shard none w h = h
    review_implemented-KeepsTotal request shard (some impl) w h =
        let passed =
          tests_pass (find (test_of shard.id w.state.round) (read_detail w).test_records) in
        elim (Bool-cases (is_pass request.verdict && not passed)) [
          | inl e ↦ rw e h
          | inr e ↦ rw e (record_review-HasTotal (read_detail w) shard impl passed request w h)
        ]

    review_found-KeepsTotal :
        (shard_id : String) (request : ReviewShardRequest) (o : Option Shard) (w : World)
        → HasTotal n w
        → HasTotal n
            (final (review_found env adapters issue_id shard_id request (read_detail w) o w))
    unfolding review_found
    review_found-KeepsTotal shard_id request none w h = h
    review_found-KeepsTotal shard_id request (some shard) w h =
        review_implemented-KeepsTotal request shard _ w h

    abbrev port : ShardRunnerPort
    port = shard_runner_port env adapters issue_id

    implemented-KeepsTotal :
        (shard_id : String) (impl : ImplementationRecord)
        → KeepsTotal (persist_implementation env issue_id shard_id impl)
    unfolding persist_implementation read_detail now tick
    implemented-KeepsTotal shard_id impl w h =
        guard-cases env (λ o. HasTotal n (final o)) _ _ _ _ _ (λ t v same kept. same.total ∙ h)

    persist-KeepsTotal :
        (shard_id : String) (impl : ImplementationRecord)
        → KeepsTotal (port.persist_implementation shard_id impl)
    unfolding shard_runner_port
    persist-KeepsTotal shard_id impl w h =
        then-HasTotal (persist_implementation env issue_id shard_id impl w) _
          (implemented-KeepsTotal shard_id impl w h) (λ _ v hv. hv)

    tests-KeepsTotal : (shard_id : String) → KeepsTotal (port.run_tests shard_id)
    unfolding shard_runner_port run_shard_tests
    tests-KeepsTotal shard_id w h =
        test_found-KeepsTotal shard_id "loops-runner" env.config.default_commands _ w h

    settle-KeepsTotal :
        (shard_id : String) (request : ReviewShardRequest)
        → KeepsTotal (port.apply_review shard_id request)
    unfolding shard_runner_port apply_review
    settle-KeepsTotal shard_id request w h =
        then-HasTotal (apply_review env adapters issue_id shard_id request w) (λ _. return tt)
          (review_found-KeepsTotal shard_id request _ w h) (λ _ v hv. hv)

    -- What follows the start of a shard.
    module _ (issue : Issue) (shard : Shard) (round : ℕ) where
      abbrev judged : ImplementationRecord → TestRecord → TestReviewOutput → M (Unit {0})
      judged impl test test_review = do
        review ← port.review shard impl test
        port.apply_review shard.id (shard_review_request test_review review)

      abbrev checked : ImplementationRecord → Detail → TestRecord → M (Unit {0})
      checked impl d test = do
        test_review ← port.review_tests d.test_matrix test
        judged impl test test_review

      abbrev built : ImplementationRecord → M (Unit {0})
      built impl = do
        d ← port.persist_implementation shard.id impl
        test ← port.run_tests shard.id
        checked impl d test

      judged-KeepsTotal :
          (impl : ImplementationRecord) (test : TestRecord) (test_review : TestReviewOutput)
          → KeepsTotal (judged impl test test_review)
      unfolding shard_runner_port
      judged-KeepsTotal impl test test_review w h =
          reply-cases (λ o. HasTotal n (final o)) (adapters.agent.review shard impl (some test) w) _
            w (λ e. h)
            (λ review e. settle-KeepsTotal shard.id (shard_review_request test_review review) w h)

      checked-KeepsTotal :
          (impl : ImplementationRecord) (d : Detail) (test : TestRecord)
          → KeepsTotal (checked impl d test)
      unfolding shard_runner_port
      checked-KeepsTotal impl d test w h =
          reply-cases (λ o. HasTotal n (final o)) (adapters.agent.review_tests d.test_matrix test w)
            _ w (λ e. h) (λ test_review e. judged-KeepsTotal impl test test_review w h)

      built-KeepsTotal : (impl : ImplementationRecord) → KeepsTotal (built impl)
      built-KeepsTotal impl w h =
          then-HasTotal (port.persist_implementation shard.id impl w) _
            (persist-KeepsTotal shard.id impl w h)
            (λ d v hv.
              then-HasTotal (port.run_tests shard.id v) (checked impl d)
                (tests-KeepsTotal shard.id v hv) (checked-KeepsTotal impl d))

      started-KeepsTotal : KeepsTotal (port.run_agent issue shard round >>= built)
      unfolding shard_runner_port
      started-KeepsTotal w h =
          reply-cases (λ o. HasTotal n (final o)) (adapters.run_agent issue shard round w) _ w
            (λ e. h) (λ impl e. built-KeepsTotal impl w h)

    -- A run of a shard keeps the shard count of the state, also where it is refused.
    pub run_runnable_shard-HasTotal :
        (shard : Shard) (w : World)
        → HasTotal n w
        → HasTotal n (final (run_runnable_shard env issue_id port (read_detail w) shard w))
    unfolding run_runnable_shard read_detail mark_in_progress now tick
    run_runnable_shard-HasTotal shard w h =
        then-HasTotal (mark_in_progress env issue_id (read_detail w) shard w)
          (λ _. port.run_agent w.issue shard w.state.round >>= built w.issue shard w.state.round) h
          (λ _. started-KeepsTotal w.issue shard w.state.round)
