-- ===== src/Ledger/Shards.antt =====
-- The agreement of the files across `runRunnableShard`.
use vibecoding_dofe_ai.Base.{ℕ, String, some}
use vibecoding_dofe_ai.Schema.{
  Issue, Shard, ImplementationRecord, TestRecord, Detail, ReviewShardRequest,
}
use vibecoding_dofe_ai.Store.{World, Env, M, return, ◌>>=◌, call, final, read_detail, get_detail}
use vibecoding_dofe_ai.Engine.{
  TestReviewOutput, ShardRunnerPort, mark_in_progress, run_runnable_shard, shard_review_request,
}
use vibecoding_dofe_ai.Adapters.{Adapters}
use vibecoding_dofe_ai.ShardState.{persist_implementation, apply_review}
use vibecoding_dofe_ai.Service.{shard_runner_port}
use vibecoding_dofe_ai.Ledger.Sound.{IsConsistent}
use vibecoding_dofe_ai.Ledger.Progress.{persist_implementation-Keeps, mark_in_progress-Keeps}
use vibecoding_dofe_ai.Ledger.Verdicts.{run_shard_tests-Keeps, apply_review-Keeps}
use vibecoding_dofe_ai.Ledger.Keeps.{
  Keeps, bind-Keeps, then-Keeps, then-IsConsistent, return-Keeps, call-Keeps,
}

module _ (env : Env) (adapters : Adapters) (issue_id : String) where
  abbrev port : ShardRunnerPort
  port = shard_runner_port env adapters issue_id

  persist-Keeps :
      (shard_id : String) (impl : ImplementationRecord)
      → Keeps env (port.persist_implementation shard_id impl)
  unfolding shard_runner_port
  persist-Keeps shard_id impl =
      then-Keeps env (persist_implementation env issue_id shard_id impl) get_detail
        (persist_implementation-Keeps env issue_id shard_id impl) (λ w h. h)

  settle-Keeps :
      (shard_id : String) (request : ReviewShardRequest)
      → Keeps env (port.apply_review shard_id request)
  unfolding shard_runner_port
  settle-Keeps shard_id request =
      bind-Keeps env (apply_review env adapters issue_id shard_id request) (λ _. return tt)
        (apply_review-Keeps env adapters issue_id shard_id request) (λ _. return-Keeps env tt)

  -- What follows the start of a shard.
  module _ (issue : Issue) (shard : Shard) (round : ℕ) where
    abbrev judged : ImplementationRecord → TestRecord → TestReviewOutput → M (Unit {0})
    judged impl test test_review = do
      review ← port.review shard impl test
      port.apply_review shard.id (shard_review_request test_review review)

    abbrev checked : ImplementationRecord → Detail → TestRecord → M (Unit {0})
    checked impl d test = do
      test_review ← port.review_tests d.test_matrix test
      judged impl test test_review

    abbrev built : ImplementationRecord → M (Unit {0})
    built impl = do
      d ← port.persist_implementation shard.id impl
      test ← port.run_tests shard.id
      checked impl d test

    run_started-Keeps : Keeps env (port.run_agent issue shard round >>= built)
    unfolding shard_runner_port
    run_started-Keeps =
        bind-Keeps env (call (adapters.run_agent issue shard round)) built (call-Keeps env _)
          (λ impl.
            bind-Keeps env (port.persist_implementation shard.id impl) _
              (persist-Keeps shard.id impl)
              (λ d.
                bind-Keeps env (port.run_tests shard.id) (checked impl d)
                  (run_shard_tests-Keeps env adapters issue_id shard.id "loops-runner"
                    env.config.default_commands)
                  (λ test.
                    bind-Keeps env (call (adapters.agent.review_tests d.test_matrix test))
                      (judged impl test) (call-Keeps env _)
                      (λ test_review.
                        bind-Keeps env (call (adapters.agent.review shard impl (some test)))
                          (λ review.
                            port.apply_review shard.id (shard_review_request test_review review))
                          (call-Keeps env _)
                          (λ review.
                            settle-Keeps shard.id (shard_review_request test_review review))))))

  pub run_runnable_shard-Keeps :
      (shard : Shard) (w : World)
      → IsConsistent env w
      → IsConsistent env (final (run_runnable_shard env issue_id port (read_detail w) shard w))
  unfolding run_runnable_shard read_detail
  run_runnable_shard-Keeps shard w h =
      then-IsConsistent env (mark_in_progress env issue_id (read_detail w) shard w)
        (port.run_agent w.issue shard w.state.round >>= built w.issue shard w.state.round)
        (mark_in_progress-Keeps env issue_id shard w h)
        (run_started-Keeps w.issue shard w.state.round)
