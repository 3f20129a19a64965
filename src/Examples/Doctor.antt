-- ===== src/Examples/Doctor.antt =====
-- The theorems on what doctor finds, on the sample loop.
use vibecoding_dofe_ai.Base.{◌≡◌, ◌≢◌, refl, [], if◌then◌else◌, ltb, arith}
use vibecoding_dofe_ai.Schema.{TestRecord, done_status, test_fail, phase_5_review, numbered}
use vibecoding_dofe_ai.Store.{
  World, done, final, answer, read_detail, progress_problem, inspect_shards,
}
use vibecoding_dofe_ai.Adapters.{Adapters}
use vibecoding_dofe_ai.ShardState.{
  apply_review, review_found, review_implemented, record_review, write_redo_limit_side_effects,
  commit_if_passed,
}
use vibecoding_dofe_ai.Engine.{apply_cost_guard}
use vibecoding_dofe_ai.Service.{run_shard_tests, find_shard}
use vibecoding_dofe_ai.Rules.Doctor.{apply_review-heals, run_shard_tests-miscounts}
use vibecoding_dofe_ai.Examples.{tested-IsConsistent}
use vibecoding_dofe_ai.Samples.{
  sample_env, sample_adapters, sample_state, sample_shard, sample_test, tested_world,
  reviewed_world, pass_request,
}

abbrev healed : World
healed =
    final (apply_review sample_env sample_adapters "issue-7" "shard-1" pass_request tested_world)

heals_example :
    inspect_shards healed
    ≡ (if ltb 0 healed.state.shards_total then progress_problem healed.state healed.shards else [])
unfolding apply_review review_found read_detail review_implemented record_review apply_cost_guard
    write_redo_limit_side_effects commit_if_passed
heals_example =
    apply_review-heals sample_env sample_adapters "issue-7" "shard-1" pass_request tested_world
      tested-IsConsistent refl

abbrev failed_test : TestRecord
failed_test = record sample_test { status = test_fail }

abbrev failing_adapters : Adapters
failing_adapters = record sample_adapters {
  run_commands = λ shard_id round runner commands w. answer failed_test;
}

abbrev counted_world : World
counted_world = record reviewed_world {
  state = record (sample_state phase_5_review 1 (numbered 1)) { shards_done = 1 };
}

miscounts_example :
    (v : World) × (run_shard_tests sample_env failing_adapters "issue-7" "shard-1" "ada" []
        counted_world
      ≡ done failed_test v)
    × (inspect_shards v ≢ [])
unfolding inspect_shards find_shard
miscounts_example =
    run_shard_tests-miscounts sample_env failing_adapters "issue-7" "shard-1" "ada" [] counted_world
      (sample_shard done_status) failed_test (omega arith) refl refl refl refl refl
