-- ===== src/Examples/Remote.antt =====
-- The theorems on the jobs of a remote runner, on the sample loop.
use vibecoding_dofe_ai.Base.{◌≡◌, refl, none, nat_eq, string_eq, some, [], find}
use vibecoding_dofe_ai.Schema.{in_progress, implemented}
use vibecoding_dofe_ai.Store.{World, failure, final, read_detail, read_shards}
use vibecoding_dofe_ai.Engine.{set_status}
use vibecoding_dofe_ai.ShardState.{impl_of}
use vibecoding_dofe_ai.Service.{find_shard}
use vibecoding_dofe_ai.Remote.{remote_job, test_kind, implement_kind}
use vibecoding_dofe_ai.Remote.Agreement.{remote_job-Keeps}
use vibecoding_dofe_ai.Remote.Refusals.{remote_job-escapes, thrown_error}
use vibecoding_dofe_ai.Ledger.{IsConsistent}
use vibecoding_dofe_ai.Samples.{sample_env, sample_adapters, sample_shard, tested_world}
use vibecoding_dofe_ai.Samples.Remote.{sample_job, sample_tools, absent_adapters}
use vibecoding_dofe_ai.Examples.{tested-IsConsistent}

remote_job_example :
    IsConsistent sample_env (
      final
        (remote_job sample_env sample_adapters sample_tools (sample_job test_kind) tested_world))
remote_job_example =
    remote_job-Keeps sample_env sample_adapters sample_tools (sample_job test_kind) tested_world
      tested-IsConsistent

found_here :
    find_shard "shard-1" (read_detail tested_world).shards ≡ some (sample_shard implemented)
unfolding read_detail read_shards find_shard
found_here = refl

escapes_example :
    (thrown_error (
        remote_job sample_env absent_adapters sample_tools (sample_job implement_kind) tested_world)
      ≡ some (failure "codex is not installed"))
    × ((final (
          remote_job sample_env absent_adapters sample_tools
            (sample_job implement_kind)
            tested_world)).shards
        ≡ set_status "shard-1" in_progress (read_detail tested_world).shards)
escapes_example =
    remote_job-escapes sample_env absent_adapters sample_tools (sample_job implement_kind)
      tested_world (sample_shard implemented) (failure "codex is not installed") refl refl
      found_here (λ issue s round v. refl)

abbrev unbuilt_world : World
unbuilt_world = record tested_world { implementations = [] }

found_unbuilt :
    find_shard "shard-1" (read_detail unbuilt_world).shards ≡ some (sample_shard implemented)
unfolding read_detail read_shards find_shard
found_unbuilt = refl

none_built :
    find
      (impl_of "shard-1" (read_detail unbuilt_world).state.round)
      (read_detail unbuilt_world).implementation_records
    ≡ none
unfolding read_detail
none_built = refl
