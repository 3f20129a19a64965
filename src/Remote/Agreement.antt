-- ===== src/Remote/Agreement.antt =====
-- The agreement of the files across the jobs of a remote runner.
use vibecoding_dofe_ai.Base.{ℕ, refl, String, List, Option, none, some}
use vibecoding_dofe_ai.Schema.{Issue, Shard, ImplementationRecord, Detail, in_progress}
use vibecoding_dofe_ai.Store.{
  World, Env, Call, call, return, ◌>>=◌, now, now_millis, tick, final, read_detail,
}
use vibecoding_dofe_ai.Engine.{set_status}
use vibecoding_dofe_ai.Adapters.{Adapters}
use vibecoding_dofe_ai.ShardState.{apply_review, persist_implementation}
use vibecoding_dofe_ai.Service.{tested_shard}
use vibecoding_dofe_ai.Remote.Jobs.{
  RemoteJob, JobStatus, Artifact, WorkerKind, implement_kind, test_kind, review_kind, other_kind,
  RuntimePort, RuntimeBackend, docker, codex_cli, claude_code_cli, finish_job, mark_remote_progress,
  execute_implementation_job, write_remote_tests, execute_test_job, review_job_found,
  execute_review_job, run_job, job_on_shard, execute_remote_shard_job, read_guarded,
  remote_review_request,
}
use vibecoding_dofe_ai.Remote.Port.{
  RemoteTools, DockerResult, runtime_port, remote_job, run_implementation, run_sandbox, run_claude,
}
use vibecoding_dofe_ai.Ledger.{
  add_test-IsSound, relabel-IsSound, IsConsistent, bind-Keeps, then-Keeps, then-IsConsistent,
  return-Keeps, call-Keeps, same-IsConsistent, written-IsConsistent, reply-IsConsistent,
}
use vibecoding_dofe_ai.Ledger.Keeps.{Keeps}
use vibecoding_dofe_ai.Ledger.Progress.{with_status-keeps, persist_implementation-Keeps}
use vibecoding_dofe_ai.Ledger.Verdicts.{apply_review-Keeps, tested_shard-keeps}
use vibecoding_dofe_ai.Engine.{with_status}

module _ (env : Env) (adapters : Adapters) (tools : RemoteTools) (job : RemoteJob) (start : ℕ) where
  abbrev port : RuntimePort
  port = runtime_port env adapters tools job.issue_id

  finish_job-Keeps :
      (status : JobStatus) (artifacts : List Artifact) (error summary : Option String)
      → Keeps env (finish_job env start status artifacts error summary)
  unfolding finish_job tick
  finish_job-Keeps status artifacts error summary w h = same-IsConsistent env w _ refl h

  mark_remote_progress-Keeps :
      (shard : Shard) (w : World)
      → IsConsistent env w
      → IsConsistent env (final (mark_remote_progress env job (read_detail w) shard w))
  unfolding mark_remote_progress read_detail now tick set_status
  mark_remote_progress-Keeps shard w h =
      written-IsConsistent env w _ (with_status job.shard_id in_progress)
        (λ s. with_status-keeps job.shard_id in_progress s refl) refl h

  run_sandbox-Keeps :
      (execute : (image command workdir : String) → Call DockerResult) (issue : Issue)
      (shard : Shard) (round : ℕ) (command profile : Option String)
      → Keeps env (run_sandbox env tools execute issue shard round command profile)
  unfolding run_sandbox now now_millis tick
  run_sandbox-Keeps execute issue shard round command profile w h =
      reply-IsConsistent env (execute _ _ issue.target_repo w) _ w h
        (λ result. same-IsConsistent env w _ refl h)

  run_claude-Keeps :
      (backend : RuntimeBackend) (issue : Issue) (shard : Shard) (round : ℕ)
      → Keeps env (run_claude adapters backend issue shard round)
  unfolding run_claude
  run_claude-Keeps backend issue shard round w h =
      reply-IsConsistent env (adapters.run_agent issue shard round w) _ w h (λ impl. h)

  run_implementation-Keeps :
      (issue : Issue) (shard : Shard) (round : ℕ) (backend : RuntimeBackend)
      (command profile : Option String)
      (sandbox : Option ((image command workdir : String) → Call DockerResult))
      → Keeps env
          (run_implementation env adapters tools issue shard round backend command profile sandbox)
  unfolding run_implementation
  run_implementation-Keeps issue shard round docker command profile (some execute) =
      run_sandbox-Keeps execute issue shard round command profile
  run_implementation-Keeps issue shard round docker command profile none =
      run_claude-Keeps docker issue shard round
  run_implementation-Keeps issue shard round codex_cli command profile sandbox =
      run_claude-Keeps codex_cli issue shard round
  run_implementation-Keeps issue shard round claude_code_cli command profile sandbox =
      run_claude-Keeps claude_code_cli issue shard round

  implementation_job-Keeps :
      (shard : Shard) (w : World)
      → IsConsistent env w
      → IsConsistent env
          (final (execute_implementation_job env port job start (read_detail w) shard w))
  unfolding execute_implementation_job runtime_port
  implementation_job-Keeps shard w h =
      then-IsConsistent env (mark_remote_progress env job (read_detail w) shard w) _
        (mark_remote_progress-Keeps shard w h)
        (bind-Keeps env
          (run_implementation env adapters tools (read_detail w).issue shard
            (read_detail w).state.round job.runtime_backend job.command job.sandbox_profile
            tools.execute)
          _
          (run_implementation-Keeps (read_detail w).issue shard (read_detail w).state.round
            job.runtime_backend job.command job.sandbox_profile tools.execute)
          (λ ran.
            then-Keeps env (persist_implementation env job.issue_id job.shard_id ran.0) _
              (persist_implementation-Keeps env job.issue_id job.shard_id ran.0)
              (finish_job-Keeps _ _ _ _)))

  test_job-Keeps :
      (w : World)
      → IsConsistent env w
      → IsConsistent env (final (execute_test_job env port job start (read_detail w) w))
  unfolding execute_test_job runtime_port write_remote_tests read_detail now tick
  test_job-Keeps w h =
      reply-IsConsistent env (adapters.run_commands job.shard_id w.state.round _ _ w) _ w h
        (λ tested. finish_job-Keeps _ _ _ _ _ (record {
          sound = add_test-IsSound tested (
              relabel-IsSound (tested_shard job.shard_id tested.status)
                (tested_shard-keeps job.shard_id tested.status) h.sound);
        }))

  review_found-Keeps :
      (d : Detail) (shard : Shard) (o : Option ImplementationRecord)
      → Keeps env (review_job_found env port job start d shard o)
  unfolding review_job_found runtime_port
  review_found-Keeps d shard none = finish_job-Keeps _ _ _ _
  review_found-Keeps d shard (some impl) =
      bind-Keeps env (call (adapters.agent.review shard impl _)) _ (call-Keeps env _) (λ reviewed.
        then-Keeps env
          (apply_review env adapters job.issue_id job.shard_id
              (remote_review_request job.runtime_backend reviewed)
            >>= λ _. return tt)
          _
          (bind-Keeps env
            (apply_review env adapters job.issue_id job.shard_id
              (remote_review_request job.runtime_backend reviewed))
            (λ _. return tt)
            (apply_review-Keeps env adapters job.issue_id job.shard_id
              (remote_review_request job.runtime_backend reviewed))
            (λ _. return-Keeps env tt))
          (finish_job-Keeps _ _ _ _))

  run_job-Keeps :
      (shard : Shard) (kind : WorkerKind) (w : World)
      → IsConsistent env w
      → IsConsistent env (final (run_job env port job start (read_detail w) shard kind w))
  unfolding run_job execute_review_job
  run_job-Keeps shard implement_kind w h = implementation_job-Keeps shard w h
  run_job-Keeps shard test_kind w h = test_job-Keeps w h
  run_job-Keeps shard review_kind w h = review_found-Keeps (read_detail w) shard _ w h
  run_job-Keeps shard (other_kind kind) w h = finish_job-Keeps _ _ _ _ w h

  job_on_shard-Keeps :
      (o : Option Shard) (w : World)
      → IsConsistent env w
      → IsConsistent env (final (job_on_shard env port job start (read_detail w) o w))
  unfolding job_on_shard
  job_on_shard-Keeps none w h = finish_job-Keeps _ _ _ _ w h
  job_on_shard-Keeps (some shard) w h = run_job-Keeps shard job.worker_kind w h

-- Every job of a remote runner, of any kind, on any backend and on every branch, refusals included,
-- keeps the agreement of the state, the shards and the records.
pub remote_job-Keeps :
    (env : Env) (adapters : Adapters) (tools : RemoteTools) (job : RemoteJob) (w : World)
    → IsConsistent env w
    → IsConsistent env (final (remote_job env adapters tools job w))
unfolding remote_job execute_remote_shard_job runtime_port read_guarded now_millis tick
remote_job-Keeps env adapters tools job w h =
    job_on_shard-Keeps env adapters tools job (env.clock.millis w.ticks) _ (tick w)
      (same-IsConsistent env w _ refl h)
