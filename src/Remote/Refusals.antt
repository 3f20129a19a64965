-- ===== src/Remote/Refusals.antt =====
-- The jobs whose agent, implementation record or shard is missing.
use vibecoding_dofe_ai.Base.{
  ◌∙◌, ℕ, ◌≡◌, refl, Bool, ap, true, false, String, Option, none, some, find, nat_eq, string_eq,
}
use vibecoding_dofe_ai.Schema.{Issue, Shard, in_progress, ImplementationRecord}
use vibecoding_dofe_ai.Store.{
  M, Call, read_shards, World, Env, Error, Outcome, done, thrown, refusal, now, now_millis, tick,
  final, read_detail,
}
use vibecoding_dofe_ai.Engine.{set_status}
use vibecoding_dofe_ai.Adapters.{Adapters}
use vibecoding_dofe_ai.Service.{find_shard}
use vibecoding_dofe_ai.ShardState.{impl_of}
use vibecoding_dofe_ai.Ledger.{after_thrown, call_refusal}
use vibecoding_dofe_ai.Remote.Jobs.{
  RemoteJob, JobResult, completed, failed, implement_kind, review_kind, RuntimeBackend, codex_cli,
  finish_job, execute_remote_shard_job, job_on_shard, run_job, execute_implementation_job,
  mark_remote_progress, read_guarded, execute_review_job, review_job_found,
}
use vibecoding_dofe_ai.Remote.Port.{
  DockerResult, RemoteTools, runtime_port, remote_job, run_implementation, run_claude,
}

abbrev pub thrown_error : {A : Type 0} → Outcome A → Option Error
thrown_error (done a w) = none
thrown_error (thrown e w) = some e

abbrev pub is_failed : Outcome JobResult → Bool
is_failed (done result w) = elim result.status [ failed ↦ true | completed ↦ false ]
is_failed (thrown e w) = false

-- An agent that refuses, on every backend but the sandbox.
run_claude-refused :
    (adapters : Adapters) (backend : RuntimeBackend) (issue : Issue) (shard : Shard) (round : ℕ)
    (e : Error) (v : World)
    → adapters.run_agent issue shard round v ≡ refusal e
    → run_claude adapters backend issue shard round v ≡ thrown e v
unfolding run_claude
run_claude-refused adapters backend issue shard round e v h =
    after_thrown _ (call_refusal (adapters.run_agent issue shard round) v h)

run_implementation-codex :
    (env : Env) (adapters : Adapters) (tools : RemoteTools) (issue : Issue) (shard : Shard)
    (round : ℕ) (command profile : Option String)
    (sandbox : Option ((image command workdir : String) → Call DockerResult))
    → run_implementation env adapters tools issue shard round codex_cli command profile sandbox
      ≡ run_claude adapters codex_cli issue shard round
unfolding run_implementation
run_implementation-codex env adapters tools issue shard round command profile none = refl
run_implementation-codex env adapters tools issue shard round command profile (some execute) = refl

module _ (env : Env) (adapters : Adapters) (tools : RemoteTools) (job : RemoteJob) (start : ℕ)
    (w : World) (shard : Shard) (e : Error)
    (refused : (issue : Issue) (s : Shard) (round : ℕ) (v : World)
      → adapters.run_agent issue s round v ≡ refusal e) where
  marked : World
  marked = final (mark_remote_progress env job (read_detail w) shard w)

  marked-shards : marked.shards ≡ set_status job.shard_id in_progress (read_detail w).shards
  unfolding marked mark_remote_progress now
  marked-shards = refl

  implementation-refused :
      job.runtime_backend ≡ codex_cli
      → run_implementation env adapters tools w.issue shard w.state.round job.runtime_backend
          job.command job.sandbox_profile tools.execute marked
        ≡ thrown e marked
  implementation-refused backend =
      ap
        (λ b.
          run_implementation env adapters tools w.issue shard w.state.round b job.command
            job.sandbox_profile tools.execute marked)
        backend
      ∙ ap (λ (run : M (ImplementationRecord × Option String)). run marked)
          (run_implementation-codex env adapters tools w.issue shard w.state.round job.command
            job.sandbox_profile tools.execute)
      ∙ run_claude-refused adapters codex_cli w.issue shard w.state.round e marked
          (refused w.issue shard w.state.round marked)

  job-refused :
      job.runtime_backend ≡ codex_cli
      → execute_implementation_job env
          (runtime_port env adapters tools job.issue_id)
          job
          start
          (read_detail w)
          shard
          w
        ≡ thrown e marked
  unfolding execute_implementation_job runtime_port marked mark_remote_progress now read_detail
  job-refused backend = after_thrown _ (implementation-refused backend)

job-thrown :
    (env : Env) (adapters : Adapters) (tools : RemoteTools) (job : RemoteJob) (w v : World)
    (shard : Shard) (e : Error)
    → job.worker_kind ≡ implement_kind
    → find_shard job.shard_id (read_detail w).shards ≡ some shard
    → execute_implementation_job env
        (runtime_port env adapters tools job.issue_id)
        job
        (env.clock.millis w.ticks)
        (read_detail (tick w))
        shard
        (tick w)
      ≡ thrown e v
    → remote_job env adapters tools job w ≡ thrown e v
unfolding remote_job execute_remote_shard_job runtime_port read_guarded now_millis tick job_on_shard
    read_detail read_shards run_job
job-thrown env adapters tools job w v shard e kind found h = rw found (
    ap
      (λ k.
        run_job env (runtime_port env adapters tools job.issue_id) job (env.clock.millis w.ticks)
          (read_detail (tick w)) shard k (tick w))
      kind
    ∙ h)

-- Where the shard of an implementation job is found, its backend is the Codex CLI and the agent
-- always refuses with an error, executeRemoteShardJob throws this error instead of returning a
-- failed result, and the shard is left IN_PROGRESS.
pub remote_job-escapes :
    (env : Env) (adapters : Adapters) (tools : RemoteTools) (job : RemoteJob) (w : World)
    (shard : Shard) (e : Error)
    → job.worker_kind ≡ implement_kind
    → job.runtime_backend ≡ codex_cli
    → find_shard job.shard_id (read_detail w).shards ≡ some shard
    → ((issue : Issue) (s : Shard) (round : ℕ) (v : World)
        → adapters.run_agent issue s round v ≡ refusal e)
    → (thrown_error (remote_job env adapters tools job w) ≡ some e)
      × ((final (remote_job env adapters tools job w)).shards
          ≡ set_status job.shard_id in_progress (read_detail w).shards)
unfolding read_detail read_shards tick
remote_job-escapes env adapters tools job w shard e kind backend found refused =
    let start = env.clock.millis w.ticks in
    let ended =
      job-thrown env adapters tools job w _ shard e kind found
        (job-refused env adapters tools job start (tick w) shard e refused backend) in
    (
      ap thrown_error ended,
      ap (λ o. (final o).shards) ended
          ∙ marked-shards env adapters tools job start (tick w) shard e refused,
    )

-- A review job for a shard that has no implementation record of the round returns a failed result,
-- and no file changes.
pub remote_job-unimplemented :
    (env : Env) (adapters : Adapters) (tools : RemoteTools) (job : RemoteJob) (w : World)
    (shard : Shard)
    → job.worker_kind ≡ review_kind
    → find_shard job.shard_id (read_detail w).shards ≡ some shard
    → find (impl_of job.shard_id (read_detail w).state.round) (read_detail w).implementation_records
      ≡ none
    → (is_failed (remote_job env adapters tools job w) ≡ true)
      × (final (remote_job env adapters tools job w) ≡ tick (tick w))
unfolding remote_job execute_remote_shard_job runtime_port read_guarded now_millis tick job_on_shard
    read_shards run_job execute_review_job review_job_found finish_job read_detail
remote_job-unimplemented env adapters tools job w shard kind found missing =
    (rw (found, kind, missing) refl, rw (found, kind, missing) refl)
