-- ===== src/Remote/Port.antt =====
-- apps/api/src/modules/loops/loops-remote-shard-runtime.adapter.ts: the runtime port, over the
-- agents, the test runner, the sandbox and the shard state.
use vibecoding_dofe_ai.Base.{
  ℕ, String, List, [], ◌∷◌, Option, none, some, concat, decimal, or_else, if◌then◌else◌, ◌==◌,
  string_eq,
}
use vibecoding_dofe_ai.Schema.{Issue, Shard, ImplementationRecord}
use vibecoding_dofe_ai.Store.{M, Env, Call, call, return, ◌>>=◌, now, now_millis, get_detail}
use vibecoding_dofe_ai.Adapters.{Adapters}
use vibecoding_dofe_ai.ShardState.{persist_implementation, apply_review}
use vibecoding_dofe_ai.Remote.Jobs.{
  RuntimeBackend, docker, backend_text, RuntimePort, RemoteJob, JobResult, execute_remote_shard_job,
}

-- What a run in the sandbox gives.
pub record DockerResult : Type 0 where
  pub exit_code : ℕ
  pub stdout : String

-- `dockerSandbox.executeOrThrow` with its image, command and directory, and `text.slice(0, n)`.
pub record RemoteTools : Type 0 where
  pub execute : Option ((image command workdir : String) → Call DockerResult)
  pub cut : ℕ → String → String

docker_record :
    RemoteTools
    → Issue
    → Shard
    → (round : ℕ) → DockerResult
    → (millis : ℕ) → (created : String) → ImplementationRecord
docker_record tools issue shard round result millis created = record {
  id = concat ("impl-record-" ∷ shard.id ∷ "-r" ∷ decimal round ∷ "-" ∷ decimal millis ∷ []);
  issue_id = issue.id;
  shard_id = shard.id;
  round = round;
  implementer = "remote-runner:docker";
  summary = concat ("Docker sandbox execution: exit " ∷ decimal result.exit_code ∷ []);
  changed_files = [];
  notes = some (tools.cut 2000 result.stdout);
  created = created;
  tokens = some 0;
}

unfoldable pub run_sandbox :
    Env
    → RemoteTools
    → ((image command workdir : String) → Call DockerResult)
    → Issue
    → Shard
    → (round : ℕ) → (command sandbox_profile : Option String)
    → M (ImplementationRecord × Option String)
unfolding now now_millis docker_record
run_sandbox env tools execute issue shard round command sandbox_profile = do
  result ← call (
      execute (or_else sandbox_profile "dofe-ai/sandbox:latest")
        (or_else command
          (concat ("codex implement --shard " ∷ shard.id ∷ " --issue " ∷ issue.id ∷ [])))
        issue.target_repo)
  millis ← now_millis env
  created ← now env
  return (docker_record tools issue shard round result millis created, some result.stdout)

-- `claudeAdapter.run`, under the name of the backend.
unfoldable pub run_claude :
    Adapters
    → RuntimeBackend
    → Issue
    → Shard
    → (round : ℕ) → M (ImplementationRecord × Option String)
run_claude adapters backend issue shard round = do
  impl ← call (adapters.run_agent issue shard round)
  return (record impl { implementer = concat ("remote-runner:" ∷ backend_text backend ∷ []) }, none)

unfoldable pub run_implementation :
    Env
    → Adapters
    → RemoteTools
    → Issue
    → Shard
    → (round : ℕ) → RuntimeBackend
    → (command sandbox_profile : Option String)
    → Option ((image command workdir : String) → Call DockerResult)
    → M (ImplementationRecord × Option String)
run_implementation env adapters tools issue shard round docker command sandbox_profile
      (some execute) =
    run_sandbox env tools execute issue shard round command sandbox_profile
run_implementation env adapters tools issue shard round backend command sandbox_profile sandbox =
    run_claude adapters backend issue shard round

-- `input.command ? [input.command] : undefined`; without commands the runner has its own.
unfoldable pub test_commands : Env → Option String → List String
test_commands env none = env.config.default_commands
test_commands env (some command) =
    if command == "" then env.config.default_commands else command ∷ []

-- `runtimePort`
unfoldable pub runtime_port : Env → Adapters → RemoteTools → (issue_id : String) → RuntimePort
unfolding test_commands
runtime_port env adapters tools issue_id = record {
  read_detail = get_detail;
  run_implementation = λ issue shard round backend command sandbox_profile.
      run_implementation env adapters tools issue shard round backend command sandbox_profile
        tools.execute;
  persist_implementation = λ shard_id impl. persist_implementation env issue_id shard_id impl;
  run_tests = λ shard_id round cwd backend command sandbox_profile. call (
      adapters.run_commands shard_id round (concat ("remote-runner:" ∷ backend_text backend ∷ []))
        (test_commands env command));
  review = λ shard impl test. call (adapters.agent.review shard impl test);
  apply_review =
      λ shard_id request. apply_review env adapters issue_id shard_id request >>= λ _. return tt;
}

-- `createShardExecutionPort`
unfoldable pub remote_job : Env → Adapters → RemoteTools → RemoteJob → M JobResult
remote_job env adapters tools job =
    execute_remote_shard_job env tools.cut (runtime_port env adapters tools job.issue_id) job
