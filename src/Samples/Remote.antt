-- ===== src/Samples/Remote.antt =====
-- Jobs of a remote runner, and agents that refuse.
use vibecoding_dofe_ai.Base.{none}
use vibecoding_dofe_ai.Store.{refusal, failure}
use vibecoding_dofe_ai.Adapters.{Adapters}
use vibecoding_dofe_ai.Remote.{RemoteJob, RemoteTools, WorkerKind, codex_cli}
use vibecoding_dofe_ai.Samples.{sample_adapters}

abbrev pub sample_job : WorkerKind → RemoteJob
sample_job kind = record {
  issue_id = "issue-7";
  shard_id = "shard-1";
  worker_kind = kind;
  runtime_backend = codex_cli;
  artifact_root = ".loops/runs/remote-runner-primary";
  command = none;
  sandbox_profile = none;
}

abbrev pub sample_tools : RemoteTools
sample_tools = record { execute = none; cut = λ n text. text }

abbrev pub absent_adapters : Adapters
absent_adapters = record sample_adapters {
  run_agent = λ issue shard round w. refusal (failure "codex is not installed");
}
