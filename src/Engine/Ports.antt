-- ===== src/Engine/Ports.antt =====
-- The interfaces through which the engine reaches agents, git and the facade: the adapter types of
-- loops-runners/adapters, and the ports at the end of loops-engine.service.ts.
use vibecoding_dofe_ai.Base.{ℕ, String, List, Option}
use vibecoding_dofe_ai.Schema.{
  Issue, Spec, Shard, Annotation, TestMatrix, ImplementationRecord, TestRecord, TestStatus,
  ReviewIssue, GlobalReviewRecord, ConvergencePr, Learning, Detail, Verdict, ReviewShardRequest,
  Phase,
}
use vibecoding_dofe_ai.Store.{M, Call}

pub record Decomposition : Type 0 where
  pub shards : List Shard
  pub annotations : List Annotation

pub record ReviewOutput : Type 0 where
  pub verdict : Verdict
  pub issues : List ReviewIssue
  pub fix_instructions : List String
  pub summary : String

pub record TestReviewOutput : Type 0 where
  pub test_verdict : TestStatus
  pub issues : List ReviewIssue
  pub fix_instructions : List String
  pub summary : String

-- `LoopsAgentAdapter`: the agent runs as a process of its own, and its answers are arbitrary.
pub record AgentAdapter : Type 0 where
  pub plan : Issue → (created_at : String) → Call Spec
  pub decompose : Issue → Spec → Call Decomposition
  pub design_tests : Issue → Spec → List Shard → (created_at : String) → Call TestMatrix
  pub review_tests : Option TestMatrix → TestRecord → Call TestReviewOutput
  pub review : Shard → ImplementationRecord → Option TestRecord → Call ReviewOutput
  pub review_global : Detail → Call ReviewOutput
  pub annotate_finalize : Detail → ConvergencePr → Call (List Annotation)

-- `LoopsEngineShardRunnerPort`
pub record ShardRunnerPort : Type 0 where
  pub read_fresh_detail : M Detail
  pub run_agent : Issue → Shard → (round : ℕ) → M ImplementationRecord
  pub persist_implementation : (shard_id : String) → ImplementationRecord → M Detail
  pub run_tests : (shard_id : String) → M TestRecord
  pub review_tests : Option TestMatrix → TestRecord → M TestReviewOutput
  pub review : Shard → ImplementationRecord → TestRecord → M ReviewOutput
  pub apply_review : (shard_id : String) → ReviewShardRequest → M (Unit {0})

-- `LoopsEngineFinalizePort`
pub record FinalizePort : Type 0 where
  pub get_detail : M Detail
  pub enforce_release_gate_or_throw : Detail → M (Unit {0})
  pub open_convergence_pr : Detail → M ConvergencePr
  pub annotate_finalize : Detail → ConvergencePr → M (List Annotation)
  pub build_learnings : Detail → ConvergencePr → (now : String) → List Learning
  pub publish_pr_comment : ConvergencePr → M (Unit {0})
  pub read_detail : M Detail

-- `LoopsEngineGlobalReviewPort`
pub record GlobalReviewPort : Type 0 where
  pub get_detail : M Detail
  pub collect_evidence_issues : Detail → List ReviewIssue
  pub run_regression : Detail → M TestRecord
  pub run_agent_global_review : Detail → M (ReviewOutput × Detail)
  pub auto_reloop : Detail → GlobalReviewRecord → List Annotation → (now : String) → M Detail
  pub read_detail : M Detail

-- `LoopsEngineAdvancePort`
pub record AdvancePort : Type 0 where
  pub get_detail : M Detail
  pub resume_and_read : Detail → M Detail
  pub generate_spec : M Detail
  pub decompose : M Detail
  pub finalize : M Detail
  pub review_global : M Detail
  pub run_loop : M Detail
  pub append_advance_limit_log : Phase → (max_steps : ℕ) → M (Unit {0})
