-- ===== src/Adapters.antt =====
-- What the API facade is given besides the agents: git, the coding agent, the test runner, the
-- lock, and builders of the evidence service that read more than the engine's detail.
use vibecoding_dofe_ai.Base.{ℕ, Bool, String, List}
use vibecoding_dofe_ai.Schema.{
  Issue, Shard, Detail, ImplementationRecord, TestRecord, ConvergencePr, Learning,
}
use vibecoding_dofe_ai.Store.{Call}
use vibecoding_dofe_ai.Engine.{AgentAdapter}

-- `LoopsCommitShardResult`
pub record CommitResult : Type 0 where
  pub shard_id : String
  pub committed : Bool
  pub message : String

-- `LoopsGitAdapter`
pub record GitAdapter : Type 0 where
  pub commit_shard : Issue → Shard → (changed_files : List String) → Call CommitResult
  pub create_convergence_pr : Detail → List CommitResult → Call ConvergencePr

pub record Adapters : Type 0 where
  pub agent : AgentAdapter
  pub git : GitAdapter
  -- `claudeAdapter.run`
  pub run_agent : Issue → Shard → (round : ℕ) → Call ImplementationRecord
  -- `runner.runShardTests`
  pub run_commands :
      (shard_id : String)
      → (round : ℕ) → (runner : String) → (commands : List String) → Call TestRecord
  -- `workLock`: the lock of the issue and of its repo is held until the work ends, or is refused.
  pub acquire_lock : (issue_id target_repo : String) → Call (Unit {0})
  -- `evidence.buildReleaseGateBlockers` over the gates of the loop
  pub release_blockers : Detail → List String
  -- `buildLoopLearnings`
  pub build_learnings : Detail → ConvergencePr → (created : String) → List Learning
  -- `coverageTextMatches` of a text and a criterion
  pub text_matches : (text criterion : String) → Bool
