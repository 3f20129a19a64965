-- ===== src/Schema/Records.antt =====
-- The records of loops.schema.ts.
use vibecoding_dofe_ai.Base.{ℕ, Bool, String, List, Option}
use vibecoding_dofe_ai.Schema.Status.{
  IssueStatus, Phase, SpecStatus, ShardStatus, TestStatus, Verdict, Severity, Annotator, ImplMark,
  TestMark, VerdictMark, Coverage, Risk, SpecVersion,
}

pub record Issue : Type 0 where
  pub id : String
  pub title : String
  pub status : IssueStatus
  pub updated : String
  pub submitter_id : String
  pub target_repo : String
  pub body : String
  pub acceptance_criteria : List String

pub record Spec : Type 0 where
  pub id : String
  pub issue_id : String
  pub version : SpecVersion
  pub status : SpecStatus
  pub created : String
  pub approved_by : Option String
  pub context_budget : ℕ
  pub body : String

pub record Shard : Type 0 where
  pub id : String
  pub spec_id : String
  pub title : String
  pub status : ShardStatus
  pub depends_on : List String
  pub est_context : ℕ
  pub acceptance : List String
  pub files_hint : List String

pub record Annotation : Type 0 where
  pub target : String
  pub annotator : Annotator
  pub round : ℕ
  pub impl_status : ImplMark
  pub test_status : TestMark
  pub verdict : VerdictMark
  pub coverage : Coverage
  pub location : List String
  pub risk : Risk
  pub notes : String

pub record RequiredTest : Type 0 where
  pub id : String
  pub shard_id : String
  pub title : String

pub record TestMatrix : Type 0 where
  pub id : String
  pub issue_id : String
  pub spec_id : String
  pub required_tests : List RequiredTest

pub record ImplementationRecord : Type 0 where
  pub id : String
  pub issue_id : String
  pub shard_id : String
  pub round : ℕ
  pub implementer : String
  pub summary : String
  pub changed_files : List String
  pub notes : Option String
  pub created : String
  pub tokens : Option ℕ

pub record FailedTest : Type 0 where
  pub name : String
  pub reason : String

pub record TestRecord : Type 0 where
  pub id : String
  pub issue_id : String
  pub shard_id : String
  pub round : ℕ
  pub runner : String
  pub status : TestStatus
  pub commands : List String
  pub failed_tests : List FailedTest
  pub fix_instructions : List String
  pub created : String

pub record ReviewIssue : Type 0 where
  pub severity : Severity
  pub desc : String

pub record ReviewRecord : Type 0 where
  pub id : String
  pub issue_id : String
  pub shard_id : String
  pub round : ℕ
  pub reviewer : String
  pub verdict : Verdict
  pub issues : List ReviewIssue
  pub fix_instructions : List String
  pub summary : String
  pub created : String

pub record GlobalReviewRecord : Type 0 where
  pub id : String
  pub issue_id : String
  pub reviewer : String
  pub round : ℕ
  pub verdict : Verdict
  pub issues : List ReviewIssue
  pub fix_instructions : List String
  pub summary : String
  pub created : String

pub record ConvergencePr : Type 0 where
  pub id : String
  pub issue_id : String
  pub branch : String
  pub url : Option String
  pub pr_body : String
  pub created : String

pub record Learning : Type 0 where
  pub id : String
  pub summary : String
  pub evidence_ids : List String

pub record StateItem : Type 0 where
  pub issue_id : String
  pub phase : Phase
  pub round : ℕ
  pub spec_version : SpecVersion
  pub shards_total : ℕ
  pub shards_done : ℕ
  pub shards_in_progress : ℕ
  pub reloop_count : ℕ
  pub cost_tokens : ℕ
  pub cost_calls : ℕ
  pub updated : String
  pub paused : Bool
  pub global_verdict : Option Verdict
  pub finalized : Bool

-- `LoopDetail`: what a read of the loop returns.
pub record Detail : Type 0 where
  pub issue : Issue
  pub spec : Option Spec
  pub shards : List Shard
  pub test_matrix : Option TestMatrix
  pub annotations : List Annotation
  pub implementation_records : List ImplementationRecord
  pub review_records : List ReviewRecord
  pub test_records : List TestRecord
  pub state : StateItem
  pub global_review : Option GlobalReviewRecord
  pub convergence_pr : Option ConvergencePr

pub data ReviewAction : Type 0 where
  approve request_revision reject : ReviewAction

pub record ReviewSpecRequest : Type 0 where
  pub action : ReviewAction
  pub reviewer : String
  pub notes : Option String

pub record ReviewShardRequest : Type 0 where
  pub reviewer : String
  pub verdict : Verdict
  pub summary : String
  pub issues : List ReviewIssue
  pub fix_instructions : List String

pub data Intervention : Type 0 where
  pause resume take : Intervention

pub record InterventionRequest : Type 0 where
  pub action : Intervention
  pub actor : String
  pub shard_id : Option String
  pub notes : Option String

pub record RecordImplementationRequest : Type 0 where
  pub implementer : String
  pub summary : String
  pub changed_files : List String
  pub notes : Option String
