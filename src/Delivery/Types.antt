-- ===== src/Delivery/Types.antt =====
-- What the evidence service reads of a loop, and the records that it makes of it.
use vibecoding_dofe_ai.Base.{ℕ, Bool, true, false, String, List, Option}
use vibecoding_dofe_ai.Schema.{Phase, Verdict}

pub data WorkflowKind : Type 0 where
  feature bugfix refactor docs ops : WorkflowKind

pub data GateKind : Type 0 where
  product architecture design devex security code_gate : GateKind

pub data GateStatus : Type 0 where
  pending passed needs_changes blocked waived : GateStatus

pub data Owner : Type 0 where
  codex claude_code human system : Owner

-- `LoopReviewGateSchema`; a confidence is counted in hundredths.
pub record ReviewGate : Type 0 where
  pub id : String
  pub kind : GateKind
  pub status : GateStatus
  pub reviewer : Owner
  pub confidence : Option ℕ
  pub findings_count : ℕ
  pub evidence_id : Option String
  pub required_by_step_id : String
  pub waiver_reason : Option String
  pub updated : String

pub data ArtifactKind : Type 0 where
  raw_payload issue_artifact intake_artifact spec_artifact shards_artifact : ArtifactKind
  test_matrix_artifact implementation_artifact test_artifact review_artifact : ArtifactKind
  global_review_artifact convergence_pr_artifact browser_qa_artifact : ArtifactKind
  second_opinion_artifact annotations_artifact : ArtifactKind

-- `LoopEvidenceArtifactSchema`; `present` is the status.
pub record Artifact : Type 0 where
  pub id : String
  pub label : String
  pub kind : ArtifactKind
  pub path : String
  pub present : Bool
  pub round : Option ℕ
  pub count : Option ℕ
  pub summary : String

pub data StepKind : Type 0 where
  intake spec_review implementation code_review browser_qa release_gate retro : StepKind

pub data StepStatus : Type 0 where
  pending current passed blocked : StepStatus

pub data HumanGate : Type 0 where
  no_gate approval decision : HumanGate

pub record WorkflowStep : Type 0 where
  pub id : String
  pub kind : StepKind
  pub label : String
  pub required : Bool
  pub status : StepStatus
  pub owner : Owner
  pub human_gate : HumanGate
  pub phase : Option Phase
  pub evidence_types : List ArtifactKind
  pub evidence_ids : List String
  pub blocked_reason : Option String

pub record BaselineEvidence : Type 0 where
  pub id : String
  pub kind : String
  pub label : String
  pub value : String
  pub evidence_ref : Option String

pub data RecipeSource : Type 0 where
  default workspace loop_snapshot : RecipeSource

pub record WorkflowRecipe : Type 0 where
  pub id : String
  pub name : String
  pub version : ℕ
  pub applies_to : List WorkflowKind
  pub captured_at : String
  pub source : RecipeSource
  pub baseline_evidence : List BaselineEvidence
  pub steps : List WorkflowStep

-- `WorkflowKindInput` and the fields that `DeliveryControlInput` adds.
pub record DeliveryIssue : Type 0 where
  pub id : String
  pub title : String
  pub body : Option String
  pub target_repo : String
  pub raw_payload_ref : String
  pub status : String
  pub updated : String

pub record DeliveryState : Type 0 where
  pub paused : Bool
  pub phase : Option Phase
  pub global_verdict : Option Verdict
  pub finalized : Bool
  pub spec_version : Option String
  pub shards_done : Option ℕ
  pub shards_total : Option ℕ
  pub updated : Option String

pub record GateOverride : Type 0 where
  pub gate_kind : GateKind
  pub status : GateStatus
  pub reason : Option String
  pub actor : String
  pub updated : String

pub record ReleaseCanary : Type 0 where
  pub status : String
  pub rollback_note : Option String

pub record WorkflowDefault : Type 0 where
  pub loop_kind : WorkflowKind
  pub recipe_id : String
  pub updated : String

pub record OpinionPolicy : Type 0 where
  pub required_for_release : Bool
  pub conflict_human_gate : Bool
  pub updated : String

-- `conflict_fingerprints`: of each resolution the fingerprint, if it names one.
pub record Governance : Type 0 where
  pub required_gate_kinds : Option (List GateKind)
  pub review_gate_overrides : List GateOverride
  pub release_canary : Option ReleaseCanary
  pub workflow_defaults : List WorkflowDefault
  pub second_opinion_policy : Option OpinionPolicy
  pub conflict_fingerprints : List (Option String)

-- A review as far as it is read here: its verdict, and how many issues it has.
pub record ReviewEntry : Type 0 where
  pub verdict : String
  pub issues : ℕ

-- What only a detail has: the fields that are read behind `asDetail`.
pub record DeliveryDetail : Type 0 where
  pub browser_qa_statuses : List String
  pub review_records : List ReviewEntry
  pub global_review : Option ReviewEntry
  pub test_statuses : List String
  pub evidence_artifacts : List Artifact
  pub delivery_governance : Option Governance
  pub has_convergence_pr : Bool
  pub workflow_recipe : Option WorkflowRecipe

-- `DeliveryControlInput`: an item of the list has no detail.
pub record DeliveryItem : Type 0 where
  pub issue : DeliveryIssue
  pub state : Option DeliveryState
  pub spec_status : Option String
  pub as_detail : Option DeliveryDetail

abbrev pub same_kind : GateKind → GateKind → Bool
same_kind product product = true
same_kind architecture architecture = true
same_kind design design = true
same_kind devex devex = true
same_kind security security = true
same_kind code_gate code_gate = true
same_kind _ _ = false

abbrev pub same_artifact : ArtifactKind → ArtifactKind → Bool
same_artifact raw_payload raw_payload = true
same_artifact issue_artifact issue_artifact = true
same_artifact intake_artifact intake_artifact = true
same_artifact spec_artifact spec_artifact = true
same_artifact shards_artifact shards_artifact = true
same_artifact test_matrix_artifact test_matrix_artifact = true
same_artifact implementation_artifact implementation_artifact = true
same_artifact test_artifact test_artifact = true
same_artifact review_artifact review_artifact = true
same_artifact global_review_artifact global_review_artifact = true
same_artifact convergence_pr_artifact convergence_pr_artifact = true
same_artifact browser_qa_artifact browser_qa_artifact = true
same_artifact second_opinion_artifact second_opinion_artifact = true
same_artifact annotations_artifact annotations_artifact = true
same_artifact _ _ = false

abbrev pub same_workflow : WorkflowKind → WorkflowKind → Bool
same_workflow feature feature = true
same_workflow bugfix bugfix = true
same_workflow refactor refactor = true
same_workflow docs docs = true
same_workflow ops ops = true
same_workflow _ _ = false
