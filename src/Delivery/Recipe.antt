-- ===== src/Delivery/Recipe.antt =====
-- The kind of a workflow, its baseline evidence and the seven steps of its recipe.
use vibecoding_dofe_ai.Base.{
  Bool, true, false, ◌&&◌, ◌||◌, String, List, [], ◌∷◌, ◌++◌, Option, none, some, or_else, is_some,
  find, contains, concat, if◌then◌else◌, ◌==◌, string_eq,
}
use vibecoding_dofe_ai.Schema.{
  Phase, phase_0_intake, phase_2_review, phase_4_implement, phase_5_review, phase_6_converge,
  phase_7_global_review, phase_8_annotate, closed,
}
use vibecoding_dofe_ai.Delivery.Types.{
  DeliveryItem, DeliveryIssue, Governance, WorkflowKind, feature, bugfix, refactor, docs, ops,
  WorkflowDefault, WorkflowRecipe, WorkflowStep, BaselineEvidence, RecipeSource, StepKind,
  StepStatus, HumanGate, no_gate, approval, decision, Owner, codex, claude_code, system,
  ArtifactKind, raw_payload, issue_artifact, intake_artifact, spec_artifact, shards_artifact,
  implementation_artifact, test_artifact, review_artifact, global_review_artifact,
  convergence_pr_artifact, annotations_artifact, same_workflow,
}
use vibecoding_dofe_ai.Delivery.Status.{
  governance_of, updated_of, phase_of, delivery_blocked_reason, is_spec_approved,
  is_implementation_done, is_review_passed, is_browser_qa_passed, is_release_ready, evidence_ids,
}
use vibecoding_dofe_ai.Delivery.Gates.{is_phase_2}

-- `has_ops_word`: `/\b(deploy|ops)\b/`
pub record WordTools : Type 0 where
  pub to_lower_case : String → String
  pub has_ops_word : String → Bool

unfoldable pub infer_workflow_kind : WordTools → DeliveryIssue → WorkflowKind
infer_workflow_kind tools issue =
    let text =
      tools.to_lower_case
        (concat (issue.title ∷ " " ∷ or_else issue.body "" ∷ " " ∷ issue.target_repo ∷ [])) in
    if contains "doc" text || contains "文档" text
    then docs
    else if contains "fix" text || (contains "bug" text || contains "修复" text)
    then bugfix
    else if contains "refactor" text || contains "重构" text
    then refactor
    else if tools.has_ops_word text || contains "运维" text
    then ops
    else feature

abbrev kind_text : WorkflowKind → String
kind_text feature = "feature"
kind_text bugfix = "bugfix"
kind_text refactor = "refactor"
kind_text docs = "docs"
kind_text ops = "ops"

abbrev recipe_id : WorkflowKind → Option WorkflowDefault → String
recipe_id kind none = concat ("default-" ∷ kind_text kind ∷ [])
recipe_id kind (some workflow_default) = workflow_default.recipe_id

abbrev baseline :
    DeliveryIssue → (suffix kind label value : String) → Option String → BaselineEvidence
baseline issue suffix kind label value evidence_ref = record {
  id = concat (issue.id ∷ suffix ∷ []);
  kind = kind;
  label = label;
  value = value;
  evidence_ref = evidence_ref;
}

unfoldable pub build_workflow_baseline_evidence :
    WordTools → DeliveryIssue → Option WorkflowDefault → List BaselineEvidence
build_workflow_baseline_evidence tools issue workflow_default =
    let workflow_id = recipe_id (infer_workflow_kind tools issue) workflow_default in
    baseline issue "-baseline-blueprint" "blueprint" "Blueprint version"
      (concat (workflow_id ∷ "@v1" ∷ [])) (some issue.raw_payload_ref)
    ∷ baseline issue "-baseline-runtime" "runtime" "Runtime plan"
        "Codex review/control + Claude Code implementation" none
    ∷ baseline issue "-baseline-eval" "eval" "Eval suite"
        "architecture, delivery, runtime, test, cost hard gates" none
    ∷ baseline issue "-baseline-gates" "gate" "Human and release gates"
        "spec approval, review gates, release gate" none
    ∷ []

abbrev is_phase_4 : Phase → Bool
is_phase_4 phase_4_implement = true
is_phase_4 _ = false

abbrev is_reviewing : Phase → Bool
is_reviewing phase_5_review = true
is_reviewing phase_6_converge = true
is_reviewing _ = false

abbrev is_phase_7 : Phase → Bool
is_phase_7 phase_7_global_review = true
is_phase_7 _ = false

abbrev is_closing : Phase → Bool
is_closing phase_6_converge = true
is_closing phase_7_global_review = true
is_closing phase_8_annotate = true
is_closing closed = true
is_closing _ = false

abbrev only_if : Bool → Option String → Option String
only_if b reason = if b then reason else none

abbrev ids_of : DeliveryItem → List ArtifactKind → List String
ids_of item [] = []
ids_of item (kind ∷ kinds) = evidence_ids item kind ++ ids_of item kinds

abbrev current_or_pending : Bool → StepStatus
current_or_pending b = if b then StepStatus.current else StepStatus.pending

module _ (item : DeliveryItem) where
  abbrev stopped : Bool
  stopped = is_some (delivery_blocked_reason item)

  abbrev recipe_step :
      (suffix label : String)
      → StepKind
      → (required : Bool) → StepStatus
      → Owner
      → HumanGate
      → Option Phase
      → (evidence_types ids : List ArtifactKind) → Option String
      → WorkflowStep
  recipe_step suffix label kind required status owner gate phase evidence_types ids reason =
      record {
        id = concat (item.issue.id ∷ suffix ∷ []);
        kind = kind;
        label = label;
        required = required;
        status = status;
        owner = owner;
        human_gate = gate;
        phase = phase;
        evidence_types = evidence_types;
        evidence_ids = ids_of item ids;
        blocked_reason = reason;
      }

  abbrev intake_step : WorkflowStep
  intake_step =
      let kinds = raw_payload ∷ issue_artifact ∷ intake_artifact ∷ [] in
      recipe_step "-intake" "Intake" StepKind.intake true StepStatus.passed system no_gate
        (some phase_0_intake) kinds kinds none

  unfoldable pub spec_review_step : WorkflowStep
  spec_review_step =
      let kinds : List ArtifactKind = spec_artifact ∷ [] in
      let here = stopped && is_phase_2 (phase_of item) in
      recipe_step "-spec-review" "Spec Review" StepKind.spec_review true
        (if here
          then StepStatus.blocked
          else if is_spec_approved item
          then StepStatus.passed
          else StepStatus.current)
        codex approval (some phase_2_review) kinds kinds
        (only_if here (delivery_blocked_reason item))

  unfoldable pub implementation_step : WorkflowStep
  implementation_step =
      let kinds = implementation_artifact ∷ shards_artifact ∷ [] in
      let here = stopped && is_phase_4 (phase_of item) in
      recipe_step "-implementation" "Implementation" StepKind.implementation true
        (if here
          then StepStatus.blocked
          else if is_implementation_done item
          then StepStatus.passed
          else current_or_pending (is_phase_4 (phase_of item)))
        claude_code no_gate (some phase_4_implement) kinds kinds
        (only_if here (delivery_blocked_reason item))

  unfoldable pub code_review_step : WorkflowStep
  code_review_step =
      let kinds = review_artifact ∷ global_review_artifact ∷ test_artifact ∷ [] in
      recipe_step "-code-review" "Code Review" StepKind.code_review true
        (if stopped
          then StepStatus.blocked
          else if is_review_passed item
          then StepStatus.passed
          else current_or_pending (is_reviewing (phase_of item)))
        codex no_gate (some phase_5_review) kinds kinds (delivery_blocked_reason item)

  abbrev browser_qa_step : WorkflowStep
  browser_qa_step =
      let kinds : List ArtifactKind = global_review_artifact ∷ [] in
      recipe_step "-browser-qa" "Browser QA" StepKind.browser_qa false
        (if is_browser_qa_passed item
          then StepStatus.passed
          else current_or_pending (is_phase_7 (phase_of item)))
        codex no_gate (some phase_7_global_review) kinds kinds none

  unfoldable pub release_gate_step : WorkflowStep
  release_gate_step =
      let kinds = convergence_pr_artifact ∷ annotations_artifact ∷ [] in
      recipe_step "-release-gate" "Release Gate" StepKind.release_gate true
        (if stopped
          then StepStatus.blocked
          else if is_release_ready item
          then StepStatus.passed
          else current_or_pending (is_closing (phase_of item)))
        codex decision (some phase_8_annotate) kinds kinds (delivery_blocked_reason item)

  abbrev retro_step : WorkflowStep
  retro_step =
      let kinds : List ArtifactKind = annotations_artifact ∷ [] in
      recipe_step "-retro" "Reflect" StepKind.retro false
        (if item.issue.status == "ARCHIVED"
          then StepStatus.passed
          else current_or_pending (is_release_ready item))
        codex no_gate none kinds kinds none

  unfoldable pub recipe_steps : List WorkflowStep
  recipe_steps =
      intake_step ∷ spec_review_step ∷ implementation_step ∷ code_review_step ∷ browser_qa_step
      ∷ release_gate_step ∷ retro_step ∷ []

abbrev default_of : WordTools → DeliveryIssue → Option Governance → Option WorkflowDefault
default_of tools issue none = none
default_of tools issue (some governance) =
    find
      (λ (entry : WorkflowDefault). same_workflow entry.loop_kind (infer_workflow_kind tools issue))
      governance.workflow_defaults

abbrev snapshot_of : DeliveryItem → Option WorkflowRecipe
snapshot_of item = elim item.as_detail [ none ↦ none | some detail ↦ detail.workflow_recipe ]

abbrev captured_at : DeliveryItem → Option WorkflowDefault → String
captured_at item none = updated_of item
captured_at item (some workflow_default) = workflow_default.updated

abbrev default_source : Option WorkflowDefault → RecipeSource
default_source none = RecipeSource.default
default_source (some workflow_default) = RecipeSource.workspace

unfoldable pub build_workflow_recipe : WordTools → DeliveryItem → WorkflowRecipe
unfolding recipe_steps
build_workflow_recipe tools item =
    let kind = infer_workflow_kind tools item.issue in
    let workflow_default = default_of tools item.issue (governance_of item) in
    elim (snapshot_of item) [
      | none ↦ record {
        id = recipe_id kind workflow_default;
        name = "Default Codex / Claude Code delivery";
        version = 1;
        applies_to = kind ∷ [];
        captured_at = captured_at item workflow_default;
        source = default_source workflow_default;
        baseline_evidence = build_workflow_baseline_evidence tools item.issue workflow_default;
        steps = recipe_steps item;
      }
      | some snapshot ↦ record snapshot { steps = recipe_steps item }
    ]
