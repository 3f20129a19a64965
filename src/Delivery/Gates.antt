-- ===== src/Delivery/Gates.antt =====
-- `buildReviewGates` and `buildReleaseGate`.
use vibecoding_dofe_ai.Base.{
  ℕ, Bool, true, false, not, ◌&&◌, ◌||◌, String, List, [], ◌∷◌, ◌++◌, map, Option, none, some,
  or_else, is_some, ltb, any, all, filter, find, concat, if◌then◌else◌, ◌==◌, string_eq,
}
use vibecoding_dofe_ai.Schema.{Phase, phase_2_review, phase_3_decompose}
use vibecoding_dofe_ai.Delivery.Types.{
  DeliveryItem, Governance, GateKind, product, architecture, security, code_gate, GateStatus,
  GateOverride, ReviewGate, codex, human, spec_artifact, shards_artifact, implementation_artifact,
  test_artifact, review_artifact, global_review_artifact, convergence_pr_artifact, same_kind,
}
use vibecoding_dofe_ai.Delivery.Status.{
  on_state, governance_of, updated_of, is_closed_item, is_finalized, delivery_blocked_reason,
  phase_at_least, is_spec_approved, is_implementation_done, is_review_passed, is_browser_qa_passed,
  is_release_ready, tests_all_passed, review_findings_count, evidence_ids, first,
}
use vibecoding_dofe_ai.Delivery.Opinions.{SecondOpinion, OpinionStatus}

abbrev pub is_phase_2 : Phase → Bool
is_phase_2 phase_2_review = true
is_phase_2 _ = false

abbrev pub in_phase : (Phase → Bool) → DeliveryItem → Bool
in_phase test item = elim (on_state (λ s. s.phase) item) [ none ↦ false | some p ↦ test p ]

abbrev passed_or_pending : Bool → GateStatus
passed_or_pending b = if b then GateStatus.passed else GateStatus.pending

abbrev gate_id : DeliveryItem → String → String
gate_id item suffix = concat (item.issue.id ∷ suffix ∷ [])

abbrev when : Bool → ℕ → Option ℕ
when b n = if b then some n else none

unfoldable pub product_gate : DeliveryItem → ReviewGate
product_gate item = record {
  id = gate_id item "-gate-product";
  kind = product;
  status =
      if is_some (delivery_blocked_reason item) && in_phase is_phase_2 item
      then GateStatus.blocked
      else passed_or_pending (is_spec_approved item);
  reviewer = human;
  confidence = when (is_spec_approved item) 90;
  findings_count = 0;
  evidence_id = first (evidence_ids item spec_artifact);
  required_by_step_id = gate_id item "-spec-review";
  waiver_reason = none;
  updated = updated_of item;
}

unfoldable pub architecture_gate : DeliveryItem → ReviewGate
architecture_gate item = record {
  id = gate_id item "-gate-architecture";
  kind = architecture;
  status = passed_or_pending (phase_at_least item phase_3_decompose);
  reviewer = codex;
  confidence = when (phase_at_least item phase_3_decompose) 80;
  findings_count = 0;
  evidence_id = first (evidence_ids item shards_artifact);
  required_by_step_id = gate_id item "-implementation";
  waiver_reason = none;
  updated = updated_of item;
}

abbrev or_first : Option String → Option String → Option String
or_first none b = b
or_first (some a) b = some a

unfoldable pub code_review_gate : DeliveryItem → ReviewGate
code_review_gate item = record {
  id = gate_id item "-gate-code";
  kind = code_gate;
  status =
      if is_some (delivery_blocked_reason item)
      then GateStatus.blocked
      else if is_review_passed item
      then GateStatus.passed
      else if ltb 0 (review_findings_count item)
      then GateStatus.needs_changes
      else GateStatus.pending;
  reviewer = codex;
  confidence = when (is_review_passed item) 85;
  findings_count = review_findings_count item;
  evidence_id =
      or_first (first (evidence_ids item review_artifact))
        (first (evidence_ids item global_review_artifact));
  required_by_step_id = gate_id item "-code-review";
  waiver_reason = none;
  updated = updated_of item;
}

unfoldable pub security_gate : DeliveryItem → ReviewGate
security_gate item = record {
  id = gate_id item "-gate-security";
  kind = security;
  status = passed_or_pending (is_release_ready item);
  reviewer = codex;
  confidence = when (is_release_ready item) 70;
  findings_count = 0;
  evidence_id = first (evidence_ids item global_review_artifact);
  required_by_step_id = gate_id item "-release-gate";
  waiver_reason = none;
  updated = updated_of item;
}

unfoldable pub all_gates : DeliveryItem → List ReviewGate
unfolding product_gate architecture_gate code_review_gate security_gate
all_gates item =
    product_gate item ∷ architecture_gate item ∷ code_review_gate item ∷ security_gate item ∷ []

abbrev pub has_kind : List GateKind → ReviewGate → Bool
has_kind kinds gate = any (λ kind. same_kind kind gate.kind) kinds

abbrev pub scoped_gates : Option (List GateKind) → List ReviewGate → List ReviewGate
scoped_gates none gates = gates
scoped_gates (some []) gates = gates
scoped_gates (some (kind ∷ kinds)) gates = filter (has_kind (kind ∷ kinds)) gates

abbrev pub passes_review : GateStatus → Bool
passes_review GateStatus.passed = true
passes_review GateStatus.waived = true
passes_review _ = false

abbrev explains : GateStatus → Bool
explains GateStatus.waived = true
explains GateStatus.blocked = true
explains _ = false

abbrev pub governed_gate : ReviewGate → Option GateOverride → ReviewGate
governed_gate gate none = gate
governed_gate gate (some override) = record gate {
  status = override.status;
  reviewer = human;
  confidence = if passes_review override.status then some 100 else gate.confidence;
  waiver_reason =
      if explains override.status
      then some (or_else override.reason (concat ("Governed by " ∷ override.actor ∷ [])))
      else gate.waiver_reason;
  updated = override.updated;
}

abbrev pub override_of : List GateOverride → GateKind → Option GateOverride
override_of overrides kind = find (λ (o : GateOverride). same_kind o.gate_kind kind) overrides

abbrev pub required_kinds : Option Governance → Option (List GateKind)
required_kinds none = none
required_kinds (some g) = g.required_gate_kinds

abbrev pub overrides_of : Option Governance → List GateOverride
overrides_of none = []
overrides_of (some g) = g.review_gate_overrides

abbrev pub apply_override : List GateOverride → ReviewGate → ReviewGate
apply_override overrides gate = governed_gate gate (override_of overrides gate.kind)

unfoldable pub build_review_gates : DeliveryItem → List ReviewGate
build_review_gates item =
    map (apply_override (overrides_of (governance_of item)))
      (scoped_gates (required_kinds (governance_of item)) (all_gates item))

pub data ReleaseStatus : Type 0 where
  pending ready blocked shipped : ReleaseStatus

pub record Checklist : Type 0 where
  pub spec_approved : Bool
  pub implementation_evidence : Bool
  pub tests_passed : Bool
  pub required_reviews_passed : Bool
  pub second_opinion_passed : Bool
  pub browser_qa_passed : Bool
  pub docs_updated : Bool
  pub pr_ready : Bool
  pub rollback_note : Bool
  pub canary_passed : Bool

pub record ReleaseGate : Type 0 where
  pub id : String
  pub status : ReleaseStatus
  pub checklist : Checklist
  pub evidence_ids : List String
  pub blocker : Option String
  pub updated : String

abbrev pub is_opinion_passed : OpinionStatus → Bool
is_opinion_passed OpinionStatus.passed = true
is_opinion_passed _ = false

abbrev pub opinion_allows : Option SecondOpinion → Bool
opinion_allows none = true
opinion_allows (some opinion) = not opinion.required_for_release || is_opinion_passed opinion.status

abbrev pub canary_allows : Option Governance → Bool
canary_allows none = true
canary_allows (some g) = elim g.release_canary [
  | none ↦ true
  | some canary ↦ canary.status == "passed"
]

abbrev has_text : Option String → Bool
has_text none = false
has_text (some s) = not (s == "")

abbrev pub has_rollback_note : Option Governance → Bool
has_rollback_note none = false
has_rollback_note (some g) = elim g.release_canary [
  | none ↦ false
  | some canary ↦ has_text canary.rollback_note
]

abbrev pub has_pr : DeliveryItem → Bool
has_pr item = elim item.as_detail [ none ↦ false | some detail ↦ detail.has_convergence_pr ]

unfoldable pub checklist_of : DeliveryItem → Option SecondOpinion → Checklist
checklist_of item second_opinion = record {
  spec_approved = is_spec_approved item;
  implementation_evidence = is_implementation_done item;
  tests_passed = tests_all_passed item;
  required_reviews_passed =
      all (λ (gate : ReviewGate). passes_review gate.status) (build_review_gates item);
  second_opinion_passed = opinion_allows second_opinion;
  browser_qa_passed = is_browser_qa_passed item;
  docs_updated = true;
  pr_ready = has_pr item || is_closed_item item;
  rollback_note = has_pr item || (is_closed_item item || has_rollback_note (governance_of item));
  canary_passed = canary_allows (governance_of item);
}

abbrev pub is_complete : Checklist → Bool
is_complete c =
    c.spec_approved
    && (c.implementation_evidence
        && (c.tests_passed
            && (c.required_reviews_passed
                && (c.second_opinion_passed
                    && (c.browser_qa_passed
                        && (c.docs_updated
                            && (c.pr_ready && (c.rollback_note && c.canary_passed))))))))

unfoldable pub build_release_gate : DeliveryItem → Option SecondOpinion → ReleaseGate
unfolding checklist_of
build_release_gate item second_opinion = record {
  id = gate_id item "-release-gate";
  status =
      if is_some (delivery_blocked_reason item)
      then ReleaseStatus.blocked
      else if is_closed_item item || is_finalized item
      then ReleaseStatus.shipped
      else if is_complete (checklist_of item second_opinion)
      then ReleaseStatus.ready
      else ReleaseStatus.pending;
  checklist = checklist_of item second_opinion;
  evidence_ids =
      evidence_ids item spec_artifact
      ++ (evidence_ids item implementation_artifact
          ++ (evidence_ids item test_artifact
              ++ (evidence_ids item review_artifact
                  ++ (evidence_ids item global_review_artifact
                      ++ evidence_ids item convergence_pr_artifact))));
  blocker = delivery_blocked_reason item;
  updated = updated_of item;
}
