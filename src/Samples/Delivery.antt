-- ===== src/Samples/Delivery.antt =====
-- A loop at its release gate, in several states of its governance.
use native.Mathlib.Nat.{div-lt_iff_lt-mul, mul-div-mul_right}
use vibecoding_dofe_ai.Base.{
  ℕ, zero, suc, ◌+◌, ◌*◌, ◌/◌, ◌≤◌, ◌<◌, ◌∙◌, ap, arith, Bool, true, false, String, List, [], ◌∷◌,
  Option, none, some,
}
use vibecoding_dofe_ai.Schema.{phase_7_global_review, pass}
use vibecoding_dofe_ai.Evidence.{RequirementStatus, CoverageItem}
use vibecoding_dofe_ai.Quality.{TextTools}
use vibecoding_dofe_ai.Delivery.{
  DeliveryItem, GateKind, security, GateStatus, Governance, OpinionInput, ArtifactInput,
  ArtifactRecord, RulesInput,
}
use vibecoding_dofe_ai.Delivery.Totals.{IsRounded}

abbrev pub sample_governance : Option (List GateKind) → Governance
sample_governance kinds = record {
  required_gate_kinds = kinds;
  review_gate_overrides =
      record {
        gate_kind = security;
        status = GateStatus.waived;
        reason = none;
        actor = "dana";
        updated = "2";
      }
      ∷ [];
  release_canary = some (record { status = "passed"; rollback_note = some "Revert the branch." });
  workflow_defaults = [];
  second_opinion_policy = none;
  conflict_fingerprints = [];
}

abbrev pub sample_item : (status : String) (has_pr : Bool) → Option (List GateKind) → DeliveryItem
sample_item status has_pr kinds = record {
  issue = record {
    id = "issue-7";
    title = "Add a page";
    body = none;
    target_repo = "web";
    raw_payload_ref = "raw.json";
    status = status;
    updated = "1";
  };
  state = some (record {
    paused = false;
    phase = some phase_7_global_review;
    global_verdict = some pass;
    finalized = false;
    spec_version = some "v1";
    shards_done = some 1;
    shards_total = some 1;
    updated = some "1";
  });
  spec_status = some "APPROVED";
  as_detail = some (record {
    browser_qa_statuses = "passed" ∷ [];
    review_records = [];
    global_review = none;
    test_statuses = "TEST-PASS" ∷ [];
    evidence_artifacts = [];
    delivery_governance = some (sample_governance kinds);
    has_convergence_pr = has_pr;
    workflow_recipe = none;
  });
}

abbrev pub sample_rules : RulesInput
sample_rules = record { implementation_records = []; test_statuses = []; shards = [] }

abbrev pub sample_opinion_input : OpinionInput
sample_opinion_input = record {
  issue_id = "issue-7";
  issue_updated = "1";
  state_updated = none;
  review_records = [];
  global_review = none;
  second_opinion = none;
  policy = some (record { required_for_release = true; conflict_human_gate = true; updated = "2" });
}

abbrev pub plain_text : TextTools
plain_text = record {
  trim = λ text. text;
  to_lower_case = λ text. text;
  plain = λ text. text;
  hash = λ text. text;
}

abbrev pub sample_coverage : RequirementStatus → CoverageItem
sample_coverage status = record {
  id = "REQ-1";
  criterion = "The page loads";
  in_spec = true;
  shard_ids = [];
  test_ids = [];
  implementation_record_ids = [];
  review_record_ids = [];
  status = status;
}

abbrev sample_record : String → ArtifactRecord
sample_record id = record {
  id = id;
  shard_id = "shard-1";
  round = 1;
  items = 2;
  status = "IMPLEMENTED";
}

abbrev pub sample_artifacts : ArtifactInput
sample_artifacts = record {
  issue = record {
    id = "issue-7";
    raw_payload_ref = none;
    source_channel = "web";
    source_kind = "form";
    submitter_name = none;
    submitter_id = "dana";
    priority = "P1";
    status = "IN_LOOP";
    acceptance_criteria = 1;
  };
  intake = record {
    id = "intake-7";
    status = "READY";
    source_channel = "web";
    source_kind = "form";
  };
  spec_version = "v1";
  spec = none;
  shard_statuses = "DONE" ∷ [];
  test_matrix = none;
  annotations = 0;
  implementation_records = sample_record "impl-1" ∷ [];
  test_records = sample_record "test-1" ∷ sample_record "test-2" ∷ [];
  review_records = [];
  global_review = none;
  convergence_commits = none;
  browser_qa_reports = [];
  second_opinion = none;
}

-- The exact percent, rounded half up.
abbrev pub exact_percent : ℕ → ℕ → ℕ
exact_percent a n = (200 * a + n) / (2 * n)

div-le : (k x y : ℕ) → x ≤ y → x / k ≤ y / k
div-le zero x y h = omega arith
div-le (suc k) x y h =
    let pos : 0 < suc k = omega arith in
    let below : y < (y / suc k + 1) * suc k = (div-lt_iff_lt-mul pos).0 (omega arith) in
    let small : x / suc k < y / suc k + 1 = (div-lt_iff_lt-mul pos).1 (omega (arith, h, below)) in
    omega (arith, small)

pub exact_percent-IsRounded : IsRounded exact_percent
exact_percent-IsRounded = record {
  rising = λ a b n h. div-le (2 * n) (200 * a + n) (200 * b + n) (omega (arith, h));
  whole = λ n h. ap (λ m. m / (2 * n)) (omega arith) ∙ mul-div-mul_right 201 2 h;
}
