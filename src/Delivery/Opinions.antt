-- ===== src/Delivery/Opinions.antt =====
-- The second opinion of a loop, and the policy that decides whether a release needs it.
use vibecoding_dofe_ai.Base.{
  ℕ, Bool, true, false, not, ◌&&◌, ◌||◌, String, List, [], ◌∷◌, ◌++◌, map, Option, none, some,
  or_else, ltb, all, length, concat, decimal, if◌then◌else◌, ◌==◌, nat_eq,
}
use vibecoding_dofe_ai.Schema.{ReviewRecord, GlobalReviewRecord, is_pass}
use vibecoding_dofe_ai.Quality.{
  Finding, TextTools, Comparison, build_primary_findings, compare_second_opinion_findings,
}
use vibecoding_dofe_ai.Delivery.Types.{Owner, codex, claude_code, OpinionPolicy}

pub data OpinionStatus : Type 0 where
  not_required pending passed needs_changes conflict : OpinionStatus

pub data ReviewerStatus : Type 0 where
  not_run pending passed needs_changes : ReviewerStatus

pub data Role : Type 0 where
  primary secondary : Role

pub record OpinionReviewer : Type 0 where
  pub role : Role
  pub reviewer : Owner
  pub status : ReviewerStatus
  pub findings_count : ℕ
  pub findings : List Finding
  pub evidence_ids : List String
  pub summary : String

pub record SecondOpinion : Type 0 where
  pub id : String
  pub status : OpinionStatus
  pub first_reviewer : OpinionReviewer
  pub second_reviewer : OpinionReviewer
  pub comparison : Comparison
  pub required_for_release : Bool
  pub updated : String

pub record OpinionInput : Type 0 where
  pub issue_id : String
  pub issue_updated : String
  pub state_updated : Option String
  pub review_records : List ReviewRecord
  pub global_review : Option GlobalReviewRecord
  pub second_opinion : Option SecondOpinion
  pub policy : Option OpinionPolicy

abbrev pub reviewer_passed : ReviewerStatus → Bool
reviewer_passed ReviewerStatus.passed = true
reviewer_passed _ = false

abbrev pub reviewer_objects : ReviewerStatus → Bool
reviewer_objects ReviewerStatus.needs_changes = true
reviewer_objects _ = false

abbrev pub opinion_objects : OpinionStatus → Bool
opinion_objects OpinionStatus.needs_changes = true
opinion_objects _ = false

abbrev pub governed_status : OpinionPolicy → SecondOpinion → OpinionStatus
governed_status policy report =
    if policy.conflict_human_gate && ltb 0 report.comparison.conflict_count
    then OpinionStatus.conflict
    else if not policy.required_for_release
    then report.status
    else if reviewer_passed report.second_reviewer.status
        && reviewer_passed report.first_reviewer.status
    then OpinionStatus.passed
    else if opinion_objects report.status || reviewer_objects report.first_reviewer.status
    then OpinionStatus.needs_changes
    else OpinionStatus.pending

unfoldable pub apply_second_opinion_policy : Option OpinionPolicy → SecondOpinion → SecondOpinion
apply_second_opinion_policy none report = report
apply_second_opinion_policy (some policy) report = record report {
  status = governed_status policy report;
  required_for_release = policy.required_for_release;
  updated = policy.updated;
}

abbrev all_pass : List ReviewRecord → Bool
all_pass [] = false
all_pass (r ∷ rs) = all (λ (r : ReviewRecord). is_pass r.verdict) (r ∷ rs)

abbrev passes_globally : Option GlobalReviewRecord → Bool
passes_globally none = false
passes_globally (some review) = is_pass review.verdict

abbrev global_id : Option GlobalReviewRecord → List String
global_id none = []
global_id (some review) = review.id ∷ []

abbrev pub primary_evidence_ids : OpinionInput → List String
primary_evidence_ids detail =
    map (λ (r : ReviewRecord). r.id) detail.review_records ++ global_id detail.global_review

abbrev pub primary_status :
    (evidence_ids : ℕ) (findings : ℕ) (primary_passed : Bool) → ReviewerStatus
primary_status evidence_ids findings primary_passed =
    if evidence_ids == 0
    then ReviewerStatus.not_run
    else if ltb 0 findings
    then ReviewerStatus.needs_changes
    else if primary_passed
    then ReviewerStatus.passed
    else ReviewerStatus.pending

abbrev pub secondary_status : Option GlobalReviewRecord → ReviewerStatus
secondary_status none = ReviewerStatus.not_run
secondary_status (some review) = ReviewerStatus.pending

abbrev pub fresh_status :
    (has_conflict required : Bool) (first second : ReviewerStatus) → OpinionStatus
fresh_status has_conflict required first second =
    if has_conflict
    then OpinionStatus.conflict
    else if not required
    then OpinionStatus.not_required
    else if reviewer_passed second && reviewer_passed first
    then OpinionStatus.passed
    else if reviewer_objects first
    then OpinionStatus.needs_changes
    else OpinionStatus.pending

abbrev secondary_summary : ReviewerStatus → String
secondary_summary ReviewerStatus.pending =
    "Claude Code secondary review is not required for release yet; enable the second-opinion worker to compare findings."
secondary_summary _ = "Claude Code secondary review has not run yet."

abbrev primary_summary : (evidence_ids findings : ℕ) → String
primary_summary evidence_ids findings =
    if evidence_ids == 0
    then "Codex primary review has not produced evidence yet."
    else concat (
        "Codex primary review has "
        ∷ decimal findings
        ∷ " finding(s) across shard and global review evidence."
        ∷ [])

abbrev pub required_by : Option OpinionPolicy → Bool
required_by none = false
required_by (some policy) = policy.required_for_release

abbrev pub gated_by : Option OpinionPolicy → Bool
gated_by none = true
gated_by (some policy) = policy.conflict_human_gate

-- The report that is made where none is stored.
unfoldable pub fresh_second_opinion : TextTools → OpinionInput → SecondOpinion
fresh_second_opinion tools detail =
    let ids = primary_evidence_ids detail in
    let findings = build_primary_findings tools detail.review_records detail.global_review in
    let comparison = compare_second_opinion_findings findings [] in
    let passed = passes_globally detail.global_review || all_pass detail.review_records in
    let first = primary_status (length ids) (length findings) passed in
    let second = secondary_status detail.global_review in
    let required = required_by detail.policy in
    let has_conflict = ltb 0 comparison.conflict_count && gated_by detail.policy in
    record {
      id = concat (detail.issue_id ∷ "-second-opinion" ∷ []);
      status = fresh_status has_conflict required first second;
      first_reviewer = record {
        role = primary;
        reviewer = codex;
        status = first;
        findings_count = length findings;
        findings = findings;
        evidence_ids = ids;
        summary = primary_summary (length ids) (length findings);
      };
      second_reviewer = record {
        role = secondary;
        reviewer = claude_code;
        status = second;
        findings_count = 0;
        findings = [];
        evidence_ids = [];
        summary = secondary_summary second;
      };
      comparison = comparison;
      required_for_release = required;
      updated = or_else detail.state_updated detail.issue_updated;
    }

unfoldable pub build_second_opinion : TextTools → OpinionInput → SecondOpinion
build_second_opinion tools detail =
    apply_second_opinion_policy detail.policy
      (or_else detail.second_opinion (fresh_second_opinion tools detail))
