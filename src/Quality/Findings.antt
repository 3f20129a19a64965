-- ===== src/Quality/Findings.antt =====
-- The findings of a reviewer, one for each fingerprint, and the comparison of two reviewers. The
-- texts' functions and the hash are parameters.
use vibecoding_dofe_ai.Base.{
  ℕ, Bool, true, false, not, String, List, [], ◌∷◌, ◌++◌, map, Option, none, some, length, find,
  filter, is_some, ltb, if◌then◌else◌, ◌==◌, string_eq, nat_eq,
}
use vibecoding_dofe_ai.Schema.{
  Severity, minor, major, critical, ReviewIssue, ReviewRecord, GlobalReviewRecord,
}

-- `LoopSecondOpinionFindingSchema`
pub record Finding : Type 0 where
  pub fingerprint : String
  pub severity : Severity
  pub desc : String
  pub source_evidence_id : Option String

pub record TextTools : Type 0 where
  pub trim : String → String
  pub to_lower_case : String → String
  -- what is neither a letter, a digit nor a Chinese character becomes a blank
  pub plain : String → String
  -- the first 16 hexadecimal digits of the SHA-256
  pub hash : String → String

-- `normalizedDesc || input.desc`
abbrev pub text_or : String → String → String
text_or text other = if text == "" then other else text

abbrev pub desc_fingerprint : TextTools → String → String
desc_fingerprint tools desc =
    tools.hash (text_or (tools.trim (tools.plain (tools.to_lower_case desc))) desc)

unfoldable pub normalize_second_opinion_fingerprint :
    TextTools → (desc : String) → (fingerprint : Option String) → String
normalize_second_opinion_fingerprint tools desc none = desc_fingerprint tools desc
normalize_second_opinion_fingerprint tools desc (some fingerprint) =
    let explicit = tools.trim fingerprint in
    if explicit == "" then desc_fingerprint tools desc else tools.to_lower_case explicit

abbrev pub severity_rank : Severity → ℕ
severity_rank critical = 3
severity_rank major = 2
severity_rank minor = 1

abbrev pub has_fingerprint : String → Finding → Bool
has_fingerprint key finding = finding.fingerprint == key

-- `map.get(key)`, and `map.set(finding.fingerprint, finding)`, which keeps the place of a key.
abbrev pub get_entry : String → List Finding → Option Finding
get_entry key entries = find (has_fingerprint key) entries

abbrev pub set_entry : Finding → List Finding → List Finding
set_entry finding [] = finding ∷ []
set_entry finding (other ∷ rest) =
    let later = set_entry finding rest in
    if other.fingerprint == finding.fingerprint then finding ∷ rest else other ∷ later

-- `!existing || severityRank(...) > severityRank(...)`
abbrev pub is_worse : Finding → Option Finding → Bool
is_worse finding none = true
is_worse finding (some existing) =
    ltb (severity_rank existing.severity) (severity_rank finding.severity)

unfoldable pub dedupe_from : List Finding → List Finding → List Finding
dedupe_from entries [] = entries
dedupe_from entries (finding ∷ rest) =
    dedupe_from
      (if is_worse finding (get_entry finding.fingerprint entries)
        then set_entry finding entries
        else entries)
      rest

unfoldable pub dedupe_findings : List Finding → List Finding
dedupe_findings findings = dedupe_from [] findings

abbrev pub issue_finding : TextTools → (record_id : String) → ReviewIssue → Finding
issue_finding tools record_id issue = record {
  fingerprint = normalize_second_opinion_fingerprint tools issue.desc none;
  severity = issue.severity;
  desc = issue.desc;
  source_evidence_id = some record_id;
}

abbrev pub record_findings : TextTools → List ReviewRecord → List Finding
record_findings tools [] = []
record_findings tools (review ∷ rest) =
    map (issue_finding tools review.id) review.issues ++ record_findings tools rest

abbrev pub global_findings : TextTools → Option GlobalReviewRecord → List Finding
global_findings tools none = []
global_findings tools (some review) = map (issue_finding tools review.id) review.issues

unfoldable pub build_primary_findings :
    TextTools → List ReviewRecord → Option GlobalReviewRecord → List Finding
build_primary_findings tools reviews global_review =
    dedupe_findings (record_findings tools reviews ++ global_findings tools global_review)

-- A finding as the second reviewer hands it over.
pub record RawFinding : Type 0 where
  pub severity : Severity
  pub desc : String
  pub fingerprint : Option String

abbrev pub raw_finding : TextTools → RawFinding → Finding
raw_finding tools raw = record {
  fingerprint = normalize_second_opinion_fingerprint tools raw.desc raw.fingerprint;
  severity = raw.severity;
  desc = raw.desc;
  source_evidence_id = none;
}

unfoldable pub build_secondary_findings : TextTools → List RawFinding → List Finding
build_secondary_findings tools findings = dedupe_findings (map (raw_finding tools) findings)

-- `new Map(findings.map(...))`
unfoldable pub by_fingerprint : List Finding → List Finding → List Finding
by_fingerprint entries [] = entries
by_fingerprint entries (finding ∷ rest) = by_fingerprint (set_entry finding entries) rest

abbrev pub same_severity : Severity → Severity → Bool
same_severity minor minor = true
same_severity major major = true
same_severity critical critical = true
same_severity _ _ = false

-- How a finding of the primary reviewer stands to what the second one has for its fingerprint.
pub data Standing : Type 0 where
  only agrees conflicts : Standing

abbrev pub standing : Finding → Option Finding → Standing
standing finding none = only
standing finding (some other) =
    if same_severity finding.severity other.severity then agrees else conflicts

abbrev pub is_only : Standing → Bool
is_only only = true
is_only _ = false

abbrev pub is_agreement : Standing → Bool
is_agreement agrees = true
is_agreement _ = false

abbrev pub is_conflict : Standing → Bool
is_conflict conflicts = true
is_conflict _ = false

abbrev pub fingerprints : List Finding → List String
fingerprints findings = map (λ (f : Finding). f.fingerprint) findings

-- The keys of the primary map whose standing passes the test.
abbrev pub fingerprints_of : (Standing → Bool) → (primary secondary : List Finding) → List String
fingerprints_of test primary secondary =
    fingerprints
      (filter (λ (f : Finding). test (standing f (get_entry f.fingerprint secondary))) primary)

pub record Comparison : Type 0 where
  pub agreement : List String
  pub primary_only : List String
  pub secondary_only : List String
  pub conflict : List String
  pub agreement_count : ℕ
  pub primary_only_count : ℕ
  pub secondary_only_count : ℕ
  pub conflict_count : ℕ

unfoldable pub compare_second_opinion_findings : (primary secondary : List Finding) → Comparison
compare_second_opinion_findings primary secondary =
    let mine = by_fingerprint [] primary in
    let theirs = by_fingerprint [] secondary in
    let agreement = fingerprints_of is_agreement mine theirs in
    let primary_only = fingerprints_of is_only mine theirs in
    let conflict = fingerprints_of is_conflict mine theirs in
    let secondary_only =
      fingerprints
        (filter (λ (f : Finding). not (is_some (get_entry f.fingerprint mine))) theirs) in
    record {
      agreement = agreement;
      primary_only = primary_only;
      secondary_only = secondary_only;
      conflict = conflict;
      agreement_count = length agreement;
      primary_only_count = length primary_only;
      secondary_only_count = length secondary_only;
      conflict_count = length conflict;
    }
