-- ===== src/Delivery/Artifacts.antt =====
-- `buildEvidenceArtifacts`: the artifacts of a loop, with the paths and the summaries of the page.
use vibecoding_dofe_ai.Base.{
  ℕ, ◌+◌, Bool, true, false, String, List, [], ◌∷◌, ◌++◌, map, Option, none, some, or_else, is_some,
  ltb, length, filter, concat, decimal, if◌then◌else◌, ◌==◌, string_eq,
}
use vibecoding_dofe_ai.Delivery.Types.{
  Artifact, ArtifactKind, raw_payload, issue_artifact, intake_artifact, spec_artifact,
  shards_artifact, test_matrix_artifact, implementation_artifact, test_artifact, review_artifact,
  global_review_artifact, convergence_pr_artifact, browser_qa_artifact, second_opinion_artifact,
  annotations_artifact,
}

pub record ArtifactIssue : Type 0 where
  pub id : String
  pub raw_payload_ref : Option String
  pub source_channel : String
  pub source_kind : String
  pub submitter_name : Option String
  pub submitter_id : String
  pub priority : String
  pub status : String
  pub acceptance_criteria : ℕ

pub record ArtifactIntake : Type 0 where
  pub id : String
  pub status : String
  pub source_channel : String
  pub source_kind : String

pub record ArtifactSpec : Type 0 where
  pub status : String
  pub version : String

-- A record of a shard: `items` counts its files, commands or issues, `status` is its verdict too.
pub record ArtifactRecord : Type 0 where
  pub id : String
  pub shard_id : String
  pub round : ℕ
  pub items : ℕ
  pub status : String

pub record ArtifactReview : Type 0 where
  pub round : ℕ
  pub verdict : String
  pub issues : ℕ

-- The lists of a report are counted; a list that is absent counts 0.
pub record BrowserQaReport : Type 0 where
  pub id : String
  pub status : String
  pub target_url : String
  pub screenshots : ℕ
  pub console_errors : ℕ
  pub network_failures : ℕ
  pub ignored_network_failures : ℕ
  pub traces : ℕ
  pub visual_diffs : ℕ
  pub handoffs : ℕ

pub record ArtifactOpinion : Type 0 where
  pub id : String
  pub status : String
  pub secondary_status : String
  pub conflict_count : ℕ

pub record TestMatrixSize : Type 0 where
  pub required_tests : ℕ
  pub regression_scope : ℕ

-- `EvidenceArtifactInput`; a list of which only the length is read is a number.
pub record ArtifactInput : Type 0 where
  pub issue : ArtifactIssue
  pub intake : ArtifactIntake
  pub spec_version : String
  pub spec : Option ArtifactSpec
  pub shard_statuses : List String
  pub test_matrix : Option TestMatrixSize
  pub annotations : ℕ
  pub implementation_records : List ArtifactRecord
  pub test_records : List ArtifactRecord
  pub review_records : List ArtifactRecord
  pub global_review : Option ArtifactReview
  pub convergence_commits : Option ℕ
  pub browser_qa_reports : List BrowserQaReport
  pub second_opinion : Option ArtifactOpinion

abbrev artifact :
    (id label : String)
    → ArtifactKind
    → (path : String) → (present : Bool) → (round count : Option ℕ) → (summary : List String)
    → Artifact
artifact id label kind path present round count summary = record {
  id = id;
  label = label;
  kind = kind;
  path = path;
  present = present;
  round = round;
  count = count;
  summary = concat summary;
}

abbrev spec_summary : ArtifactInput → Option ArtifactSpec → List String
spec_summary detail none = "Spec " ∷ detail.spec_version ∷ " has not been generated yet." ∷ []
spec_summary detail (some spec) =
    spec.status
    ∷ " spec "
    ∷ spec.version
    ∷ " maps "
    ∷ decimal detail.issue.acceptance_criteria
    ∷ " initial acceptance criteria."
    ∷ []

abbrev shards_summary : List String → List String
shards_summary [] = "No implementation shards have been decomposed yet." ∷ []
shards_summary (s ∷ rest) =
    decimal (length (filter (λ status. status == "DONE") (s ∷ rest)))
    ∷ "/"
    ∷ decimal (length (s ∷ rest))
    ∷ " shards done; "
    ∷ decimal (length (filter (λ status. status == "IN_PROGRESS") (s ∷ rest)))
    ∷ " in progress."
    ∷ []

abbrev matrix_summary : Option TestMatrixSize → List String
matrix_summary none = "Test matrix is pending until decomposition completes." ∷ []
matrix_summary (some matrix) =
    decimal matrix.required_tests
    ∷ " required tests across "
    ∷ decimal matrix.regression_scope
    ∷ " regression targets."
    ∷ []

abbrev annotations_summary : ℕ → List String
annotations_summary n =
    if ltb 0 n
    then decimal n ∷ " reviewer annotations captured for requirement coverage." ∷ []
    else "No reviewer annotations have been recorded yet." ∷ []

abbrev matrix_count : Option TestMatrixSize → Option ℕ
matrix_count none = none
matrix_count (some matrix) = some matrix.required_tests

abbrev pub plan_artifacts : ArtifactInput → List Artifact
plan_artifacts detail =
    let id = detail.issue.id in
    let issue = detail.issue in
    let intake = detail.intake in
    let shards = length detail.shard_statuses in
    artifact (concat (id ∷ "-raw-payload" ∷ [])) "Raw Payload" raw_payload
      (or_else issue.raw_payload_ref (concat (".loops/intakes/" ∷ intake.id ∷ ".raw.json" ∷ [])))
      true none none
      ("Original "
        ∷ issue.source_channel
        ∷ "/"
        ∷ issue.source_kind
        ∷ " request from "
        ∷ or_else issue.submitter_name issue.submitter_id
        ∷ "."
        ∷ [])
    ∷ artifact (concat (id ∷ "-issue" ∷ [])) "Issue Record" issue_artifact
        (concat (".loops/issues/" ∷ id ∷ ".json" ∷ [])) true none none
        (issue.priority
          ∷ " "
          ∷ issue.status
          ∷ " issue with "
          ∷ decimal issue.acceptance_criteria
          ∷ " initial acceptance criteria."
          ∷ [])
    ∷ artifact (concat (id ∷ "-intake" ∷ [])) "Intake Record" intake_artifact
        (concat (".loops/intakes/" ∷ intake.id ∷ ".json" ∷ [])) true none none
        (intake.status ∷ " intake normalized from " ∷ intake.source_channel ∷ "/"
          ∷ intake.source_kind ∷ "." ∷ [])
    ∷ artifact (concat (id ∷ "-spec" ∷ [])) "Spec" spec_artifact
        (concat (".loops/specs/" ∷ id ∷ "/spec." ∷ detail.spec_version ∷ ".json" ∷ []))
        (is_some detail.spec) none none (spec_summary detail detail.spec)
    ∷ artifact (concat (id ∷ "-shards" ∷ [])) "Shards" shards_artifact
        (concat (".loops/shards/" ∷ id ∷ "/shards.json" ∷ [])) (ltb 0 shards) none (some shards)
        (shards_summary detail.shard_statuses)
    ∷ artifact (concat (id ∷ "-test-matrix" ∷ [])) "Test Matrix" test_matrix_artifact
        (concat (".loops/tests/" ∷ id ∷ "/matrix.json" ∷ [])) (is_some detail.test_matrix) none
        (matrix_count detail.test_matrix) (matrix_summary detail.test_matrix)
    ∷ artifact (concat (id ∷ "-annotations" ∷ [])) "Annotations" annotations_artifact
        (concat (".loops/annotations/" ∷ id ∷ ".json" ∷ [])) (ltb 0 detail.annotations) none
        (some detail.annotations) (annotations_summary detail.annotations)
    ∷ []

abbrev run_path : (issue_id : String) → ArtifactRecord → (file : String) → String
run_path issue_id r file =
    concat (".loops/runs/" ∷ issue_id ∷ "/" ∷ r.shard_id ∷ "/" ∷ decimal r.round ∷ "/" ∷ file ∷ [])

abbrev pub implementation_evidence : String → ArtifactRecord → Artifact
implementation_evidence issue_id r =
    artifact r.id (concat ("Implementation " ∷ r.shard_id ∷ [])) implementation_artifact
      (run_path issue_id r "implementation.json") true (some r.round) (some r.items)
      (r.status
        ∷ " implementation for "
        ∷ r.shard_id
        ∷ "; "
        ∷ decimal r.items
        ∷ " changed files recorded."
        ∷ [])

abbrev pub test_evidence : String → ArtifactRecord → Artifact
test_evidence issue_id r =
    artifact r.id (concat ("Test " ∷ r.shard_id ∷ [])) test_artifact
      (concat (".loops/tests/" ∷ issue_id ∷ "/records/" ∷ r.id ∷ ".json" ∷ [])) true (some r.round)
      (some r.items)
      (r.status
        ∷ " test run for "
        ∷ r.shard_id
        ∷ "; "
        ∷ decimal r.items
        ∷ " commands executed."
        ∷ [])

abbrev pub review_evidence : String → ArtifactRecord → Artifact
review_evidence issue_id r =
    artifact r.id (concat ("Review " ∷ r.shard_id ∷ [])) review_artifact
      (run_path issue_id r "review.json") true (some r.round) (some r.items)
      (r.status ∷ " review for " ∷ r.shard_id ∷ "; " ∷ decimal r.items ∷ " issues recorded." ∷ [])

abbrev pub global_evidence : String → Option ArtifactReview → Artifact
global_evidence issue_id review =
    artifact (concat (issue_id ∷ "-global-review" ∷ [])) "Global Review" global_review_artifact
      (concat (".loops/runs/" ∷ issue_id ∷ "/global-review.json" ∷ [])) (is_some review)
      (elim review [ none ↦ none | some r ↦ some r.round ]) none
      (elim review [
        | none ↦ "Global review has not been run yet." ∷ []
        | some r ↦
            r.verdict ∷ " global review with " ∷ decimal r.issues ∷ " cross-shard issues." ∷ []
      ])

abbrev pub pr_evidence : String → Option ℕ → Artifact
pr_evidence issue_id commits =
    artifact (concat (issue_id ∷ "-convergence-pr" ∷ [])) "Convergence PR" convergence_pr_artifact
      (concat (".loops/runs/" ∷ issue_id ∷ "/convergence-pr.json" ∷ [])) (is_some commits) none
      commits
      (elim commits [
        | none ↦ "Convergence PR evidence is pending until finalization." ∷ []
        | some n ↦ "Convergence package references " ∷ decimal n ∷ " commits." ∷ []
      ])

abbrev pub browser_evidence : String → List BrowserQaReport → Artifact
browser_evidence issue_id [] =
    artifact (concat (issue_id ∷ "-browser-qa" ∷ [])) "Browser QA" browser_qa_artifact
      (concat (".loops/runs/" ∷ issue_id ∷ "/browser-qa" ∷ [])) false none none
      ("Browser QA report has not been run yet." ∷ [])
browser_evidence issue_id (latest ∷ older) =
    artifact latest.id "Browser QA" browser_qa_artifact
      (concat (".loops/runs/" ∷ issue_id ∷ "/browser-qa/" ∷ latest.id ∷ ".json" ∷ [])) true none
      (some (latest.console_errors + latest.network_failures))
      (latest.status
        ∷ " browser QA for "
        ∷ latest.target_url
        ∷ "; "
        ∷ decimal latest.screenshots
        ∷ " screenshots, "
        ∷ decimal latest.traces
        ∷ " traces, "
        ∷ decimal latest.visual_diffs
        ∷ " visual checks, "
        ∷ decimal latest.handoffs
        ∷ " handoffs and "
        ∷ decimal latest.ignored_network_failures
        ∷ " ignored navigation cancels captured."
        ∷ [])

abbrev pub opinion_evidence : String → Option ArtifactOpinion → Artifact
opinion_evidence issue_id none =
    artifact (concat (issue_id ∷ "-second-opinion" ∷ [])) "Second Opinion" second_opinion_artifact
      (concat (".loops/runs/" ∷ issue_id ∷ "/second-opinion.json" ∷ [])) false none none
      ("Second opinion worker has not produced evidence yet." ∷ [])
opinion_evidence issue_id (some opinion) =
    artifact opinion.id "Second Opinion" second_opinion_artifact
      (concat (".loops/runs/" ∷ issue_id ∷ "/second-opinion.json" ∷ [])) true none
      (some opinion.conflict_count)
      (opinion.status ∷ " second opinion; secondary reviewer " ∷ opinion.secondary_status ∷ "."
        ∷ [])

abbrev pub record_artifacts : ArtifactInput → List Artifact
record_artifacts detail =
    map (implementation_evidence detail.issue.id) detail.implementation_records
    ++ (map (test_evidence detail.issue.id) detail.test_records
        ++ map (review_evidence detail.issue.id) detail.review_records)

unfoldable pub build_evidence_artifacts : ArtifactInput → List Artifact
build_evidence_artifacts detail =
    plan_artifacts detail
    ++ (record_artifacts detail
        ++ global_evidence detail.issue.id detail.global_review
          ∷ pr_evidence detail.issue.id detail.convergence_commits
          ∷ browser_evidence detail.issue.id detail.browser_qa_reports
          ∷ opinion_evidence detail.issue.id detail.second_opinion
          ∷ [])
