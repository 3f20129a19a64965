-- ===== src/Delivery/Report.antt =====
-- `buildDeliveryEvidenceMarkdown`, and what the list and the detail add to a loop.
use vibecoding_dofe_ai.Base.{
  ℕ, Bool, String, List, [], ◌∷◌, ◌++◌, map, Option, none, some, ltb, concat, join, decimal,
  if◌then◌else◌, ◌==◌, string_eq,
}
use vibecoding_dofe_ai.Delivery.Types.{DeliveryItem, ReviewGate, WorkflowRecipe}
use vibecoding_dofe_ai.Delivery.Opinions.{SecondOpinion}
use vibecoding_dofe_ai.Delivery.Gates.{ReleaseGate, build_review_gates, build_release_gate}
use vibecoding_dofe_ai.Delivery.Recipe.{WordTools, build_workflow_recipe}

pub record WorkPackage : Type 0 where
  pub id : String
  pub title : String
  pub status : String
  pub files : List String
  pub tests : String
  pub review : String
  pub commit_sha : Option String
  pub commit_message : Option String

pub record DeliveryRisk : Type 0 where
  pub severity : String
  pub description : String

pub record ReportInput : Type 0 where
  pub issue_id : String
  pub title : String
  pub spec_summary : String
  pub work_packages : List WorkPackage
  pub test_total : ℕ
  pub test_passed : ℕ
  pub test_failed : ℕ
  pub coverage : String
  pub shard_reviews : ℕ
  pub findings : ℕ
  pub global_verdict : String
  pub risks : List DeliveryRisk
  pub cost_tokens : ℕ
  pub cost_calls : ℕ
  pub budget : String
  pub pr_ready : Bool
  pub pr_status : String
  pub first_pass : Bool
  pub runtime_violation_count : ℕ
  pub browser_qa_status : String
  pub second_opinion_status : String

abbrev bullet : (label value : String) → String
bullet label value = concat ("- **" ∷ label ∷ "**: " ∷ value ∷ [])

abbrev text_if : Option String → (String → String) → String
text_if none f = ""
text_if (some s) f = if s == "" then "" else f s

abbrev line_if : Option String → (String → String) → List String
line_if none f = []
line_if (some s) f = if s == "" then [] else f s ∷ []

abbrev files_line : List String → List String
files_line [] = []
files_line (f ∷ rest) = concat ("  - files: " ∷ join ", " (f ∷ rest) ∷ []) ∷ []

-- `cut`: the first 12 characters
module _ (cut : String → String) where
  abbrev pub package_lines : WorkPackage → List String
  package_lines wp =
      concat (
          "- **"
          ∷ wp.id
          ∷ "** "
          ∷ wp.title
          ∷ " — status: "
          ∷ wp.status
          ∷ " · tests: "
          ∷ wp.tests
          ∷ " · review: "
          ∷ wp.review
          ∷ text_if wp.commit_sha (λ sha. concat (" · commit: " ∷ cut sha ∷ []))
          ∷ [])
        ∷ files_line wp.files
      ++ line_if wp.commit_message (λ text. concat ("  - commit message: " ∷ text ∷ []))

  abbrev packages_from : List WorkPackage → List String
  packages_from [] = []
  packages_from (wp ∷ rest) = package_lines wp ++ packages_from rest

  abbrev pub packages_lines : List WorkPackage → List String
  packages_lines [] = "_No work packages recorded._" ∷ "" ∷ []
  packages_lines (wp ∷ rest) = packages_from (wp ∷ rest) ++ "" ∷ []

  abbrev pub risks_lines : List DeliveryRisk → List String
  risks_lines [] = []
  risks_lines (risk ∷ rest) =
      "## Risks" ∷ "" ∷ map (λ (r : DeliveryRisk). bullet r.severity r.description) (risk ∷ rest)
      ++ "" ∷ []

  unfoldable pub build_delivery_evidence_markdown : ReportInput → String
  build_delivery_evidence_markdown input = join "\n" (
      concat ("# Delivery Evidence — " ∷ input.title ∷ [])
        ∷ ""
        ∷ bullet "Issue" input.issue_id
        ∷ bullet "Spec" input.spec_summary
        ∷ bullet "Global verdict" input.global_verdict
        ∷ bullet "PR status" input.pr_status
        ∷ bullet "PR ready" (if input.pr_ready then "yes" else "no")
        ∷ ""
        ∷ "## Work Packages"
        ∷ ""
        ∷ packages_lines input.work_packages
      ++ ("## Tests"
            ∷ ""
            ∷ concat (
                "- "
                ∷ decimal input.test_passed
                ∷ "/"
                ∷ decimal input.test_total
                ∷ " passed · "
                ∷ decimal input.test_failed
                ∷ " failed"
                ∷ [])
            ∷ concat ("- coverage: " ∷ input.coverage ∷ [])
            ∷ ""
            ∷ "## Reviews"
            ∷ ""
            ∷ concat (
                "- "
                ∷ decimal input.shard_reviews
                ∷ " shard reviews · "
                ∷ decimal input.findings
                ∷ " findings"
                ∷ [])
            ∷ concat ("- global verdict: " ∷ input.global_verdict ∷ [])
            ∷ ""
            ∷ "## Cost"
            ∷ ""
            ∷ concat (
                "- tokens: "
                ∷ decimal input.cost_tokens
                ∷ " · calls: "
                ∷ decimal input.cost_calls
                ∷ " · budget: "
                ∷ input.budget
                ∷ [])
            ∷ ""
            ∷ risks_lines input.risks
          ++ ("## Quality Signals"
              ∷ ""
              ∷ bullet "First-pass" (
                  if input.first_pass
                  then "yes (no rework required)"
                  else "no (rework or re-loop recorded)")
              ∷ bullet "Runtime violations" (
                  if ltb 0 input.runtime_violation_count
                  then concat
                      (decimal input.runtime_violation_count ∷ " security exception(s)" ∷ [])
                  else "none recorded")
              ∷ bullet "Browser QA" input.browser_qa_status
              ∷ bullet "Second opinion" input.second_opinion_status
              ∷ ""
              ∷ "---"
              ∷ "_Generated by DofeAI Loops Control Plane. Runtime: Codex CLI / Claude Code CLI._"
              ∷ [])))

pub record DeliveryControls : Type 0 where
  pub workflow_recipe : WorkflowRecipe
  pub review_gates : List ReviewGate
  pub release_gate : ReleaseGate
  pub second_opinion : Option SecondOpinion

unfoldable pub build_delivery_controls :
    WordTools → DeliveryItem → Option SecondOpinion → DeliveryControls
build_delivery_controls tools item second_opinion = record {
  workflow_recipe = build_workflow_recipe tools item;
  review_gates = build_review_gates item;
  release_gate = build_release_gate item second_opinion;
  second_opinion = second_opinion;
}
