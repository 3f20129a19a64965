-- ===== src/Examples/Delivery.antt =====
-- The theorems on the release gate and the evidence, on one loop.
use vibecoding_dofe_ai.Base.{
  ◌≡◌, ◌≢◌, ◌≤◌, ◌⊎◌, refl, true, false, List, [], ◌∷◌, map, length, none, some, string_eq, nat_eq,
}
use vibecoding_dofe_ai.Evidence.{CoverageItem, accepted, missing}
use vibecoding_dofe_ai.Delivery.{
  all_gates, DeliveryItem, SecondOpinion, design, devex, security, implementation_artifact,
  test_artifact, review_artifact, ReleaseStatus, governance_of, has_rollback_note, required_kinds,
  overrides_of, checklist_of, build_release_gate, build_release_gate_blockers, build_review_gates,
  build_second_opinion, check_rules_compliance, summarize_requirements_coverage,
  aggregate_coverage_summaries, build_evidence_artifacts, is_spec_approved, is_implementation_done,
  is_browser_qa_passed, tests_all_passed, delivery_blocked_reason,
}
use vibecoding_dofe_ai.Delivery.Readiness.{build_release_gate-ready}
use vibecoding_dofe_ai.Delivery.Oversight.{
  LeavesOut, LetsPass, build_release_gate_blockers-governed, checklist_of-gateless,
}
use vibecoding_dofe_ai.Delivery.Verdicts.{build_release_gate-unstored}
use vibecoding_dofe_ai.Delivery.Totals.{
  parts, flatten, parts-summarize_requirements_coverage, aggregate_coverage_summaries-flatten,
}
use vibecoding_dofe_ai.Delivery.Tracing.{ids_by_kind, record_ids, build_evidence_artifacts-traces}
use vibecoding_dofe_ai.Samples.Delivery.{
  sample_item, sample_rules, sample_opinion_input, plain_text, sample_coverage, sample_artifacts,
  exact_percent, exact_percent-IsRounded,
}

unblocked_example :
    build_release_gate_blockers
      (λ text. false)
      sample_rules
      []
      (build_release_gate (sample_item "IN_LOOP" true none) none)
      none
    ≡ []
unfolding build_release_gate build_review_gates checklist_of check_rules_compliance all_gates
    delivery_blocked_reason is_spec_approved is_implementation_done tests_all_passed
    is_browser_qa_passed
unblocked_example =
    build_release_gate-ready (λ text. false) sample_rules [] (sample_item "IN_LOOP" true none) none
      refl refl

governed_example :
    (has_rollback_note (governance_of (sample_item "IN_LOOP" false none)) ≡ true)
    × (LeavesOut (required_kinds (governance_of (sample_item "IN_LOOP" false none))) security
        ⊎ LetsPass (overrides_of (governance_of (sample_item "IN_LOOP" false none))) security)
unfolding build_release_gate build_review_gates checklist_of check_rules_compliance
    build_release_gate_blockers all_gates delivery_blocked_reason is_spec_approved
    is_implementation_done tests_all_passed is_browser_qa_passed
governed_example =
    build_release_gate_blockers-governed (λ text. false) sample_rules []
      (sample_item "IN_LOOP" false none) none (refl, refl, refl, refl) refl

abbrev unwatched : DeliveryItem
unwatched = sample_item "IN_LOOP" false (some (design ∷ devex ∷ []))

gateless_example :
    (build_review_gates unwatched ≡ [])
    × ((checklist_of unwatched none).required_reviews_passed ≡ true)
gateless_example = checklist_of-gateless unwatched none design (devex ∷ []) refl refl

abbrev waiting : DeliveryItem
waiting = sample_item "IN_LOOP" true none

abbrev unheard : SecondOpinion
unheard = build_second_opinion plain_text sample_opinion_input

unstored_example :
    ((build_release_gate waiting (some unheard)).status ≢ ReleaseStatus.ready)
    × (build_release_gate_blockers
          (λ text. false)
          sample_rules
          []
          (build_release_gate waiting none)
          (some unheard)
        ≡ build_release_gate_blockers
            (λ text. false)
            sample_rules
            []
            (build_release_gate waiting none)
            none)
unstored_example =
    build_release_gate-unstored plain_text sample_opinion_input waiting (λ text. false) sample_rules
      [] (build_release_gate waiting none) refl refl

abbrev sample_items : List CoverageItem
sample_items = sample_coverage accepted ∷ sample_coverage missing ∷ []

summary_example :
    (parts (summarize_requirements_coverage exact_percent sample_items) ≡ length sample_items)
    × ((summarize_requirements_coverage exact_percent sample_items).total ≡ length sample_items)
    × ((summarize_requirements_coverage exact_percent sample_items).percent ≤ 100)
summary_example =
    parts-summarize_requirements_coverage exact_percent exact_percent-IsRounded sample_items

aggregate_example :
    aggregate_coverage_summaries exact_percent
      (map (summarize_requirements_coverage exact_percent) (sample_items ∷ [] ∷ sample_items ∷ []))
    ≡ summarize_requirements_coverage exact_percent
        (flatten (sample_items ∷ [] ∷ sample_items ∷ []))
aggregate_example =
    aggregate_coverage_summaries-flatten exact_percent (sample_items ∷ [] ∷ sample_items ∷ [])

traces_example :
    (ids_by_kind implementation_artifact (build_evidence_artifacts sample_artifacts)
      ≡ record_ids sample_artifacts.implementation_records)
    × (ids_by_kind test_artifact (build_evidence_artifacts sample_artifacts)
        ≡ record_ids sample_artifacts.test_records)
    × (ids_by_kind review_artifact (build_evidence_artifacts sample_artifacts)
        ≡ record_ids sample_artifacts.review_records)
traces_example = build_evidence_artifacts-traces sample_artifacts
