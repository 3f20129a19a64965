-- ===== src/Delivery/Tracing.antt =====
-- The ids in the release gate and the steps beside the records of the loop, and the order of the
-- steps.
use vibecoding_dofe_ai.Base.{
  ◌≡◌, ◌∙◌, ap, refl, Bool, true, false, ◌&&◌, ◌||◌, String, List, [], ◌∷◌, ◌++◌, map, Option, none,
  some, is_some, filter, if◌then◌else◌, arith,
}
use vibecoding_dofe_ai.Delivery.Types.{
  Artifact, ArtifactKind, implementation_artifact, test_artifact, review_artifact, same_artifact,
  browser_qa_artifact, second_opinion_artifact, DeliveryItem, StepStatus,
}
use vibecoding_dofe_ai.Delivery.Status.{
  delivery_blocked_reason, is_spec_approved, is_implementation_done, is_review_passed,
  is_release_ready, is_closed_item, is_finalized, has_closed_phase,
}
use vibecoding_dofe_ai.Delivery.Artifacts.{
  ArtifactRecord, ArtifactInput, implementation_evidence, test_evidence, review_evidence,
  build_evidence_artifacts, BrowserQaReport, ArtifactOpinion, browser_evidence, opinion_evidence,
  global_evidence, pr_evidence,
}
use vibecoding_dofe_ai.Delivery.Recipe.{
  spec_review_step, implementation_step, code_review_step, release_gate_step,
}

-- `evidenceIdsByKind` on a list of artifacts.
abbrev pub ids_by_kind : ArtifactKind → List Artifact → List String
ids_by_kind kind artifacts =
    map (λ (a : Artifact). a.id) (filter (λ (a : Artifact). same_artifact a.kind kind) artifacts)

abbrev pub record_ids : List ArtifactRecord → List String
record_ids records = map (λ (r : ArtifactRecord). r.id) records

-- The records of the loop, in the order of their artifacts.
abbrev records : (id : String) → (rs ts qs : List ArtifactRecord) → List Artifact
records id rs ts qs =
    map (implementation_evidence id) rs
    ++ (map (test_evidence id) ts ++ map (review_evidence id) qs)

module _ (id : String) where
  no_implementations :
      (ts qs : List ArtifactRecord) (rest : List Artifact)
      → ids_by_kind implementation_artifact
          ((map (test_evidence id) ts ++ map (review_evidence id) qs) ++ rest)
        ≡ ids_by_kind implementation_artifact rest
  no_implementations (t ∷ ts) qs rest = no_implementations ts qs rest
  no_implementations [] [] rest = refl
  no_implementations [] (q ∷ qs) rest = no_implementations [] qs rest

  implementations :
      (rs ts qs : List ArtifactRecord) (rest : List Artifact)
      → ids_by_kind implementation_artifact (records id rs ts qs ++ rest)
        ≡ record_ids rs ++ ids_by_kind implementation_artifact rest
  implementations [] ts qs rest = no_implementations ts qs rest
  implementations (r ∷ rs) ts qs rest = ap (λ l. r.id ∷ l) (implementations rs ts qs rest)

  no_tests :
      (qs : List ArtifactRecord) (rest : List Artifact)
      → ids_by_kind test_artifact (map (review_evidence id) qs ++ rest)
        ≡ ids_by_kind test_artifact rest
  no_tests [] rest = refl
  no_tests (q ∷ qs) rest = no_tests qs rest

  tests :
      (rs ts qs : List ArtifactRecord) (rest : List Artifact)
      → ids_by_kind test_artifact (records id rs ts qs ++ rest)
        ≡ record_ids ts ++ ids_by_kind test_artifact rest
  tests (r ∷ rs) ts qs rest = tests rs ts qs rest
  tests [] [] qs rest = no_tests qs rest
  tests [] (t ∷ ts) qs rest = ap (λ l. t.id ∷ l) (tests [] ts qs rest)

  reviews :
      (rs ts qs : List ArtifactRecord) (rest : List Artifact)
      → ids_by_kind review_artifact (records id rs ts qs ++ rest)
        ≡ record_ids qs ++ ids_by_kind review_artifact rest
  reviews (r ∷ rs) ts qs rest = reviews rs ts qs rest
  reviews [] (t ∷ ts) qs rest = reviews [] ts qs rest
  reviews [] [] [] rest = refl
  reviews [] [] (q ∷ qs) rest = ap (λ l. q.id ∷ l) (reviews [] [] qs rest)

-- The four artifacts at the end are of other kinds.
of_other_kinds :
    (id : String) (g p : Artifact) (reports : List BrowserQaReport) (o : Option ArtifactOpinion)
    (kind : ArtifactKind)
    → same_artifact g.kind kind ≡ false
    → same_artifact p.kind kind ≡ false
    → same_artifact browser_qa_artifact kind ≡ false
    → same_artifact second_opinion_artifact kind ≡ false
    → ids_by_kind kind (g ∷ p ∷ browser_evidence id reports ∷ opinion_evidence id o ∷ []) ≡ []
of_other_kinds id g p [] none kind a b c d = rw (a, b, c, d) refl
of_other_kinds id g p [] (some o) kind a b c d = rw (a, b, c, d) refl
of_other_kinds id g p (r ∷ rs) none kind a b c d = rw (a, b, c, d) refl
of_other_kinds id g p (r ∷ rs) (some o) kind a b c d = rw (a, b, c, d) refl

append_nil : (xs ys : List String) → ys ≡ [] → xs ++ ys ≡ xs
append_nil [] ys e = e
append_nil (x ∷ xs) ys e = ap (λ l. x ∷ l) (append_nil xs ys e)

-- The ids of the evidence artifacts of the kinds implementation, test and review record are the ids
-- of these records of the loop, each once and in their order.
pub build_evidence_artifacts-traces :
    (detail : ArtifactInput)
    → (ids_by_kind implementation_artifact (build_evidence_artifacts detail)
        ≡ record_ids detail.implementation_records)
      × (ids_by_kind test_artifact (build_evidence_artifacts detail)
          ≡ record_ids detail.test_records)
      × (ids_by_kind review_artifact (build_evidence_artifacts detail)
          ≡ record_ids detail.review_records)
unfolding build_evidence_artifacts
build_evidence_artifacts-traces detail =
    let id = detail.issue.id in
    let g = global_evidence id detail.global_review in
    let p = pr_evidence id detail.convergence_commits in
    let reports = detail.browser_qa_reports in
    let o = detail.second_opinion in
    let rs = detail.implementation_records in
    let ts = detail.test_records in
    let qs = detail.review_records in
    (
      implementations id rs ts qs _
          ∙ append_nil _ _
              (of_other_kinds id g p reports o implementation_artifact refl refl refl refl),
      tests id rs ts qs _
          ∙ append_nil _ _ (of_other_kinds id g p reports o test_artifact refl refl refl refl),
      reviews id rs ts qs _
          ∙ append_nil _ _ (of_other_kinds id g p reports o review_artifact refl refl refl refl),
    )

-- Where the last gate is passed, the steps before it are.
release_parts :
    (stopped ready closing : Bool)
    → (if stopped
        then StepStatus.blocked
        else if ready
        then StepStatus.passed
        else (if closing then StepStatus.current else StepStatus.pending))
      ≡ StepStatus.passed
    → (stopped ≡ false) × (ready ≡ true)
release_parts stopped ready closing h = (ground arith, ground arith)

and_parts :
    (ended approved done reviewed : Bool)
    → (ended && (approved && (done && reviewed))) ≡ true
    → (approved ≡ true) × (done ≡ true) × (reviewed ≡ true)
and_parts ended approved done reviewed h = (ground arith, ground arith, ground arith)

ready_parts :
    (item : DeliveryItem)
    → is_release_ready item ≡ true
    → (is_spec_approved item ≡ true)
      × (is_implementation_done item ≡ true)
      × (is_review_passed item ≡ true)
unfolding is_release_ready
ready_parts item h =
    and_parts (is_closed_item item || (is_finalized item || has_closed_phase item)) _ _ _ h

-- Where the release gate step of a recipe is passed, its steps of spec review, implementation and
-- code review are passed too.
pub release_gate_step-passes :
    (item : DeliveryItem)
    → (release_gate_step item).status ≡ StepStatus.passed
    → ((spec_review_step item).status ≡ StepStatus.passed)
      × ((implementation_step item).status ≡ StepStatus.passed)
      × ((code_review_step item).status ≡ StepStatus.passed)
unfolding release_gate_step spec_review_step implementation_step code_review_step
release_gate_step-passes item h =
    let p = release_parts (is_some (delivery_blocked_reason item)) (is_release_ready item) _ h in
    let q = ready_parts item p.1 in (rw (p.0, q.0) refl, rw (p.0, q.1) refl, rw (p.0, q.2) refl)
