-- ===== src/Delivery/Status.antt =====
-- The questions that the gates, the recipe and the release gate ask of a loop.
use vibecoding_dofe_ai.Base.{
  ℕ, ◌+◌, Bool, true, false, not, ◌&&◌, ◌||◌, String, List, [], ◌∷◌, map, Option, none, some,
  or_else, ltb, leb, all, filter, concat, if◌then◌else◌, ◌==◌, string_eq,
}
use vibecoding_dofe_ai.Schema.{
  Phase, phase_0_intake, phase_1_spec, phase_2_review, phase_3_decompose, phase_4_implement,
  phase_5_review, phase_6_converge, phase_7_global_review, phase_8_annotate, closed, paused_phase,
  Verdict, is_pass, verdict_text, is_paused_phase, is_closed,
}
use vibecoding_dofe_ai.Delivery.Types.{
  DeliveryItem, DeliveryState, DeliveryDetail, Governance, ReviewEntry, Artifact, ArtifactKind,
  same_artifact,
}

abbrev pub on_state {ℓ} : {A : Type ℓ} → (DeliveryState → Option A) → DeliveryItem → Option A
on_state f item = elim item.state [ none ↦ none | some state ↦ f state ]

abbrev pub on_detail {ℓ} : {A : Type ℓ} → (DeliveryDetail → List A) → DeliveryItem → List A
on_detail f item = elim item.as_detail [ none ↦ [] | some detail ↦ f detail ]

abbrev pub governance_of : DeliveryItem → Option Governance
governance_of item = elim item.as_detail [ none ↦ none | some detail ↦ detail.delivery_governance ]

-- `item.state?.updated ?? item.issue.updated`
abbrev pub updated_of : DeliveryItem → String
updated_of item = or_else (on_state (λ s. s.updated) item) item.issue.updated

abbrev pub phase_of : DeliveryItem → Phase
phase_of item = or_else (on_state (λ s. s.phase) item) phase_0_intake

abbrev pub holds : Option Bool → Bool
holds none = false
holds (some b) = b

abbrev pub is_closed_item : DeliveryItem → Bool
is_closed_item item = item.issue.status == "CLOSED"

abbrev pub is_finalized : DeliveryItem → Bool
is_finalized item = holds (on_state (λ s. some s.finalized) item)

abbrev is_paused_item : DeliveryState → Bool
is_paused_item state =
    state.paused || (elim state.phase [ none ↦ false | some p ↦ is_paused_phase p ])

abbrev verdict_reason : Option Verdict → Option String
verdict_reason none = none
verdict_reason (some v) =
    if is_pass v then none else some (concat ("Global review " ∷ verdict_text v ∷ []))

unfoldable pub delivery_blocked_reason : DeliveryItem → Option String
delivery_blocked_reason item =
    on_state
      (λ state.
        if is_paused_item state then some "Loop is paused" else verdict_reason state.global_verdict)
      item

-- The `order` of the phases, one higher than in the source: PAUSED is -1 there.
abbrev pub phase_order : Phase → ℕ
phase_order paused_phase = 0
phase_order phase_0_intake = 1
phase_order phase_1_spec = 2
phase_order phase_2_review = 3
phase_order phase_3_decompose = 4
phase_order phase_4_implement = 5
phase_order phase_5_review = 6
phase_order phase_6_converge = 7
phase_order phase_7_global_review = 8
phase_order phase_8_annotate = 9
phase_order closed = 10

unfoldable pub phase_at_least : DeliveryItem → Phase → Bool
phase_at_least item phase =
    if is_closed_item item || is_finalized item
    then true
    else leb (phase_order phase) (phase_order (phase_of item))

abbrev has_version : Option String → Bool
has_version none = false
has_version (some version) = not (version == "") && not (version == "v0")

unfoldable pub is_spec_approved : DeliveryItem → Bool
unfolding phase_at_least
is_spec_approved item =
    elim item.spec_status [ none ↦ false | some status ↦ status == "APPROVED" ]
    || (has_version (on_state (λ s. s.spec_version) item) && phase_at_least item phase_3_decompose)

unfoldable pub is_implementation_done : DeliveryItem → Bool
is_implementation_done item =
    let shards_done = or_else (on_state (λ s. s.shards_done) item) 0 in
    let shards_total = or_else (on_state (λ s. s.shards_total) item) 0 in
    ltb 0 shards_total && leb shards_total shards_done

abbrev pub passed_globally : DeliveryItem → Bool
passed_globally item =
    holds (on_state (λ s. elim s.global_verdict [ none ↦ none | some v ↦ some (is_pass v) ]) item)

unfoldable pub is_review_passed : DeliveryItem → Bool
is_review_passed item = is_closed_item item || passed_globally item

abbrev late_phase : Phase → Bool
late_phase phase_7_global_review = true
late_phase phase_8_annotate = true
late_phase closed = true
late_phase _ = false

abbrev newest_passed : DeliveryItem → List String → Bool
newest_passed item [] = is_closed_item item || late_phase (phase_of item)
newest_passed item (status ∷ older) = status == "passed"

unfoldable pub is_browser_qa_passed : DeliveryItem → Bool
is_browser_qa_passed item = newest_passed item (on_detail (λ d. d.browser_qa_statuses) item)

-- `item.state?.phase === 'CLOSED'`
abbrev pub has_closed_phase : DeliveryItem → Bool
has_closed_phase item =
    holds (on_state (λ s. elim s.phase [ none ↦ none | some p ↦ some (is_closed p) ]) item)

unfoldable pub is_release_ready : DeliveryItem → Bool
unfolding is_spec_approved is_implementation_done is_review_passed
is_release_ready item =
    (is_closed_item item || (is_finalized item || has_closed_phase item))
    && (is_spec_approved item && (is_implementation_done item && is_review_passed item))

abbrev some_and_all_pass : List String → Bool
some_and_all_pass [] = false
some_and_all_pass statuses = all (λ s. s == "TEST-PASS") statuses

unfoldable pub tests_all_passed : DeliveryItem → Bool
unfolding is_review_passed
tests_all_passed item = elim item.as_detail [
  | none ↦ is_review_passed item
  | some detail ↦ some_and_all_pass detail.test_statuses
]

abbrev pub sum_of {ℓ} : {A : Type ℓ} → (A → ℕ) → List A → ℕ
sum_of f [] = 0
sum_of f (x ∷ xs) = f x + sum_of f xs

abbrev listed_findings : Option Verdict → ℕ
listed_findings none = 0
listed_findings (some v) = if is_pass v then 0 else 1

unfoldable pub review_findings_count : DeliveryItem → ℕ
review_findings_count item = elim item.as_detail [
  | none ↦ listed_findings (on_state (λ s. s.global_verdict) item)
  | some detail ↦
      sum_of (λ (r : ReviewEntry). r.issues) detail.review_records
      + (elim detail.global_review [ none ↦ 0 | some r ↦ r.issues ])
]

-- `evidenceIdsByKind(item)(kind)`, and the first of them.
abbrev pub evidence_ids : DeliveryItem → ArtifactKind → List String
evidence_ids item kind =
    map (λ (a : Artifact). a.id)
      (filter (λ (a : Artifact). same_artifact a.kind kind)
        (on_detail (λ d. d.evidence_artifacts) item))

abbrev pub first : List String → Option String
first [] = none
first (s ∷ rest) = some s
