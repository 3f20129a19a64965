-- ===== src/Delivery/Verdicts.antt =====
-- The second opinion: where none is stored, and where the policy is applied again.
use vibecoding_dofe_ai.Base.{
  ◌≡◌, ◌≢◌, ap, refl, ◌∙◌, Bool, true, false, not, ◌&&◌, ◌||◌, String, List, [], ◌∷◌, Option, none,
  some, ltb, length, if◌then◌else◌, arith,
}
use vibecoding_dofe_ai.Schema.{GlobalReviewRecord}
use vibecoding_dofe_ai.Delivery.Blockers.{
  RulesInput, is_conflict_status, build_release_gate_blockers,
}
use vibecoding_dofe_ai.Delivery.Readiness.{ready_allows, build_release_gate_blockers-unheard}
use vibecoding_dofe_ai.Quality.{
  build_primary_findings, Finding, TextTools, is_conflict, fingerprints_of, by_fingerprint,
  compare_second_opinion_findings,
}
use vibecoding_dofe_ai.Delivery.Types.{DeliveryItem, OpinionPolicy}
use vibecoding_dofe_ai.Delivery.Opinions.{
  SecondOpinion, OpinionStatus, ReviewerStatus, OpinionInput, reviewer_passed, reviewer_objects,
  opinion_objects, apply_second_opinion_policy, secondary_status, fresh_second_opinion,
  build_second_opinion, required_by,
}
use vibecoding_dofe_ai.Delivery.Gates.{
  ReleaseGate, ReleaseStatus, is_opinion_passed, opinion_allows, build_release_gate,
}

governed_status_again :
    (gated required : Bool) (conflicts : Bool) (both objects : Bool) (status : OpinionStatus)
    → OpinionStatus
governed_status_again gated required conflicts both objects status =
    if gated && conflicts
    then OpinionStatus.conflict
    else if not required
    then status
    else if both
    then OpinionStatus.passed
    else if opinion_objects status || objects
    then OpinionStatus.needs_changes
    else OpinionStatus.pending

idem :
    (gated required conflicts both objects : Bool) (status : OpinionStatus)
    → governed_status_again gated required conflicts both objects
        (governed_status_again gated required conflicts both objects status)
      ≡ governed_status_again gated required conflicts both objects status
unfolding governed_status_again
idem gated required conflicts both objects status = ground arith

pub apply_second_opinion_policy_idem :
    (policy : Option OpinionPolicy) (report : SecondOpinion)
    → apply_second_opinion_policy policy (apply_second_opinion_policy policy report)
      ≡ apply_second_opinion_policy policy report
unfolding apply_second_opinion_policy
apply_second_opinion_policy_idem none report = refl
apply_second_opinion_policy_idem (some policy) report =
    ap
      (λ status. record report {
        status = status;
        required_for_release = policy.required_for_release;
        updated = policy.updated;
      })
      (unfold governed_status_again in
        idem policy.conflict_human_gate policy.required_for_release
          (ltb 0 report.comparison.conflict_count)
          (reviewer_passed report.second_reviewer.status
            && reviewer_passed report.first_reviewer.status)
          (reviewer_objects report.first_reviewer.status) report.status)

-- Against nobody there is no conflict.
conflicts-nobody : (mine : List Finding) → fingerprints_of is_conflict mine [] ≡ []
conflicts-nobody [] = refl
conflicts-nobody (f ∷ rest) = conflicts-nobody rest

no_conflicts :
    (findings : List Finding) → (compare_second_opinion_findings findings []).conflict_count ≡ 0
unfolding compare_second_opinion_findings by_fingerprint
no_conflicts findings = ap length (conflicts-nobody (by_fingerprint [] findings))

silent : (o : Option GlobalReviewRecord) → reviewer_passed (secondary_status o) ≡ false
silent none = refl
silent (some review) = refl

-- The status of a report that nobody stored, by the policy and the primary reviewer.
abbrev unstored_status : Bool → ReviewerStatus → OpinionStatus
unstored_status required primary =
    if not required
    then OpinionStatus.not_required
    else if reviewer_objects primary
    then OpinionStatus.needs_changes
    else OpinionStatus.pending

fresh-status :
    (tools : TextTools) (detail : OpinionInput)
    → ((fresh_second_opinion tools detail).status
        ≡ unstored_status
            (required_by detail.policy)
            (fresh_second_opinion tools detail).first_reviewer.status)
      × ((fresh_second_opinion tools detail).comparison.conflict_count ≡ 0)
      × (reviewer_passed (fresh_second_opinion tools detail).second_reviewer.status ≡ false)
unfolding fresh_second_opinion
fresh-status tools detail =
    let findings = build_primary_findings tools detail.review_records detail.global_review in
    let z = no_conflicts findings in
    let q = silent detail.global_review in (rw (z, q) (ground arith), z, q)

unstored :
    (report : SecondOpinion) (policy : Option OpinionPolicy)
    → report.status ≡ unstored_status (required_by policy) report.first_reviewer.status
    → report.comparison.conflict_count ≡ 0
    → reviewer_passed report.second_reviewer.status ≡ false
    → (is_opinion_passed (apply_second_opinion_policy policy report).status ≡ false)
      × (is_conflict_status (apply_second_opinion_policy policy report).status ≡ false)
      × ((apply_second_opinion_policy policy report).required_for_release
          ≡ (elim policy [ none ↦ report.required_for_release | some p ↦ p.required_for_release ]))
unfolding apply_second_opinion_policy
unstored report none e z q = (ground (arith, e), ground (arith, e), refl)
unstored report (some policy) e z q = (ground (arith, e, z, q), ground (arith, e, z, q), refl)

required_again :
    (policy : Option OpinionPolicy) (fresh : Bool)
    → required_by policy ≡ true
    → (elim policy [ none ↦ fresh | some p ↦ p.required_for_release ]) ≡ true
required_again none fresh h = absurd cc
required_again (some p) fresh h = h

built :
    (tools : TextTools) (detail : OpinionInput)
    → detail.second_opinion ≡ none
    → required_by detail.policy ≡ true
    → (is_opinion_passed (build_second_opinion tools detail).status ≡ false)
      × (is_conflict_status (build_second_opinion tools detail).status ≡ false)
      × ((build_second_opinion tools detail).required_for_release ≡ true)
unfolding build_second_opinion fresh_second_opinion
built tools detail e h =
    let f = fresh-status tools detail in
    let u = unstored (fresh_second_opinion tools detail) detail.policy f.0 f.1 f.2 in
    rw e (u.0, u.1, u.2 ∙ required_again detail.policy _ h)

never_allowed :
    (opinion : SecondOpinion)
    → is_opinion_passed opinion.status ≡ false
    → opinion.required_for_release ≡ true
    → opinion_allows (some opinion) ≡ false
never_allowed opinion p r = ground (arith, p, r)

-- Where the policy requires a second opinion and none is stored, the release gate with the opinion
-- that is built is not ready, but the blockers of finalize are those of a loop that needs no second
-- opinion.
pub build_release_gate-unstored :
    (tools : TextTools) (detail : OpinionInput) (item : DeliveryItem) (calls_http : String → Bool)
    (rules : RulesInput) (resolutions : List (Option String)) (gate : ReleaseGate)
    → detail.second_opinion ≡ none
    → required_by detail.policy ≡ true
    → ((build_release_gate item (some (build_second_opinion tools detail))).status
        ≢ ReleaseStatus.ready)
      × (build_release_gate_blockers calls_http rules resolutions gate
            (some (build_second_opinion tools detail))
          ≡ build_release_gate_blockers calls_http rules resolutions gate none)
build_release_gate-unstored tools detail item calls_http rules resolutions gate e h =
    let opinion = build_second_opinion tools detail in
    let b = built tools detail e h in
    (
      λ ready.
          let yes' = ready_allows item (some opinion) ready in
          let no' = never_allowed opinion b.0 b.2 in cc,
      build_release_gate_blockers-unheard calls_http rules resolutions gate opinion b.1,
    )
