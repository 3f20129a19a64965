-- ===== src/Delivery/Readiness.antt =====
-- The status of the release gate beside the blockers that `finalize` looks at.
use vibecoding_dofe_ai.Base.{
  ◌≡◌, refl, Bool, true, false, not, ◌||◌, String, List, [], ◌∷◌, ◌++◌, Option, none, some, is_some,
  ltb, if◌then◌else◌, arith,
}
use vibecoding_dofe_ai.Delivery.Types.{DeliveryItem}
use vibecoding_dofe_ai.Delivery.Status.{delivery_blocked_reason, is_closed_item, is_finalized}
use vibecoding_dofe_ai.Delivery.Opinions.{SecondOpinion, OpinionStatus}
use vibecoding_dofe_ai.Delivery.Gates.{
  ReleaseGate, ReleaseStatus, Checklist, is_complete, checklist_of, opinion_allows,
  build_release_gate,
}
use vibecoding_dofe_ai.Delivery.Blockers.{
  RulesInput, one_if, nonempty, check_rules_compliance, open_conflicts, is_conflict_status,
  build_release_gate_blockers,
}

module _ (b : Bool) (s : String) (rest : List String) where
  pub one_if-empty : (one_if b s ++ rest) ≡ [] → (b ≡ false) × (rest ≡ [])
  one_if-empty p = ground arith

  one_if-none : b ≡ false → rest ≡ [] → (one_if b s ++ rest) ≡ []
  one_if-none p q = rw p q

not-false : (b : Bool) → not b ≡ false → b ≡ true
not-false true p = refl
not-false false p = absurd cc

not-true : (b : Bool) → b ≡ true → not b ≡ false
not-true b p = rw p refl

empty_of : (xs : List String) → nonempty xs ≡ false → xs ≡ []
empty_of [] p = refl
empty_of (x ∷ xs) p = absurd cc

pub last_one_if : (b : Bool) (s : String) → one_if b s ≡ [] → b ≡ false
last_one_if true s p = absurd cc
last_one_if false s p = refl

complete_of_ready :
    (a b c : Bool)
    → (if a
        then ReleaseStatus.blocked
        else if b
        then ReleaseStatus.shipped
        else if c
        then ReleaseStatus.ready
        else ReleaseStatus.pending)
      ≡ ReleaseStatus.ready
    → c ≡ true
complete_of_ready true b c p = absurd cc
complete_of_ready false true c p = absurd cc
complete_of_ready false false true p = refl
complete_of_ready false false false p = absurd cc

complete_parts :
    (c : Checklist)
    → is_complete c ≡ true
    → (c.spec_approved ≡ true)
      × (c.implementation_evidence ≡ true)
      × (c.tests_passed ≡ true)
      × (c.required_reviews_passed ≡ true)
      × (c.second_opinion_passed ≡ true)
      × (c.browser_qa_passed ≡ true)
      × (c.rollback_note ≡ true)
      × (c.canary_passed ≡ true)
complete_parts c p = (
  ground arith,
  ground arith,
  ground arith,
  ground arith,
  ground arith,
  ground arith,
  ground arith,
  ground arith,
)

no_open_conflicts :
    (resolutions : List (Option String)) (opinion : Option SecondOpinion)
    → opinion_allows opinion ≡ true
    → ltb 0 (open_conflicts resolutions opinion) ≡ false
no_open_conflicts resolutions none p = refl
no_open_conflicts resolutions (some opinion) p =
    settled opinion.required_for_release opinion.status p
  where
    settled :
        (required : Bool) (status : OpinionStatus)
        → opinion_allows
            (some (record opinion { required_for_release = required; status = status }))
          ≡ true
        → ltb 0 (
            open_conflicts resolutions
              (some (record opinion { required_for_release = required; status = status })))
          ≡ false
    settled false status p = refl
    settled true OpinionStatus.passed p = refl
    settled true OpinionStatus.not_required p = absurd cc
    settled true OpinionStatus.pending p = absurd cc
    settled true OpinionStatus.needs_changes p = absurd cc
    settled true OpinionStatus.conflict p = absurd cc

module _ (calls_http : String → Bool) (rules : RulesInput)
    (resolutions : List (Option String)) where
  pub build_release_gate_blockers-empty :
      (gate : ReleaseGate) (opinion : Option SecondOpinion)
      → build_release_gate_blockers calls_http rules resolutions gate opinion ≡ []
      → (gate.checklist.spec_approved ≡ true)
        × (gate.checklist.implementation_evidence ≡ true)
        × (gate.checklist.tests_passed ≡ true)
        × (gate.checklist.required_reviews_passed ≡ true)
        × (ltb 0 (open_conflicts resolutions opinion) ≡ false)
        × (gate.checklist.browser_qa_passed ≡ true)
        × (gate.checklist.rollback_note ≡ true)
        × (gate.checklist.canary_passed ≡ true)
        × (check_rules_compliance calls_http rules ≡ [])
  unfolding build_release_gate_blockers
  build_release_gate_blockers-empty gate opinion h =
      let a = one_if-empty _ _ _ h in
      let b = one_if-empty _ _ _ a.1 in
      let c = one_if-empty _ _ _ b.1 in
      let d = one_if-empty _ _ _ c.1 in
      let e = one_if-empty _ _ _ d.1 in
      let f = one_if-empty _ _ _ e.1 in
      let g = one_if-empty _ _ _ f.1 in
      let k = one_if-empty _ _ _ g.1 in
      (
        not-false _ a.0,
        not-false _ b.0,
        not-false _ c.0,
        not-false _ d.0,
        e.0,
        not-false _ f.0,
        not-false _ g.0,
        not-false _ k.0,
        empty_of _ (last_one_if _ _ k.1),
      )

  -- Where the release gate of a loop is ready, and the loop has no violation of the rules, nothing
  -- blocks its finalize, whatever resolutions of conflicts are stored.
  pub build_release_gate-ready :
      (item : DeliveryItem) (opinion : Option SecondOpinion)
      → (build_release_gate item opinion).status ≡ ReleaseStatus.ready
      → check_rules_compliance calls_http rules ≡ []
      → build_release_gate_blockers calls_http rules resolutions
          (build_release_gate item opinion)
          opinion
        ≡ []
  unfolding build_release_gate build_release_gate_blockers
  build_release_gate-ready item opinion h r =
      let c = checklist_of item opinion in
      let p = complete_parts c (
        complete_of_ready (is_some (delivery_blocked_reason item))
          (is_closed_item item || is_finalized item) (is_complete c) h) in
      let q : opinion_allows opinion ≡ true = unfold checklist_of in p.4 in
      one_if-none _ _ _ (not-true _ p.0) (
        one_if-none _ _ _ (not-true _ p.1) (
          one_if-none _ _ _ (not-true _ p.2) (
            one_if-none _ _ _ (not-true _ p.3) (
              one_if-none _ _ _ (no_open_conflicts resolutions opinion q) (
                one_if-none _ _ _ (not-true _ p.5) (
                  one_if-none _ _ _ (not-true _ p.6)
                    (one_if-none _ _ _ (not-true _ p.7) (rw r refl))))))))

  -- An opinion that is not in conflict is not looked at.
  pub build_release_gate_blockers-unheard :
      (gate : ReleaseGate) (opinion : SecondOpinion)
      → is_conflict_status opinion.status ≡ false
      → build_release_gate_blockers calls_http rules resolutions gate (some opinion)
        ≡ build_release_gate_blockers calls_http rules resolutions gate none
  unfolding build_release_gate_blockers
  build_release_gate_blockers-unheard gate opinion h =
      let e : open_conflicts resolutions (some opinion) ≡ 0 = ground (arith, h) in rw e refl

pub ready_allows :
    (item : DeliveryItem) (opinion : Option SecondOpinion)
    → (build_release_gate item opinion).status ≡ ReleaseStatus.ready
    → opinion_allows opinion ≡ true
unfolding build_release_gate checklist_of
ready_allows item opinion h =
    (complete_parts (checklist_of item opinion) (
      complete_of_ready (is_some (delivery_blocked_reason item))
        (is_closed_item item || is_finalized item) (is_complete (checklist_of item opinion)) h)).4
