-- ===== src/Delivery/Oversight.antt =====
-- What a human has to add before an open loop passes the release gate, and when nobody has to.
use vibecoding_dofe_ai.Base.{
  ◌≡◌, ◌⊎◌, refl, Bool, true, false, String, List, [], ◌∷◌, map, Option, none, some, all, any,
  filter, arith, Bool-cases, Option-cases, inl, inr,
}
use vibecoding_dofe_ai.Delivery.Types.{
  DeliveryItem, GateKind, design, devex, security, GateOverride, ReviewGate, same_kind,
}
use vibecoding_dofe_ai.Delivery.Status.{
  governance_of, is_closed_item, is_finalized, has_closed_phase, is_release_ready,
}
use vibecoding_dofe_ai.Delivery.Opinions.{SecondOpinion}
use vibecoding_dofe_ai.Delivery.Readiness.{build_release_gate_blockers-empty}
use vibecoding_dofe_ai.Delivery.Blockers.{RulesInput, build_release_gate_blockers}
use vibecoding_dofe_ai.Delivery.Gates.{
  product_gate, architecture_gate, code_review_gate, build_release_gate, passes_review, has_pr,
  has_rollback_note, required_kinds, overrides_of, override_of, has_kind, scoped_gates, all_gates,
  security_gate, apply_override, governed_gate, build_review_gates, checklist_of,
}

-- The loop is not closed in any of the places where the gate looks, and has no pull request.
abbrev pub IsOpen : DeliveryItem → Type 0
IsOpen item =
    (is_closed_item item ≡ false)
    × (is_finalized item ≡ false)
    × (has_closed_phase item ≡ false)
    × (has_pr item ≡ false)

-- Required kinds are named, and security is not one of them.
abbrev pub LeavesOut : Option (List GateKind) → GateKind → Type 0
LeavesOut kinds kind =
    (k : GateKind) × (ks : List GateKind) × (kinds ≡ some (k ∷ ks))
    × (any (λ other. same_kind other kind) (k ∷ ks) ≡ false)

-- A human let the gate of this kind pass.
abbrev pub LetsPass : List GateOverride → GateKind → Type 0
LetsPass overrides kind =
    (o : GateOverride) × (override_of overrides kind ≡ some o) × (passes_review o.status ≡ true)

unready : (item : DeliveryItem) → IsOpen item → is_release_ready item ≡ false
unfolding is_release_ready
unready item (a, b, c, d) = rw (a, b, c) refl

noted :
    (item : DeliveryItem) (opinion : Option SecondOpinion)
    → IsOpen item
    → (checklist_of item opinion).rollback_note ≡ true
    → has_rollback_note (governance_of item) ≡ true
unfolding checklist_of
noted item opinion (a, b, c, d) p = ground (arith, a, d, p)

all_last :
    (p : ReviewGate → Bool) (f : ReviewGate → ReviewGate) (a b c d : ReviewGate)
    → all p (map f (a ∷ b ∷ c ∷ d ∷ [])) ≡ true
    → p (f d) ≡ true
all_last p f a b c d h = ground arith

last_filtered :
    (p q : ReviewGate → Bool) (f : ReviewGate → ReviewGate) (a b c d : ReviewGate)
    → q d ≡ true
    → all p (map f (filter q (a ∷ b ∷ c ∷ d ∷ []))) ≡ true
    → p (f d) ≡ true
last_filtered p q f a b c d e h = ground arith

-- A gate that does not pass by itself was let pass.
let_pass :
    (overrides : List GateOverride) (gate : ReviewGate)
    → passes_review gate.status ≡ false
    → passes_review (apply_override overrides gate).status ≡ true
    → LetsPass overrides gate.kind
let_pass overrides gate shut p = elim (Option-cases (override_of overrides gate.kind)) [
  | inl e ↦ let q : passes_review (governed_gate gate none).status ≡ true = rw e at p in absurd cc
  | inr (o, e) ↦ (o, e, (rw e at p))
]

abbrev gate_passes : ReviewGate → Bool
gate_passes gate = passes_review gate.status

module _ (item : DeliveryItem) (shut : passes_review (security_gate item).status ≡ false) where
  last_of :
      (overrides : List GateOverride)
      → all gate_passes (map (apply_override overrides) (all_gates item)) ≡ true
      → LetsPass overrides security
  unfolding all_gates
  last_of overrides h = let_pass overrides (security_gate item) shut (
      all_last gate_passes (apply_override overrides) (product_gate item) (architecture_gate item)
        (code_review_gate item) (security_gate item) h)

  watched :
      (overrides : List GateOverride) (kinds : Option (List GateKind))
      → all gate_passes (map (apply_override overrides) (scoped_gates kinds (all_gates item)))
        ≡ true
      → LeavesOut kinds security ⊎ LetsPass overrides security
  unfolding all_gates
  watched overrides none h = inr (last_of overrides h)
  watched overrides (some []) h = inr (last_of overrides h)
  watched overrides (some (k ∷ ks)) h = elim (Bool-cases (has_kind (k ∷ ks) (security_gate item))) [
    | inl e ↦ inr (
        let_pass overrides (security_gate item) shut (
          last_filtered gate_passes (has_kind (k ∷ ks)) (apply_override overrides)
            (product_gate item) (architecture_gate item) (code_review_gate item)
            (security_gate item) e h))
    | inr e ↦ inl (k, ks, refl, e)
  ]

security-shut :
    (item : DeliveryItem)
    → is_release_ready item ≡ false
    → passes_review (security_gate item).status ≡ false
unfolding security_gate
security-shut item e = rw e refl

reviewed :
    (item : DeliveryItem) (opinion : Option SecondOpinion)
    → (checklist_of item opinion).required_reviews_passed ≡ true
    → all gate_passes (
        map
          (apply_override (overrides_of (governance_of item)))
          (scoped_gates (required_kinds (governance_of item)) (all_gates item)))
      ≡ true
unfolding checklist_of build_review_gates
reviewed item opinion h = h

-- Where nothing blocks the finalize of a loop that is not closed, not finalized and has no pull
-- request, its governance has a rollback note, and either names required gates without the security
-- gate or has an override that lets the security gate pass.
pub build_release_gate_blockers-governed :
    (calls_http : String → Bool) (rules : RulesInput) (resolutions : List (Option String))
    (item : DeliveryItem) (opinion : Option SecondOpinion)
    → IsOpen item
    → build_release_gate_blockers calls_http rules resolutions
        (build_release_gate item opinion)
        opinion
      ≡ []
    → (has_rollback_note (governance_of item) ≡ true)
      × (LeavesOut (required_kinds (governance_of item)) security
          ⊎ LetsPass (overrides_of (governance_of item)) security)
unfolding build_release_gate
build_release_gate_blockers-governed calls_http rules resolutions item opinion open_item h =
    let gate = build_release_gate item opinion in
    let p = build_release_gate_blockers-empty calls_http rules resolutions gate opinion h in
    (
      noted item opinion open_item p.6,
      watched item (security-shut item (unready item open_item)) (overrides_of (governance_of item))
          (required_kinds (governance_of item)) (reviewed item opinion p.3),
    )

-- The kinds for which no gate is made.
abbrev pub is_gateless : GateKind → Bool
is_gateless design = true
is_gateless devex = true
is_gateless _ = false

gateless_shut :
    (kinds : List GateKind) (gate : ReviewGate)
    → all is_gateless kinds ≡ true
    → is_gateless gate.kind ≡ false
    → has_kind kinds gate ≡ false
gateless_shut [] gate h g = refl
gateless_shut (kind ∷ kinds) gate h g =
    ground (arith, apart kind gate.kind, gateless_shut kinds gate)
  where
    apart : (a b : GateKind) → is_gateless a ≡ true → is_gateless b ≡ false → same_kind a b ≡ false
    apart a b p q = ground arith

-- Where the required gates are one or more of the kinds design and devex only, no review gate is
-- made, and the checklist of the release has its required reviews passed, whatever the reviews
-- found.
pub checklist_of-gateless :
    (item : DeliveryItem) (opinion : Option SecondOpinion) (kind : GateKind) (kinds : List GateKind)
    → required_kinds (governance_of item) ≡ some (kind ∷ kinds)
    → all is_gateless (kind ∷ kinds) ≡ true
    → (build_review_gates item ≡ []) × ((checklist_of item opinion).required_reviews_passed ≡ true)
unfolding checklist_of build_review_gates all_gates
checklist_of-gateless item opinion kind kinds e h =
    let a = gateless_shut (kind ∷ kinds) (product_gate item) h refl in
    let b = gateless_shut (kind ∷ kinds) (architecture_gate item) h refl in
    let c = gateless_shut (kind ∷ kinds) (code_review_gate item) h refl in
    let d = gateless_shut (kind ∷ kinds) (security_gate item) h refl in
    (rw (e, a, b, c, d) refl, rw (e, a, b, c, d) refl)
