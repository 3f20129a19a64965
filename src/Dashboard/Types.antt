-- ===== src/Dashboard/Types.antt =====
-- What the dashboard reads of the loops, and the enumerations that it shows.
use vibecoding_dofe_ai.Base.{
  ℕ, suc, zero, ◌-◌, ◌/◌, Bool, true, false, not, String, List, [], ◌∷◌, ◌++◌, Option, none, some,
  or_else, concat, if◌then◌else◌, ◌==◌, string_eq,
}
use vibecoding_dofe_ai.Schema.{
  Issue, IssueStatus, closed_status, archived, rejected_status, Phase, phase_0_intake, phase_1_spec,
  phase_2_review, phase_3_decompose, phase_4_implement, phase_5_review, phase_6_converge,
  phase_7_global_review, phase_8_annotate, closed, paused_phase, StateItem, Verdict, is_pass,
}

pub data RiskLevel : Type 0 where
  critical warning info : RiskLevel

pub data Priority : Type 0 where
  p0 p1 p2 p3 : Priority

pub record GateView : Type 0 where
  pub id : String
  pub second_opinion_passed : Option Bool
  pub blocker : Option String

-- `LoopListItem`
pub record LoopItem : Type 0 where
  pub issue : Issue
  pub priority : Priority
  pub state : Option StateItem
  pub release_gate : Option GateView

pub record CostItem : Type 0 where
  pub issue_id : String
  pub tripped : Bool
  pub calls_remaining : ℕ
  pub tokens_remaining : ℕ

-- `new Map(cost.loops.map(...)).get(id)`: the last entry of a key counts.
abbrev pub cost_of : List CostItem → String → Option CostItem
cost_of [] id = none
cost_of (item ∷ rest) id = elim (cost_of rest id) [
  | some later ↦ some later
  | none ↦ if item.issue_id == id then some item else none
]

abbrev pub is_tripped_item : Option CostItem → Bool
is_tripped_item none = false
is_tripped_item (some item) = item.tripped

abbrev pub priority_text : Priority → String
priority_text p0 = "P0"
priority_text p1 = "P1"
priority_text p2 = "P2"
priority_text p3 = "P3"

abbrev pub status_text : IssueStatus → String
status_text IssueStatus.intake = "INTAKE"
status_text IssueStatus.needs_clarification = "NEEDS_CLARIFICATION"
status_text IssueStatus.open_status = "OPEN"
status_text IssueStatus.in_loop = "IN_LOOP"
status_text closed_status = "CLOSED"
status_text archived = "ARCHIVED"
status_text rejected_status = "REJECTED"

abbrev pub phase_text : Phase → String
phase_text phase_0_intake = "PHASE_0_INTAKE"
phase_text phase_1_spec = "PHASE_1_SPEC"
phase_text phase_2_review = "PHASE_2_REVIEW"
phase_text phase_3_decompose = "PHASE_3_DECOMPOSE"
phase_text phase_4_implement = "PHASE_4_IMPLEMENT"
phase_text phase_5_review = "PHASE_5_REVIEW"
phase_text phase_6_converge = "PHASE_6_CONVERGE"
phase_text phase_7_global_review = "PHASE_7_GLOBAL_REVIEW"
phase_text phase_8_annotate = "PHASE_8_ANNOTATE"
phase_text closed = "CLOSED"
phase_text paused_phase = "PAUSED"

-- `formatPhase`, every phase has a label.
abbrev pub format_phase : Phase → String
format_phase phase_0_intake = "Intake"
format_phase phase_1_spec = "Spec"
format_phase phase_2_review = "Review"
format_phase phase_3_decompose = "Decompose"
format_phase phase_4_implement = "Implement"
format_phase phase_5_review = "Shard Review"
format_phase phase_6_converge = "Converge"
format_phase phase_7_global_review = "Global Review"
format_phase phase_8_annotate = "Annotate"
format_phase closed = "Closed"
format_phase paused_phase = "Paused"

abbrev pub item_phase : LoopItem → Option Phase
item_phase item = elim item.state [ none ↦ none | some state ↦ some state.phase ]

-- `item.state?.phase ?? 'PHASE_0_INTAKE'`
abbrev pub phase_or_intake : LoopItem → Phase
phase_or_intake item = or_else (item_phase item) phase_0_intake

-- `item.state?.updated ?? item.issue.updated`
abbrev pub updated_or_issue : LoopItem → String
updated_or_issue item = elim item.state [ none ↦ item.issue.updated | some state ↦ state.updated ]

abbrev pub is_paused_loop : LoopItem → Bool
is_paused_loop item = elim item.state [ none ↦ false | some state ↦ state.paused ]

abbrev pub is_finalized_loop : LoopItem → Bool
is_finalized_loop item = elim item.state [ none ↦ false | some state ↦ state.finalized ]

abbrev pub verdict_of : LoopItem → Option Verdict
verdict_of item = elim item.state [ none ↦ none | some state ↦ state.global_verdict ]

-- `state?.globalVerdict && state.globalVerdict !== 'PASS'`
abbrev pub has_bad_verdict : LoopItem → Bool
has_bad_verdict item = elim (verdict_of item) [ none ↦ false | some v ↦ not (is_pass v) ]

-- `['CLOSED', 'ARCHIVED', 'REJECTED'].includes(issue.status)`
abbrev pub is_over : IssueStatus → Bool
is_over closed_status = true
is_over archived = true
is_over rejected_status = true
is_over _ = false

abbrev pub href_of : LoopItem → String
href_of item = concat ("/loops/" ∷ item.issue.id ∷ [])

abbrev pub severity_order : RiskLevel → ℕ
severity_order critical = 0
severity_order warning = 1
severity_order info = 2

-- `Math.max(0, Math.floor((now - updated) / 3_600_000))`, 0 for a text that is no time
abbrev pub age_hours : (now : ℕ) → (updated : Option ℕ) → ℕ
age_hours now none = 0
age_hours now (some updated) = (now - updated) / 3600000

module _ {ℓ} {A : Type ℓ} where
  abbrev pub take : ℕ → List A → List A
  take zero xs = []
  take (suc n) [] = []
  take (suc n) (x ∷ xs) = x ∷ take n xs

  -- `sort`, which is stable: `after a b` is `compare(a, b) > 0`.
  abbrev pub insert_by : (after : A → A → Bool) → A → List A → List A
  insert_by after x [] = x ∷ []
  insert_by after x (y ∷ ys) =
      let later = insert_by after x ys in if after x y then y ∷ later else x ∷ y ∷ ys

  unfoldable pub sort_by : (after : A → A → Bool) → List A → List A
  sort_by after [] = []
  sort_by after (x ∷ xs) = insert_by after x (sort_by after xs)

module _ {ℓ κ} {A : Type ℓ} {B : Type κ} where
  abbrev pub flat_map : (A → List B) → List A → List B
  flat_map f [] = []
  flat_map f (x ∷ xs) = f x ++ flat_map f xs
