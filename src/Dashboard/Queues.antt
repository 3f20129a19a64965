-- ===== src/Dashboard/Queues.antt =====
-- The totals of the page, the queue of risks, the queue of stale loops and the conflicts of opinion.
use vibecoding_dofe_ai.Base.{
  ℕ, ◌+◌, max, Bool, true, false, not, ◌&&◌, ◌||◌, String, List, [], ◌∷◌, ◌++◌, map, Option, none,
  some, or_else, filter, length, ltb, leb, concat, decimal, if◌then◌else◌, ◌==◌, string_eq,
}
use vibecoding_dofe_ai.Schema.{
  IssueStatus, in_loop, Phase, phase_6_converge, phase_7_global_review, phase_8_annotate,
  is_closed_issue, is_paused_phase, Verdict, fail,
}
use vibecoding_dofe_ai.Dashboard.Types.{
  LoopItem, CostItem, RiskLevel, critical, warning, info, Priority, p0, p1, GateView, cost_of,
  is_tripped_item, status_text, phase_text, format_phase, item_phase, phase_or_intake,
  updated_or_issue, is_paused_loop, verdict_of, has_bad_verdict, is_over, href_of, age_hours, take,
  sort_by, flat_map,
}
use vibecoding_dofe_ai.Dashboard.Board.{in_phases, round_of}
use vibecoding_dofe_ai.Dashboard.Inbox.{InboxSource, from_action, InboxGate, release_review}

pub record Overview : Type 0 where
  pub active : ℕ
  pub attention : ℕ
  pub closed_loops : ℕ
  pub in_loop_count : ℕ
  pub min_calls_remaining : ℕ
  pub min_tokens_remaining : ℕ
  pub paused_count : ℕ
  pub max_phase_count : ℕ
  pub total : ℕ

abbrev is_in_loop : IssueStatus → Bool
is_in_loop in_loop = true
is_in_loop _ = false

abbrev is_paused_anyhow : LoopItem → Bool
is_paused_anyhow item = is_paused_loop item || in_phases is_paused_phase item

abbrev is_urgent : Priority → Bool
is_urgent p0 = true
is_urgent _ = false

abbrev has_failed : Option Verdict → Bool
has_failed (some fail) = true
has_failed _ = false

abbrev minimum : List ℕ → ℕ
minimum [] = 0
minimum (n ∷ []) = n
minimum (n ∷ m ∷ rest) = let least = minimum (m ∷ rest) in if leb n least then n else least

-- `phaseCounts`
abbrev pub phase_count : List LoopItem → String → ℕ
phase_count items phase = length (filter (λ item. phase_text (phase_or_intake item) == phase) items)

abbrev largest : List ℕ → ℕ
largest [] = 1
largest (n ∷ rest) = max n (largest rest)

unfoldable pub aggregate_loops :
    List LoopItem → List CostItem → (listed_total : Option ℕ) → Overview
aggregate_loops items cost listed_total =
    let paused_items = filter is_paused_anyhow items in
    let tripped_items = filter (λ (c : CostItem). c.tripped) cost in
    record {
      active = length (filter (λ (i : LoopItem). not (is_over i.issue.status)) items);
      attention =
          length paused_items
          + length tripped_items
          + length
              (filter (λ (i : LoopItem). is_urgent i.priority || has_failed (verdict_of i)) items);
      closed_loops = length (filter (λ (i : LoopItem). is_closed_issue i.issue.status) items);
      in_loop_count = length (filter (λ (i : LoopItem). is_in_loop i.issue.status) items);
      min_calls_remaining = minimum (map (λ (c : CostItem). c.calls_remaining) cost);
      min_tokens_remaining = minimum (map (λ (c : CostItem). c.tokens_remaining) cost);
      paused_count = length paused_items;
      max_phase_count =
          largest
            (map (λ (i : LoopItem). phase_count items (phase_text (phase_or_intake i))) items);
      total = or_else listed_total (length items);
    }

pub record RiskItem : Type 0 where
  pub id : String
  pub title : String
  pub href : String
  pub level : RiskLevel
  pub reason : String
  pub meta : String

abbrev risk : LoopItem → (suffix : String) → RiskLevel → (reason meta : String) → RiskItem
risk item suffix level reason meta = record {
  id = concat (item.issue.id ∷ suffix ∷ []);
  title = item.issue.title;
  href = href_of item;
  level = level;
  reason = reason;
  meta = meta;
}

abbrev risk_if : Bool → RiskItem → List RiskItem
risk_if b r = if b then r ∷ [] else []

abbrev calls_text : Option CostItem → String
calls_text none = ""
calls_text (some cost) = concat (decimal cost.calls_remaining ∷ " calls remaining" ∷ [])

abbrev priority_risk : LoopItem → Priority → List RiskItem
priority_risk item p0 =
    risk item "-priority" critical "P0 priority" (status_text item.issue.status) ∷ []
priority_risk item p1 =
    risk item "-priority" warning "P1 priority" (status_text item.issue.status) ∷ []
priority_risk item _ = []

unfoldable pub risks_of : LoopItem → Option CostItem → List RiskItem
risks_of item cost =
    risk_if (is_paused_loop item)
      (risk item "-paused" critical "Paused" (phase_text (phase_or_intake item)))
    ++ (risk_if (is_tripped_item cost)
          (risk item "-cost" critical "Cost guard tripped" (calls_text cost))
        ++ (risk_if (has_bad_verdict item) (
              risk item "-verdict" warning "Global review needs work"
                (concat ("round " ∷ decimal (round_of item.state) ∷ [])))
            ++ priority_risk item item.priority))

unfoldable pub build_risk_queue : List LoopItem → List CostItem → List RiskItem
build_risk_queue items cost =
    take 6 (flat_map (λ (item : LoopItem). risks_of item (cost_of cost item.issue.id)) items)

pub record AgingItem : Type 0 where
  pub id : String
  pub title : String
  pub href : String
  pub level : RiskLevel
  pub age : ℕ
  pub phase : Phase
  pub updated : String

abbrev pub warning_hours : ℕ
warning_hours = 24

abbrev pub critical_hours : ℕ
critical_hours = 72

abbrev pub aging_level : ℕ → RiskLevel
aging_level age =
    if leb critical_hours age then critical else if leb warning_hours age then warning else info

pub record ConflictItem : Type 0 where
  pub id : String
  pub title : String
  pub href : String
  pub source : InboxSource
  pub priority : RiskLevel
  pub gate_kind : InboxGate
  pub label : String
  pub meta : String
  pub owner : String
  pub sla_hours : ℕ
  pub age : ℕ
  pub evidence : Option String

abbrev is_convergence : Phase → Bool
is_convergence phase_6_converge = true
is_convergence phase_7_global_review = true
is_convergence phase_8_annotate = true
is_convergence _ = false

abbrev opinion_failed : Option GateView → Bool
opinion_failed none = false
opinion_failed (some gate) = elim gate.second_opinion_passed [ none ↦ false | some b ↦ not b ]

abbrev gate_evidence : Option GateView → Option String
gate_evidence none = none
gate_evidence (some gate) = elim gate.blocker [ none ↦ some gate.id | some b ↦ some b ]

-- `formatPhase(item.state?.phase ?? '')`
abbrev phase_label : Option Phase → String
phase_label none = ""
phase_label (some phase) = format_phase phase

-- `time_of`: the milliseconds of a text, none where it is no time
module _ (time_of : String → Option ℕ) (now : ℕ) where
  abbrev pub aging_item : LoopItem → AgingItem
  aging_item item =
      let age = age_hours now (time_of (updated_or_issue item)) in
      record {
        id = concat (item.issue.id ∷ "-aging" ∷ []);
        title = item.issue.title;
        href = href_of item;
        level = aging_level age;
        age = age;
        phase = phase_or_intake item;
        updated = updated_or_issue item;
      }

  abbrev pub younger : AgingItem → AgingItem → Bool
  younger a b = ltb a.age b.age

  unfoldable pub build_aging_queue : List LoopItem → List AgingItem
  build_aging_queue items = take 6 (
      sort_by younger (
        filter (λ (item : AgingItem). leb warning_hours item.age)
          (map aging_item (filter (λ (i : LoopItem). not (is_over i.issue.status)) items))))

  abbrev pub is_conflicted : LoopItem → Bool
  is_conflicted item = is_convergence (phase_or_intake item) && opinion_failed item.release_gate

  abbrev pub conflict_item : LoopItem → ConflictItem
  conflict_item item =
      let age = age_hours now (time_of (updated_or_issue item)) in
      record {
        id = concat (item.issue.id ∷ "-second-opinion-conflict" ∷ []);
        title = item.issue.title;
        href = href_of item;
        source = from_action;
        priority = if leb 24 age then critical else warning;
        gate_kind = release_review;
        label = "Second opinion conflict";
        meta = concat (
            "Phase "
            ∷ phase_label (item_phase item)
            ∷ " · "
            ∷ (if opinion_failed item.release_gate then "1" else "0")
            ∷ " conflict(s) · SLA 24h"
            ∷ []);
        owner = "Release reviewer";
        sla_hours = 24;
        age = age;
        evidence = gate_evidence item.release_gate;
      }

  unfoldable pub build_second_opinion_conflict_items : List LoopItem → List ConflictItem
  build_second_opinion_conflict_items items = map conflict_item (filter is_conflicted items)
