-- ===== src/Dashboard/Board.antt =====
-- `buildLoopBoard`: each loop in one column, and the columns in order of priority.
use Prim.Native.Nat.{Ordering}
use vibecoding_dofe_ai.Base.{
  ℕ, Bool, true, false, ◌||◌, String, List, [], ◌∷◌, ◌++◌, map, Option, none, some, ltb, concat,
  decimal, if◌then◌else◌, ◌==◌, nat_eq,
}
use vibecoding_dofe_ai.Schema.{
  Phase, phase_0_intake, phase_1_spec, phase_2_review, phase_3_decompose, phase_6_converge,
  phase_7_global_review, phase_8_annotate, is_closed, StateItem, is_v0, Verdict, fail, is_pass,
  is_closed_issue, verdict_text,
}
use vibecoding_dofe_ai.Dashboard.Types.{
  LoopItem, CostItem, Priority, p0, p1, p2, p3, cost_of, is_tripped_item, format_phase, item_phase,
  phase_or_intake, is_paused_loop, is_finalized_loop, verdict_of, has_bad_verdict, href_of, sort_by,
}

pub data ColumnId : Type 0 where
  backlog spec_review running blocked ready_to_ship delivered : ColumnId

pub data Mode : Type 0 where
  plan code_mode review recovery delivered_mode : Mode

pub data LoopGate : Type 0 where
  spec_gate exception_gate release_decision no_human_gate done_gate : LoopGate

pub record BoardItem : Type 0 where
  pub id : String
  pub title : String
  pub href : String
  pub priority : Priority
  pub mode : Mode
  pub human_gate : LoopGate
  pub evidence : String
  pub git_ref : String
  pub pr_state : String
  pub blocker : Option String
  pub meta : String

pub record BoardColumn : Type 0 where
  pub id : ColumnId
  pub items : List BoardItem

abbrev pub in_phases : (Phase → Bool) → LoopItem → Bool
in_phases test item = elim (item_phase item) [ none ↦ false | some p ↦ test p ]

-- `issue.status === 'CLOSED' || state?.phase === 'CLOSED' || state?.finalized`
abbrev pub is_delivered_loop : LoopItem → Bool
is_delivered_loop item =
    is_closed_issue item.issue.status || (in_phases is_closed item || is_finalized_loop item)

abbrev pub is_stuck : LoopItem → Option CostItem → Bool
is_stuck item cost = is_paused_loop item || (is_tripped_item cost || has_bad_verdict item)

abbrev is_early : Phase → Bool
is_early phase_0_intake = true
is_early phase_1_spec = true
is_early _ = false

abbrev pub is_unspecified : Option StateItem → Bool
is_unspecified none = true
is_unspecified (some state) = is_v0 state.spec_version || is_early state.phase

abbrev pub is_spec_phase : Phase → Bool
is_spec_phase phase_2_review = true
is_spec_phase _ = false

abbrev is_shipping : Phase → Bool
is_shipping phase_6_converge = true
is_shipping phase_7_global_review = true
is_shipping phase_8_annotate = true
is_shipping _ = false

abbrev passed_verdict : Option Verdict → Bool
passed_verdict none = false
passed_verdict (some v) = is_pass v

unfoldable pub is_ready_to_ship_candidate : LoopItem → Bool
is_ready_to_ship_candidate item = passed_verdict (verdict_of item) || in_phases is_shipping item

unfoldable pub infer_board_column : LoopItem → Option CostItem → ColumnId
infer_board_column item cost =
    if is_delivered_loop item
    then delivered
    else if is_stuck item cost
    then blocked
    else if is_unspecified item.state
    then backlog
    else if in_phases is_spec_phase item
    then spec_review
    else if is_ready_to_ship_candidate item
    then ready_to_ship
    else running

abbrev failed_verdict : Option Verdict → Bool
failed_verdict (some fail) = true
failed_verdict _ = false

abbrev is_planning : Phase → Bool
is_planning phase_0_intake = true
is_planning phase_1_spec = true
is_planning phase_3_decompose = true
is_planning _ = false

abbrev is_review_phase : Phase → Bool
is_review_phase phase_2_review = true
is_review_phase phase_6_converge = true
is_review_phase phase_7_global_review = true
is_review_phase _ = false

unfoldable pub infer_mode : LoopItem → Mode
infer_mode item =
    if is_delivered_loop item
    then delivered_mode
    else if is_paused_loop item || failed_verdict (verdict_of item)
    then recovery
    else if in_phases is_planning item
    then plan
    else if in_phases is_review_phase item
    then review
    else code_mode

unfoldable pub infer_human_gate : LoopItem → Option CostItem → LoopGate
infer_human_gate item cost =
    if is_delivered_loop item
    then done_gate
    else if is_stuck item cost
    then exception_gate
    else if in_phases is_spec_phase item
    then spec_gate
    else if is_ready_to_ship_candidate item
    then release_decision
    else no_human_gate

abbrev verdict_blocker : Option Verdict → Option String
verdict_blocker none = none
verdict_blocker (some v) =
    if is_pass v then none else some (concat ("Global " ∷ verdict_text v ∷ []))

abbrev pub infer_blocker : LoopItem → Option CostItem → Option String
infer_blocker item cost =
    if is_tripped_item cost
    then some "Cost guard"
    else if is_paused_loop item
    then some "Paused"
    else verdict_blocker (verdict_of item)

abbrev shards_text : Option StateItem → String
shards_text none = "No shards yet"
shards_text (some state) =
    if ltb 0 state.shards_total
    then concat (decimal state.shards_done ∷ "/" ∷ decimal state.shards_total ∷ " shards" ∷ [])
    else "No shards yet"

abbrev pub round_of : Option StateItem → ℕ
round_of none = 0
round_of (some state) = state.round

unfoldable pub board_item : LoopItem → Option CostItem → BoardItem
board_item item cost = record {
  id = item.issue.id;
  title = item.issue.title;
  href = href_of item;
  priority = item.priority;
  mode = infer_mode item;
  human_gate = infer_human_gate item cost;
  evidence = shards_text item.state;
  git_ref = concat ("loops/" ∷ item.issue.id ∷ []);
  pr_state =
      if is_closed_issue item.issue.status || is_finalized_loop item
      then "Ready for audit"
      else if is_ready_to_ship_candidate item
      then "Ready to ship"
      else "Pending PR";
  blocker = infer_blocker item cost;
  meta =
      concat
        (format_phase (phase_or_intake item) ∷ " · round " ∷ decimal (round_of item.state) ∷ []);
}

abbrev pub same_column : ColumnId → ColumnId → Bool
same_column backlog backlog = true
same_column spec_review spec_review = true
same_column running running = true
same_column blocked blocked = true
same_column ready_to_ship ready_to_ship = true
same_column delivered delivered = true
same_column _ _ = false

abbrev pub column_ids : List ColumnId
column_ids = backlog ∷ spec_review ∷ running ∷ blocked ∷ ready_to_ship ∷ delivered ∷ []

abbrev pub empty_column : ColumnId → BoardColumn
empty_column id = record { id = id; items = [] }

-- `columnById.get(id)`, and `column.items.push(...)` on it
abbrev pub push : ColumnId → BoardItem → BoardColumn → BoardColumn
push id item column =
    if same_column id column.id then record column { items = column.items ++ item ∷ [] } else column

abbrev pub priority_rank : Priority → ℕ
priority_rank p0 = 0
priority_rank p1 = 1
priority_rank p2 = 2
priority_rank p3 = 3

abbrev pub is_after : Ordering → Bool
is_after Ordering.gt = true
is_after _ = false

-- `localeCompare`
module _ (compare_titles : String → String → Ordering) where
  abbrev pub later_item : BoardItem → BoardItem → Bool
  later_item a b =
      if priority_rank a.priority == priority_rank b.priority
      then is_after (compare_titles a.title b.title)
      else ltb (priority_rank b.priority) (priority_rank a.priority)

  abbrev pub sort_column : BoardColumn → BoardColumn
  sort_column column = record column { items = sort_by later_item column.items }

  module _ (cost : List CostItem) where
    abbrev pub place : LoopItem → BoardColumn → BoardColumn
    place item column =
        push (infer_board_column item (cost_of cost item.issue.id))
          (board_item item (cost_of cost item.issue.id)) column

    unfoldable pub place_all : List LoopItem → List BoardColumn → List BoardColumn
    place_all [] columns = columns
    place_all (item ∷ items) columns = place_all items (map (place item) columns)

    unfoldable pub build_loop_board : List LoopItem → List BoardColumn
    build_loop_board items = map sort_column (place_all items (map empty_column column_ids))
