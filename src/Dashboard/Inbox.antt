-- ===== src/Dashboard/Inbox.antt =====
-- The inbox of decisions and the operator's focus.
use Prim.Native.Nat.{Ordering}
use vibecoding_dofe_ai.Base.{
  Bool, true, false, ◌||◌, String, List, [], ◌∷◌, ◌++◌, map, Option, none, some, or_else, filter,
  ltb, includes, contains, concat, if◌then◌else◌, ◌==◌, nat_eq, string_eq,
}
use vibecoding_dofe_ai.Schema.{
  Phase, phase_0_intake, phase_6_converge, phase_7_global_review, phase_8_annotate,
}
use vibecoding_dofe_ai.Dashboard.Types.{
  RiskLevel, critical, warning, info, Priority, priority_text, format_phase, severity_order, take,
  sort_by,
}
use vibecoding_dofe_ai.Dashboard.Board.{is_after}

pub data InboxGate : Type 0 where
  product_review architecture_review code_review security_review release_review : InboxGate
  exception_review : InboxGate

pub record ActionItem : Type 0 where
  pub issue_id : String
  pub title : String
  pub action : String
  pub next_action_category : Option String
  pub label : String
  pub priority : Priority
  pub phase : Option Phase
  pub href : String

pub record InboxNotification : Type 0 where
  pub id : String
  pub issue_id : String
  pub kind : String
  pub title : String
  pub status : String
  pub action_href : Option String
  pub created : String

pub data InboxSource : Type 0 where
  from_action from_notification : InboxSource

pub record InboxItem : Type 0 where
  pub id : String
  pub title : String
  pub href : String
  pub source : InboxSource
  pub priority : RiskLevel
  pub gate_kind : InboxGate
  pub label : String
  pub meta : String

abbrev pub is_human_decision : ActionItem → Bool
is_human_decision item =
    elim item.next_action_category [ none ↦ false | some c ↦ c == "decision" ]
    || includes ("review-spec" ∷ "reloop" ∷ []) item.action

abbrev pub human_notification_kinds : List String
human_notification_kinds =
    "SPEC_REVIEW_REQUESTED" ∷ "HUMAN_INTERVENTION" ∷ "COST_GUARD_TRIPPED" ∷ "CONVERGENCE_READY"
    ∷ "SHARD_REDO_LIMIT" ∷ "RELOOP_LIMIT" ∷ "CONTEXT_BUDGET_EXCEEDED" ∷ []

abbrev pub limit_kinds : List String
limit_kinds =
    "COST_GUARD_TRIPPED" ∷ "SHARD_REDO_LIMIT" ∷ "RELOOP_LIMIT" ∷ "CONTEXT_BUDGET_EXCEEDED" ∷ []

abbrev is_named : (String → Bool) → Option String → Bool
is_named test none = false
is_named test (some s) = test s

abbrev is_releasing : Option Phase → Bool
is_releasing (some phase_6_converge) = true
is_releasing (some phase_7_global_review) = true
is_releasing (some phase_8_annotate) = true
is_releasing _ = false

-- `label`: the label in lower case
unfoldable pub infer_review_gate_kind :
    (action kind : Option String) → (label : String) → Option Phase → InboxGate
infer_review_gate_kind action kind label phase =
    if is_named (includes limit_kinds) kind || is_named (λ a. a == "reloop") action
    then exception_review
    else if is_releasing phase
    then release_review
    else if contains "security" label
    then security_review
    else if contains "architecture" label || contains "design" label
    then architecture_review
    else if contains "code" label || contains "implementation" label
    then code_review
    else if contains "release" label || (contains "ship" label || contains "final" label)
    then release_review
    else product_review

-- Lower case, the labels of the locale and `localeCompare`.
pub record DisplayTools : Type 0 where
  pub to_lower_case : String → String
  pub format_label : String → String
  pub format_status : String → String
  pub compare_titles : String → String → Ordering

module _ (tools : DisplayTools) where
  abbrev pub action_entry : ActionItem → InboxItem
  action_entry item = record {
    id = concat ("action-" ∷ item.issue_id ∷ "-" ∷ item.action ∷ []);
    title = item.title;
    href = item.href;
    source = from_action;
    priority = if item.action == "reloop" then critical else warning;
    gate_kind =
        infer_review_gate_kind (some item.action) none (tools.to_lower_case item.label) item.phase;
    label = item.label;
    meta = concat (
        format_phase (or_else item.phase phase_0_intake)
        ∷ " · "
        ∷ priority_text item.priority
        ∷ []);
  }

  abbrev pub notification_entry : InboxNotification → InboxItem
  notification_entry item = record {
    id = concat ("notification-" ∷ item.id ∷ []);
    title = item.title;
    href = or_else item.action_href (concat ("/loops/" ∷ item.issue_id ∷ []));
    source = from_notification;
    priority = if includes limit_kinds item.kind then critical else warning;
    gate_kind = infer_review_gate_kind none (some item.kind) (tools.to_lower_case item.title) none;
    label = tools.format_label item.kind;
    meta = concat (tools.format_status item.status ∷ " · " ∷ item.created ∷ []);
  }

  abbrev pub later_entry : InboxItem → InboxItem → Bool
  later_entry a b =
      if severity_order a.priority == severity_order b.priority
      then is_after (tools.compare_titles a.title b.title)
      else ltb (severity_order b.priority) (severity_order a.priority)

  unfoldable pub build_review_inbox : List ActionItem → List InboxNotification → List InboxItem
  build_review_inbox actions notifications = take 8 (
      sort_by later_entry (
        map action_entry (filter is_human_decision actions)
        ++ map notification_entry (
            filter (λ (n : InboxNotification). includes human_notification_kinds n.kind)
              notifications)))

pub data FocusKind : Type 0 where
  focus_review focus_exception focus_continue focus_create : FocusKind

pub record ExceptionView : Type 0 where
  pub title : String
  pub href : String
  pub action : String
  pub owner : String
  pub reason : String
  pub level : RiskLevel

pub record FocusItem : Type 0 where
  pub kind : FocusKind
  pub title : String
  pub href : String
  pub label : String
  pub meta : String
  pub level : RiskLevel

unfoldable pub build_operator_focus :
    List InboxItem → List ExceptionView → List ActionItem → FocusItem
build_operator_focus (top ∷ reviews) exceptions actions = record {
  kind = focus_review;
  title = top.title;
  href = top.href;
  label = top.label;
  meta = top.meta;
  level = top.priority;
}
build_operator_focus [] (top ∷ exceptions) actions = record {
  kind = focus_exception;
  title = top.title;
  href = top.href;
  label = top.action;
  meta = concat (top.owner ∷ " · " ∷ top.reason ∷ []);
  level = top.level;
}
build_operator_focus [] [] (top ∷ actions) = record {
  kind = focus_continue;
  title = top.title;
  href = top.href;
  label = top.label;
  meta =
      concat
        (format_phase (or_else top.phase phase_0_intake) ∷ " · " ∷ priority_text top.priority ∷ []);
  level = info;
}
build_operator_focus [] [] [] = record {
  kind = focus_create;
  title = "";
  href = "/loops/new";
  label = "";
  meta = "";
  level = info;
}
