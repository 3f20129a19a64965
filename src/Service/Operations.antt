-- ===== src/Service/Operations.antt =====
-- The operations of the API on a loop.
use vibecoding_dofe_ai.Base.{
  Bool, true, false, ◌&&◌, String, [], ◌∷◌, Option, none, some, concat, if◌then◌else◌, ◌==◌,
  string_eq,
}
use vibecoding_dofe_ai.Schema.{
  Spec, SpecStatus, Phase, Detail, ReviewAction, approve, request_revision, reject,
  ReviewSpecRequest, approved, revision_requested, rejected, phase_1_spec, phase_3_decompose,
  closed,
}
use vibecoding_dofe_ai.Store.{
  M, Env, return, throw, exec, call, ◌>>=◌, ◌>>◌, now, get_detail, bad_request, write_spec,
  append_log, spec_state, advance_limit,
}
use vibecoding_dofe_ai.Engine
use vibecoding_dofe_ai.Engine.{AdvancePort}
use vibecoding_dofe_ai.Adapters.{Adapters}
use vibecoding_dofe_ai.Service.Shards.{shard_runner_port}
use vibecoding_dofe_ai.Service.Rounds.{global_review_port, finalize_port}

unfoldable pub generate_spec : Env → Adapters → M Detail
generate_spec env adapters = do
  detail ← get_detail
  Engine.generate_spec env adapters.agent detail
  get_detail

unfoldable pub decompose : Env → Adapters → M Detail
decompose env adapters = do
  detail ← get_detail
  decomposed ← Engine.decompose env adapters.agent detail
  if decomposed then get_detail else return detail

-- `workLock.withIssueAndRepoLock`
unfoldable pub with_issue_and_repo_lock : Adapters → (issue_id : String) → M Detail → M Detail
with_issue_and_repo_lock adapters issue_id run = do
  detail ← get_detail
  call (adapters.acquire_lock issue_id detail.issue.target_repo)
  run

unfoldable pub run_loop : Env → Adapters → (issue_id : String) → M Detail
run_loop env adapters issue_id =
    Engine.run_loop env issue_id (shard_runner_port env adapters issue_id) get_detail
      (with_issue_and_repo_lock adapters issue_id)

unfoldable pub review_global : Env → Adapters → (issue_id : String) → M Detail
review_global env adapters issue_id =
    Engine.review_global env issue_id (global_review_port env adapters issue_id)

unfoldable pub finalize : Env → Adapters → M Detail
finalize env adapters = Engine.finalize env (finalize_port adapters)

unfoldable pub resume_and_read : Env → (issue_id : String) → Detail → M Detail
resume_and_read env issue_id detail = do Engine.apply_resume env issue_id detail; get_detail

-- `advancePort`
unfoldable pub advance_port : Env → Adapters → (issue_id : String) → AdvancePort
advance_port env adapters issue_id = record {
  get_detail = get_detail;
  resume_and_read = resume_and_read env issue_id;
  generate_spec = generate_spec env adapters;
  decompose = decompose env adapters;
  finalize = finalize env adapters;
  review_global = review_global env adapters issue_id;
  run_loop = run_loop env adapters issue_id;
  append_advance_limit_log =
      λ phase max_steps. exec (append_log (advance_limit issue_id phase max_steps));
}

unfoldable pub advance : Env → Adapters → (issue_id : String) → M Detail
advance env adapters issue_id = Engine.advance (advance_port env adapters issue_id)

unfoldable pub reloop : Env → (reviewer notes : Option String) → M Engine.ReloopResponse
reloop env reviewer notes = do detail ← get_detail; Engine.reloop env detail reviewer notes

unfoldable pub reviewed_status : ReviewAction → SpecStatus
reviewed_status approve = approved
reviewed_status reject = rejected
reviewed_status request_revision = revision_requested

unfoldable pub reviewed_phase : ReviewAction → Phase
reviewed_phase approve = phase_3_decompose
reviewed_phase reject = closed
reviewed_phase request_revision = phase_1_spec

abbrev pub is_approve : ReviewAction → Bool
is_approve approve = true
is_approve _ = false

-- The notes of the reviewer stand below the text of the spec.
unfoldable pub annotated_body : String → Option String → String
annotated_body body none = body
annotated_body body (some notes) =
    if notes == "" then body else concat (body ∷ "\n\n## 审核批注\n" ∷ notes ∷ "\n" ∷ [])

-- The part of `reviewSpec` that writes the verdict of the human.
unfoldable pub record_spec_review :
    Env → (issue_id : String) → Detail → Spec → ReviewSpecRequest → M (Unit {0})
unfolding now reviewed_status reviewed_phase annotated_body write_spec append_log
record_spec_review env issue_id detail spec request = do
  updated ← now env
  exec (
      write_spec detail.issue
        (record spec {
          status = reviewed_status request.action;
          approved_by = if is_approve request.action then some request.reviewer else none;
          body = annotated_body spec.body request.notes;
        })
        (record (detail.state) { phase = reviewed_phase request.action; updated = updated }))
  exec (
      append_log
        (spec_state issue_id spec.id (reviewed_status request.action) (some request.reviewer)))

-- The review of a spec that was looked up.
unfoldable pub review_spec_of :
    Env
    → Adapters
    → (issue_id : String) → ReviewSpecRequest
    → (advance_after_approval : Bool) → Detail
    → Option Spec
    → M Detail
review_spec_of env adapters issue_id request advance_after_approval detail none =
    throw (bad_request "Spec must be generated before review")
review_spec_of env adapters issue_id request advance_after_approval detail (some spec) = do
  record_spec_review env issue_id detail spec request
  if is_approve request.action && advance_after_approval
      then advance env adapters issue_id
      else get_detail

unfoldable pub review_spec :
    Env
    → Adapters
    → (issue_id : String) → ReviewSpecRequest
    → (advance_after_approval : Bool) → M Detail
review_spec env adapters issue_id request advance_after_approval = do
  detail ← get_detail
  review_spec_of env adapters issue_id request advance_after_approval detail detail.spec
