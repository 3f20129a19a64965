-- ===== src/Engine/Advance.antt =====
-- `advance`: which transition is next, and the loop that makes one after another.
use vibecoding_dofe_ai.Base.{
  ℕ, zero, suc, ◌+◌, max, not, ◌&&◌, ◌||◌, Option, none, some, length, ltb, is_some, if◌then◌else◌,
}
use vibecoding_dofe_ai.Schema.{
  Spec, Detail, is_closed_issue, is_closed, is_draft, is_approved, is_revision_requested,
  is_decompose, is_converge,
}
use vibecoding_dofe_ai.Store.{M, return, throw, ◌>>=◌, ◌>>◌, bad_request}
use vibecoding_dofe_ai.Engine.Ports.{AdvancePort}
use vibecoding_dofe_ai.Engine.Closing.{verdict_passed}

-- The branches of the body of the loop.
pub data Move : Type 0 where
  resume_loop stop plan_spec refuse break_down finish review run_shards : Move

-- The branches below the check of the spec.
unfoldable pub approved_move : Detail → Move
approved_move detail =
    if not (ltb 0 (length detail.shards)) || is_decompose detail.state.phase
    then break_down
    else if verdict_passed detail.state.global_verdict && not detail.state.finalized
    then finish
    else if is_converge detail.state.phase
    then review
    else if is_some detail.state.global_verdict && not (verdict_passed detail.state.global_verdict)
    then stop
    else run_shards

unfoldable pub spec_move : Detail → Option Spec → Move
unfolding approved_move
spec_move detail none = plan_spec
spec_move detail (some spec) =
    if is_revision_requested spec.status
    then plan_spec
    else if is_draft spec.status
    then stop
    else if is_approved spec.status
    then approved_move detail
    else refuse

unfoldable pub next_move : Detail → Move
unfolding spec_move
next_move detail =
    if detail.state.paused
    then resume_loop
    else if is_closed_issue detail.issue.status || is_closed detail.state.phase
    then stop
    else spec_move detail detail.spec

-- The body of the loop; `next` is its next round.
unfoldable pub make_move : AdvancePort → (next : Detail → M Detail) → Detail → Move → M Detail
make_move port next detail resume_loop = port.resume_and_read detail >>= next
make_move port next detail stop = return detail
make_move port next detail plan_spec = port.generate_spec
make_move port next detail refuse =
    throw (bad_request "Approved spec is required before advancing loop automation")
make_move port next detail break_down = port.decompose >>= next
make_move port next detail finish = port.finalize >>= next
make_move port next detail review = port.review_global >>= next
make_move port next detail run_shards = port.run_loop >>= next

unfoldable pub advance_from : (max_steps steps : ℕ) → AdvancePort → Detail → M Detail
advance_from max_steps zero port detail = do
  port.append_advance_limit_log detail.state.phase max_steps
  return detail
advance_from max_steps (suc steps) port detail =
    make_move port (advance_from max_steps steps port) detail (next_move detail)

unfoldable pub advance_steps : Detail → ℕ
advance_steps detail = max (length detail.shards + 8) 12

unfoldable pub advance : AdvancePort → M Detail
unfolding advance_steps
advance port = do
  detail ← port.get_detail
  advance_from (advance_steps detail) (advance_steps detail) port detail
