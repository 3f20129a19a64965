-- ===== src/Engine/Scheduler.antt =====
-- `runLoop`, `runLoopUnlocked`, `runRunnableShard` and the two repairs of the shard list.
use vibecoding_dofe_ai.Base.{
  ℕ, zero, suc, ◌+◌, ◌*◌, Bool, true, false, ◌&&◌, ◌||◌, String, List, [], ◌∷◌, map, Option, none,
  some, length, filter, all, any, leb, ltb, concat, join, decimal, if◌then◌else◌, ◌==◌, string_eq,
}
use vibecoding_dofe_ai.Schema.{
  Shard, ShardStatus, Annotation, Detail, ReviewShardRequest, Verdict, needs_work, is_test_pass,
  same_verdict, phase_4_implement, phase_6_converge, todo, in_progress, blocked, is_interrupted,
  is_done, shard_status_text, impl_skipped, mark_skipped, verdict_needs_work, coverage_none, high,
}
use vibecoding_dofe_ai.Store.{
  M, Env, return, throw, exec, ◌>>=◌, ◌>>◌, now, bad_request, failure, write_shard_progress,
  write_notification, upsert_state, append_log, scheduler_batch, scheduler_recovered,
  context_budget_exceeded,
}
use vibecoding_dofe_ai.Engine.Ports.{ShardRunnerPort, ReviewOutput, TestReviewOutput}
use vibecoding_dofe_ai.Engine.Phases.{find_runnable_shard, is_terminal}
use vibecoding_dofe_ai.Engine.Spec.{has_approved}

-- `item.id === shardId ? { ...item, status } : item`
abbrev pub with_status : String → ShardStatus → Shard → Shard
with_status shard_id status shard =
    if shard.id == shard_id then record shard { status = status } else shard

unfoldable pub set_status : String → ShardStatus → List Shard → List Shard
set_status shard_id status shards = map (with_status shard_id status) shards

-- The shards that an interruption has left IN_PROGRESS or TIMEOUT.
unfoldable pub interrupted : List Shard → List Shard
interrupted shards = filter (λ shard. is_interrupted shard.status) shards

abbrev pub recovered_shard : List Shard → Shard → Shard
recovered_shard stopped shard =
    if any (λ (item : Shard). item.id == shard.id) stopped
    then record shard { status = todo }
    else shard

unfoldable pub recover_interrupted_shards : Env → (issue_id : String) → Detail → M Bool
unfolding interrupted now write_shard_progress append_log
recover_interrupted_shards env issue_id detail =
    let stopped = interrupted detail.shards in
    if ltb 0 (length stopped)
    then (do
      updated ← now env
      exec (
          write_shard_progress issue_id (join "," (map (λ (s : Shard). s.id) stopped)) "INTERRUPTED"
            "TODO" "loops-scheduler" (map (recovered_shard stopped) detail.shards)
            (record (detail.state) {
              phase = phase_4_implement;
              shards_in_progress = 0;
              paused = false;
              updated = updated;
            })
            none)
      exec (append_log (scheduler_recovered issue_id (map (λ (s : Shard). s.id) stopped)))
      return true)
    else return false

-- The text of the annotation of a blocked shard.
pub blocked_note : Shard → ℕ → String
blocked_note shard context_budget = concat (
    "Shard est_context="
    ∷ decimal shard.est_context
    ∷ " exceeds context_budget="
    ∷ decimal context_budget
    ∷ "; re-decompose before implementation."
    ∷ [])

abbrev pub skipped_annotation : Shard → ℕ → Annotation → Annotation
skipped_annotation shard context_budget annotation =
    if annotation.target == shard.id
    then record annotation {
      impl_status = impl_skipped;
      test_status = mark_skipped;
      verdict = verdict_needs_work;
      coverage = coverage_none;
      risk = high;
      notes = blocked_note shard context_budget;
    }
    else annotation

unfoldable pub block_shard_for_context_budget :
    Env → (issue_id : String) → Detail → Shard → ℕ → M (Unit {0})
unfolding set_status now write_shard_progress append_log write_notification
block_shard_for_context_budget env issue_id detail shard context_budget = do
  updated ← now env
  exec (
      write_shard_progress issue_id shard.id (shard_status_text shard.status) "BLOCKED"
        "loops-scheduler" (set_status shard.id blocked detail.shards)
        (record (detail.state) {
          phase = phase_4_implement;
          shards_in_progress = 0;
          updated = updated;
        })
        (some (map (skipped_annotation shard context_budget) detail.annotations)))
  exec (append_log (context_budget_exceeded issue_id shard.id shard.est_context context_budget))
  exec (write_notification issue_id "CONTEXT_BUDGET_EXCEEDED" "human")

unfoldable pub mark_in_progress : Env → (issue_id : String) → Detail → Shard → M (Unit {0})
unfolding set_status now write_shard_progress
mark_in_progress env issue_id detail shard = do
  started ← now env
  exec (
      write_shard_progress issue_id shard.id (shard_status_text shard.status) "IN_PROGRESS"
        "loops-scheduler" (set_status shard.id in_progress detail.shards)
        (record (detail.state) {
          phase = phase_4_implement;
          shards_in_progress = 1;
          updated = started;
        })
        none)

-- The verdict that is applied: the review's, or NEEDS-WORK if the tests did not hold up.
unfoldable pub shard_verdict : TestReviewOutput → ReviewOutput → Verdict
shard_verdict test_review review =
    if is_test_pass test_review.test_verdict then review.verdict else needs_work

unfoldable pub shard_review_request : TestReviewOutput → ReviewOutput → ReviewShardRequest
unfolding shard_verdict
shard_review_request test_review review =
    let verdict = shard_verdict test_review review in
    let same = same_verdict verdict review.verdict in
    record {
      reviewer = "codex";
      verdict = verdict;
      summary = if same then review.summary else concat ("测试复核未通过：" ∷ test_review.summary ∷ []);
      issues = if same then review.issues else test_review.issues;
      fix_instructions = if same then review.fix_instructions else test_review.fix_instructions;
    }

unfoldable pub run_runnable_shard :
    Env → (issue_id : String) → ShardRunnerPort → Detail → Shard → M (Unit {0})
run_runnable_shard env issue_id port detail shard = do
  mark_in_progress env issue_id detail shard
  impl ← port.run_agent detail.issue shard detail.state.round
  implementation_detail ← port.persist_implementation shard.id impl
  test ← port.run_tests shard.id
  test_review ← port.review_tests implementation_detail.test_matrix test
  review ← port.review shard impl test
  port.apply_review shard.id (shard_review_request test_review review)

-- The variables of the scheduler's loop.
pub record Batch : Type 0 where
  pub detail : Detail
  pub advanced : ℕ
  pub blocked : ℕ
  pub recovered : ℕ

pub record Pick : Type 0 where
  pub shard : Option Shard
  pub batch : Batch

-- A second look at the shards, if interrupted ones were put back.
unfoldable pub pick_requeued : ShardRunnerPort → Batch → (requeued : Bool) → M Pick
pick_requeued port batch false = return (record { shard = none; batch = batch })
pick_requeued port batch true = do
  fresh ← port.read_fresh_detail
  return (record {
    shard = find_runnable_shard fresh.shards;
    batch = record batch { detail = fresh; recovered = batch.recovered + 1 };
  })

unfoldable pub pick_found :
    Env → (issue_id : String) → ShardRunnerPort → Batch → Option Shard → M Pick
pick_found env issue_id port batch (some shard) =
    return (record { shard = some shard; batch = batch })
pick_found env issue_id port batch none =
    recover_interrupted_shards env issue_id batch.detail >>= pick_requeued port batch

unfoldable pub pick_shard : Env → (issue_id : String) → ShardRunnerPort → Batch → M Pick
pick_shard env issue_id port batch =
    pick_found env issue_id port batch (find_runnable_shard batch.detail.shards)

-- The rest of the body of the `while` loop; `next` is its next round.
unfoldable pub run_picked :
    Env
    → (issue_id : String) → ShardRunnerPort
    → (next : Batch → M (Option Batch)) → Batch
    → Option Shard
    → M (Option Batch)
run_picked env issue_id port next batch none = return (some batch)
run_picked env issue_id port next batch (some shard) =
    if leb env.config.context_budget shard.est_context
    then (do
      block_shard_for_context_budget env issue_id batch.detail shard env.config.context_budget
      fresh ← port.read_fresh_detail
      next (record batch { detail = fresh; blocked = batch.blocked + 1 }))
    else do
      run_runnable_shard env issue_id port batch.detail shard
      fresh ← port.read_fresh_detail
      let ended = record batch { detail = fresh; advanced = batch.advanced + 1 }
      if fresh.state.paused then return (some ended) else next ended

-- The `while` loop, with fuel; `none` means that the fuel ran out.
unfoldable pub schedule : ℕ → Env → (issue_id : String) → ShardRunnerPort → Batch → M (Option Batch)
schedule zero env issue_id port batch = return none
schedule (suc fuel) env issue_id port batch =
    if leb env.config.max_parallel batch.advanced then return (some batch) else do
      picked ← pick_shard env issue_id port batch
      run_picked env issue_id port (schedule fuel env issue_id port) picked.batch picked.shard

-- Rounds enough for every shard to be blocked between any two that are run.
unfoldable pub schedule_fuel : Env → Detail → ℕ
schedule_fuel env detail = suc (suc env.config.max_parallel * suc (length detail.shards))

unfoldable pub all_done : List Shard → Bool
all_done shards = ltb 0 (length shards) && all (λ (shard : Shard). is_done shard.status) shards

-- What follows the loop.
unfoldable pub close_batch : Env → (issue_id : String) → ShardRunnerPort → Batch → M Detail
unfolding all_done now upsert_state append_log
close_batch env issue_id port batch =
    if ltb 0 batch.advanced || (ltb 0 batch.blocked || ltb 0 batch.recovered)
    then (do
      exec (
          append_log (
            scheduler_batch issue_id env.config.max_parallel env.config.context_budget
              batch.advanced batch.blocked batch.recovered))
      port.read_fresh_detail)
    else if all_done batch.detail.shards
    then (do
      updated ← now env
      exec (
          upsert_state (record (batch.detail.state) {
            phase = phase_6_converge;
            shards_done = length batch.detail.shards;
            shards_in_progress = 0;
            updated = updated;
          }))
      port.read_fresh_detail)
    else throw (bad_request "No runnable shard is available")

unfoldable pub close_ended : Env → (issue_id : String) → ShardRunnerPort → Option Batch → M Detail
close_ended env issue_id port none = throw (failure "the scheduler did not end")
close_ended env issue_id port (some batch) = close_batch env issue_id port batch

unfoldable pub run_loop_unlocked : Env → (issue_id : String) → ShardRunnerPort → Detail → M Detail
run_loop_unlocked env issue_id port detail =
    if detail.state.paused
    then throw (bad_request "Paused loop cannot be advanced")
    else if has_approved detail.spec
    then (do
      ended ←
          schedule (schedule_fuel env detail) env issue_id port
            (record { detail = detail; advanced = 0; blocked = 0; recovered = 0 })
      close_ended env issue_id port ended)
    else throw (bad_request "Approved spec is required before running loop")

-- `runLoop`: the guard of a closed loop, then the body under the lock of the issue and the repo.
unfoldable pub run_loop :
    Env
    → (issue_id : String) → ShardRunnerPort
    → (get_detail : M Detail) → (with_lock : M Detail → M Detail) → M Detail
unfolding is_terminal
run_loop env issue_id port get_detail with_lock = do
  detail ← get_detail
  if is_terminal detail
      then return detail
      else with_lock (run_loop_unlocked env issue_id port detail)
