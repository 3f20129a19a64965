-- ===== src/Examples.antt =====
-- The theorems at work on the sample loop: its review, its end, and the places where it waits.
pub mod Locks
pub mod Delivery
pub mod Dashboard
pub mod Doctor
pub mod Quality
pub mod Remote
pub mod Targets
pub mod Triggers
use vibecoding_dofe_ai.Base.{
  ◌+◌, ◌≡◌, refl, true, false, List, [], ◌∷◌, some, All, any, arith, decimal, inl, ◌||◌,
}
use mathlib.Core.Path.{subst}
use vibecoding_dofe_ai.Schema.{
  implemented, closed_status, Shard, StateItem, numbered, done_status, is_interrupted, is_closed,
  is_closed_issue, todo, paused_phase, phase_3_decompose, phase_5_review, is_done, is_open,
}
use vibecoding_dofe_ai.Store.{
  World, done, Reply, answer, refusal, final, read_detail, read_spec, write_spec, append_log,
  advance_limit, resume_interrupted, tick,
}
use vibecoding_dofe_ai.Engine.{
  schedule, schedule_fuel, is_terminal, Decomposition, advance_steps, apply_cost_guard,
  has_approved, next_move, find_runnable_shard, dependencies_done,
}
use vibecoding_dofe_ai.Evidence.{CoverageItem, build_requirements_coverage}
use vibecoding_dofe_ai.ShardState.{record_review, apply_review}
use vibecoding_dofe_ai.Service
use vibecoding_dofe_ai.Service.{is_covered}
use vibecoding_dofe_ai.Ledger.{IsConsistent, IsFresh}
use vibecoding_dofe_ai.Ledger.Verdicts.{apply_review-Keeps}
use vibecoding_dofe_ai.Ledger.Rounds.{StartsOpen}
use vibecoding_dofe_ai.Ledger.Batches.{run_loop-Refreshes}
use vibecoding_dofe_ai.Ledger.Requests.{advance-Refreshes}
use vibecoding_dofe_ai.Ledger.Reach.{
  judge_shard, go_on, serve, created, served, serve-IsConsistent, Reachable-IsConsistent,
}
use vibecoding_dofe_ai.Ending.Scheduler.{has_ended, schedule-Ends}
use vibecoding_dofe_ai.Rules.Closing.{finalize-closes}
use vibecoding_dofe_ai.Rules.Counting.{IsCounted, record_review-IsCounted}
use vibecoding_dofe_ai.Rules.Evidence.{IsEvident, collect_global_evidence_issues_complete}
use vibecoding_dofe_ai.Rules.Gates.{
  next_move-approved, apply_review-untested, finalize-IsRefused, closed-untouched, IsRefused,
}
use vibecoding_dofe_ai.Rules.Limits.{
  apply_cost_guard-pauses, apply_cost_guard-passes, resume_interrupted-clears,
}
use vibecoding_dofe_ai.Rules.Picking.{
  find_runnable_shard-IsReady, advance-stuck, read_spec-write_spec,
}
use vibecoding_dofe_ai.Samples.{
  sample_implementation, sample_env, sample_issue, sample_spec, sample_shard, sample_state,
  new_world, tested_world, untested_world, stuck_world, closed_world, interrupted_world,
  sample_agent, sample_adapters, pass_request, reviewed_world, ready_adapters, passed_world,
}

abbrev answered_shards : Reply Decomposition → List Shard
answered_shards (answer parts) = parts.shards
answered_shards (refusal e) = []

sample-StartsOpen : StartsOpen sample_agent
sample-StartsOpen issue spec w parts e =
    subst (λ r. All (λ (s : Shard). is_done s.status ≡ false) (answered_shards r)) e (refl, tt)

pub tested-IsConsistent : IsConsistent sample_env tested_world
tested-IsConsistent = record {
  sound = record { counted = λ p. refl; within = omega arith; proven = (λ d. cc, tt) };
}

reachable_example :
    IsConsistent sample_env (serve sample_env sample_adapters "issue-7" go_on new_world)
reachable_example =
    Reachable-IsConsistent sample_env sample_adapters "issue-7" sample-StartsOpen
      (served new_world go_on (created new_world refl refl))

serve_example :
    IsConsistent sample_env
      (serve sample_env sample_adapters "issue-7" (judge_shard "shard-1" pass_request) tested_world)
serve_example =
    serve-IsConsistent sample_env sample_adapters "issue-7" sample-StartsOpen
      (judge_shard "shard-1" pass_request) tested_world tested-IsConsistent

apply_review_example :
    IsConsistent sample_env (
      final (apply_review sample_env sample_adapters "issue-7" "shard-1" pass_request tested_world))
apply_review_example =
    apply_review-Keeps sample_env sample_adapters "issue-7" "shard-1" pass_request tested_world
      tested-IsConsistent

run_loop_example :
    IsFresh sample_env (Service.run_loop sample_env sample_adapters "issue-7" tested_world)
run_loop_example =
    run_loop-Refreshes sample_env sample_adapters "issue-7" tested_world tested-IsConsistent

schedule_example :
    has_ended (
      schedule
        (schedule_fuel sample_env (read_detail tested_world))
        sample_env
        "issue-7"
        (Service.shard_runner_port sample_env sample_adapters "issue-7")
        (record { detail = read_detail tested_world; advanced = 0; blocked = 0; recovered = 0 })
        tested_world)
    ≡ true
schedule_example =
    schedule-Ends sample_env sample_adapters "issue-7" tested_world tested-IsConsistent

advance_example :
    IsFresh sample_env (Service.advance sample_env sample_adapters "issue-7" tested_world)
advance_example =
    advance-Refreshes sample_env sample_adapters sample-StartsOpen "issue-7" tested_world
      tested-IsConsistent

next_move_example :
    (has_approved (read_detail stuck_world).spec ≡ true)
    × ((read_detail stuck_world).state.paused ≡ false)
    × ((is_closed_issue (read_detail stuck_world).issue.status
          || is_closed (read_detail stuck_world).state.phase)
        ≡ false)
unfolding read_detail read_spec next_move
next_move_example = next_move-approved (read_detail stuck_world) refl

stuck_example :
    Service.advance sample_env sample_adapters "issue-7" stuck_world
    ≡ done (read_detail stuck_world) (
        append_log
          (advance_limit "issue-7"
            (read_detail stuck_world).state.phase
            (advance_steps (read_detail stuck_world)))
          stuck_world)
unfolding read_detail next_move
stuck_example = advance-stuck sample_env sample_adapters "issue-7" stuck_world refl refl

evidence_example :
    All (IsEvident (read_detail reviewed_world)) (read_detail reviewed_world).shards
    × All
        (λ (item : CoverageItem). is_covered item.status ≡ true)
        (build_requirements_coverage sample_adapters.text_matches (read_detail reviewed_world))
unfolding read_detail Service.collect_global_evidence_issues build_requirements_coverage
evidence_example =
    collect_global_evidence_issues_complete sample_adapters (read_detail reviewed_world) refl

closes_example :
    (v : World) × (Service.finalize sample_env ready_adapters passed_world ≡ done (read_detail v) v)
    × (is_terminal (read_detail v) ≡ true)
    × (v.issue.status ≡ closed_status)
unfolding read_detail is_terminal
closes_example =
    finalize-closes sample_env ready_adapters passed_world
      (record {
        commits = λ issue shard files w. (_, refl);
        pr = λ d commits w. (_, refl);
        annotations = λ d pr w. (_, refl);
      })
      refl refl refl
