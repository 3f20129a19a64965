-- ===== src/Engine/Phases.antt =====
-- The pure derivations of the engine.
use vibecoding_dofe_ai.Base.{
  ℕ, ◌+◌, Bool, ◌&&◌, ◌||◌, List, Option, find, all, any, ltb, if◌then◌else◌, ◌==◌, string_eq,
}
use vibecoding_dofe_ai.Schema.{
  Shard, StateItem, Detail, Phase, phase_1_spec, phase_2_review, phase_4_implement, SpecVersion,
  numbered, unreadable, is_v0, is_open, is_done, is_closed_issue, is_closed,
}
use vibecoding_dofe_ai.Store.{M, Env, enforce_cost_guard, now, ◌>>=◌}

unfoldable pub next_resume_phase : StateItem → Phase
next_resume_phase state =
    if ltb 0 state.shards_total
    then phase_4_implement
    else if is_v0 state.spec_version
    then phase_1_spec
    else phase_2_review

-- `v0` gives `v1`, and a text whose number cannot be read gives `v1` too.
unfoldable pub next_spec_version : SpecVersion → SpecVersion
next_spec_version (numbered n) = numbered (n + 1)
next_spec_version (unreadable s) = numbered 1

-- Every shard that this one depends on is DONE.
unfoldable pub dependencies_done : List Shard → Shard → Bool
dependencies_done shards shard =
    all (λ dependency. any (λ (c : Shard). c.id == dependency && is_done c.status) shards)
      shard.depends_on

unfoldable pub is_runnable : List Shard → Shard → Bool
unfolding dependencies_done
is_runnable shards shard = is_open shard.status && dependencies_done shards shard

unfoldable pub find_runnable_shard : List Shard → Option Shard
unfolding is_runnable
find_runnable_shard shards = find (is_runnable shards) shards

unfoldable pub is_terminal : Detail → Bool
is_terminal detail =
    is_closed_issue detail.issue.status || is_closed detail.state.phase || detail.state.finalized

unfoldable pub apply_cost_guard : Env → StateItem → (calls tokens : ℕ) → M StateItem
unfolding enforce_cost_guard now
apply_cost_guard env state calls tokens = do
  updated ← now env
  enforce_cost_guard env (record state {
    cost_calls = state.cost_calls + calls;
    cost_tokens = state.cost_tokens + tokens;
    updated = updated;
  })
