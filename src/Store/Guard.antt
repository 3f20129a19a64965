-- ===== src/Store/Guard.antt =====
-- The cost guard, and the recovery of interrupted shards at a restart.
use vibecoding_dofe_ai.Base.{
  Bool, true, false, ◌||◌, any, String, List, [], map, leb, filter, if◌then◌else◌,
}
use vibecoding_dofe_ai.Schema.{Shard, StateItem, todo, paused_phase, is_interrupted}
use vibecoding_dofe_ai.Store.Files.{M, return, exec, ◌>>=◌, ◌>>◌, Env, now, cost_trip, reset_shards}
use vibecoding_dofe_ai.Store.Writes.{append_log, write_notification, upsert_state}

-- Whether the costs of the loop have reached a cap.
unfoldable pub is_tripped : Env → StateItem → Bool
is_tripped env loop =
    leb env.config.token_cap_per_loop loop.cost_tokens
    || leb env.config.call_cap_per_loop loop.cost_calls

-- The loop is paused, and the operators are told.
unfoldable pub trip : Env → StateItem → M StateItem
unfolding now append_log write_notification
trip env loop = do
  updated ← now env
  exec (
      append_log (
        cost_trip loop.issue_id loop.cost_tokens loop.cost_calls env.config.token_cap_per_loop
          env.config.call_cap_per_loop))
  exec (write_notification loop.issue_id "COST_GUARD_TRIPPED" "ops")
  return (record loop { phase = paused_phase; paused = true; updated = updated })

unfoldable pub enforce_cost_guard : Env → StateItem → M StateItem
unfolding is_tripped trip
enforce_cost_guard env loop = if is_tripped env loop then trip env loop else return loop

abbrev pub requeue : Shard → Shard
requeue shard = if is_interrupted shard.status then record shard { status = todo } else shard

-- The body of the loop of `resumeInterruptedLoops` for this loop.
unfoldable pub resume_interrupted : Env → M (List String)
unfolding now append_log upsert_state
resume_interrupted env w =
    let reset = map (λ shard. shard.id) (filter (λ shard. is_interrupted shard.status) w.shards) in
    let body : M (List String) = (do
      exec (λ v. record v { shards = map requeue v.shards })
      updated ← now env
      exec (
          upsert_state
            (record (w.state) { shards_in_progress = 0; updated = updated; paused = false }))
      exec (append_log (reset_shards w.state.issue_id reset))
      return reset) in
    if any (λ (shard : Shard). is_interrupted shard.status) w.shards then body w else return [] w
