-- ===== src/Ledger/Batches.antt =====
-- The agreement of the files across the loop of the scheduler and `runLoop` around it.
use vibecoding_dofe_ai.Base.{
  ℕ, zero, suc, ◌+◌, ◌≡◌, ◌∙◌, ◌≤◌, map, arith, refl, Bool, true, false, ◌||◌, String, Option, none,
  some, Bool-cases, inl, inr, if◌then◌else◌, ltb, leb, length,
}
use vibecoding_dofe_ai.Schema.{Shard}
use vibecoding_dofe_ai.Store.{
  World, Env, M, Outcome, done, thrown, return, now, tick, final, read_detail, read_shards,
}
use vibecoding_dofe_ai.Engine
use vibecoding_dofe_ai.Engine.{
  ShardRunnerPort, run_runnable_shard, Batch, Pick, pick_shard, pick_found, pick_requeued,
  run_picked, schedule, recovered_shard, close_ended, schedule_fuel, close_batch, interrupted,
  run_loop_unlocked, find_runnable_shard, recover_interrupted_shards,
  block_shard_for_context_budget, has_approved, all_done,
}
use vibecoding_dofe_ai.Adapters.{Adapters}
use vibecoding_dofe_ai.Service.{shard_runner_port, with_issue_and_repo_lock}
use vibecoding_dofe_ai.Service
use vibecoding_dofe_ai.Ending.Measure.{left, left-read, left-recovered}
use vibecoding_dofe_ai.Ledger.Sound.{IsConsistent}
use vibecoding_dofe_ai.Ledger.Progress.{block_shard-Keeps, recovered_shard-keeps}
use vibecoding_dofe_ai.Ledger.Shards.{run_runnable_shard-Keeps}
use vibecoding_dofe_ai.Ledger.Keeps.{
  after, same-IsConsistent, IsFresh, if-IsFresh, reply-IsFresh, written-IsConsistent,
}

module _ (env : Env) (adapters : Adapters) (issue_id : String) where
  abbrev runner : ShardRunnerPort
  runner = shard_runner_port env adapters issue_id

  -- A shard is picked from the files as they are then.
  pub record IsPicked (b : Batch) (w : World) (o : Outcome Pick) : Type 0 where
    pub pick : Pick
    pub world : World
    pub ends : o ≡ done pick world
    pub fresh : pick.batch.detail ≡ read_detail world
    pub sound : IsConsistent env world
    -- what the end of the loop needs
    pub runs :
        (s : Shard) → pick.shard ≡ some s → find_runnable_shard pick.batch.detail.shards ≡ some s
    pub advanced : pick.batch.advanced ≡ b.advanced
    pub total : world.state.shards_total ≡ w.state.shards_total
    pub fewer : left pick.batch.detail.shards ≤ left b.detail.shards

  pick_found-IsPicked :
      (b : Batch) (o : Option Shard) (w : World)
      → b.detail ≡ read_detail w
      → find_runnable_shard b.detail.shards ≡ o
      → IsConsistent env w
      → IsPicked b w (pick_found env issue_id runner b o w)
  unfolding pick_found recover_interrupted_shards shard_runner_port pick_requeued read_detail now
      tick read_shards
  pick_found-IsPicked b (some s) w same found h = record {
    pick = _;
    world = w;
    ends = refl;
    fresh = same;
    sound = h;
    runs = λ t e. found ∙ e;
    advanced = refl;
    total = refl;
    fewer = omega arith;
  }
  pick_found-IsPicked b none w same found h =
      elim (Bool-cases (ltb 0 (length (interrupted b.detail.shards)))) [
        | inl f ↦ rw f (record {
          pick = _;
          world = _;
          ends = refl;
          fresh = refl;
          sound =
              written-IsConsistent env w _ (recovered_shard (interrupted b.detail.shards))
                (recovered_shard-keeps _) (rw same refl) h;
          runs = λ t e. e;
          advanced = refl;
          total = rw same refl;
          fewer =
              let again = map (recovered_shard (interrupted b.detail.shards)) b.detail.shards in
              ground (
                arith,
                left-read (ltb 0 b.detail.state.shards_total) again,
                left-recovered b.detail.shards,
              );
        })
        | inr f ↦ rw f (record {
          pick = _;
          world = w;
          ends = refl;
          fresh = same;
          sound = h;
          runs = λ t e. absurd (ground arith);
          advanced = refl;
          total = refl;
          fewer = omega arith;
        })
      ]

  pub pick_shard-IsPicked :
      (b : Batch) (w : World)
      → b.detail ≡ read_detail w
      → IsConsistent env w
      → IsPicked b w (pick_shard env issue_id runner b w)
  unfolding pick_shard
  pick_shard-IsPicked b w same h =
      pick_found-IsPicked b (find_runnable_shard b.detail.shards) w same refl h

  -- The batch that the loop ends with has read the files as they are then.
  abbrev IsEnd : Outcome (Option Batch) → Type 0
  IsEnd (done none w) = IsConsistent env w
  IsEnd (done (some b) w) = IsConsistent env w × (b.detail ≡ read_detail w)
  IsEnd (thrown e w) = IsConsistent env w

  then-IsEnd :
      (o : Outcome (Unit {0})) (k : M (Option Batch))
      → IsConsistent env (final o)
      → ((v : World) → IsConsistent env v → IsEnd (k v))
      → IsEnd (after o (λ _. k))
  then-IsEnd (done a w) k h hk = hk w h
  then-IsEnd (thrown e w) k h hk = h

  if-IsEnd :
      (b : Bool) (m n : M (Option Batch)) (w : World)
      → IsEnd (m w)
      → IsEnd (n w)
      → IsEnd ((if b then m else n) w)
  if-IsEnd true m n w hm hn = hm
  if-IsEnd false m n w hm hn = hn

  picked-IsEnd :
      {b : Batch} {w : World} (o : Outcome Pick) (k : Pick → M (Option Batch))
      → IsPicked b w o
      → ((p : Pick) (v : World)
          → p.batch.detail ≡ read_detail v
          → IsConsistent env v
          → IsEnd (k p v))
      → IsEnd (after o k)
  picked-IsEnd o k p hk = rw p.ends (hk p.pick p.world p.fresh p.sound)

  -- A round of the loop that goes on with the files as they are then.
  abbrev GoesOn : (Batch → M (Option Batch)) → Type 0
  GoesOn next =
      (b : Batch) (v : World) → b.detail ≡ read_detail v → IsConsistent env v → IsEnd (next b v)

  module _ (next : Batch → M (Option Batch)) (b : Batch) (on : GoesOn next) where
    abbrev blocked_next : M (Option Batch)
    blocked_next v = next (record b { detail = read_detail v; blocked = b.blocked + 1 }) v

    abbrev run_next : M (Option Batch)
    run_next v =
        let ended = record b { detail = read_detail v; advanced = b.advanced + 1 } in
        (if (read_detail v).state.paused then return (some ended) else next ended) v

    run_next-IsEnd : (v : World) → IsConsistent env v → IsEnd (run_next v)
    run_next-IsEnd v h =
        let ended = record b { detail = read_detail v; advanced = b.advanced + 1 } in
        if-IsEnd (read_detail v).state.paused (return (some ended)) (next ended) v (h, refl)
          (on ended v refl h)

    run_picked-IsEnd :
        (o : Option Shard) (w : World)
        → b.detail ≡ read_detail w
        → IsConsistent env w
        → IsEnd (run_picked env issue_id runner next b o w)
    unfolding run_picked shard_runner_port
    run_picked-IsEnd none w same h = (h, same)
    run_picked-IsEnd (some shard) w same h =
        if-IsEnd (leb env.config.context_budget shard.est_context) _ _ w
          (rw same (
            then-IsEnd
              (block_shard_for_context_budget env issue_id (read_detail w) shard
                env.config.context_budget w)
              blocked_next (block_shard-Keeps env issue_id shard env.config.context_budget w h)
              (λ v hv.
                on (record b { detail = read_detail v; blocked = b.blocked + 1 }) v refl hv)))
          (rw same (
            then-IsEnd (run_runnable_shard env issue_id runner (read_detail w) shard w) run_next
              (run_runnable_shard-Keeps env adapters issue_id shard w h) run_next-IsEnd))

  schedule-IsEnd :
      (fuel : ℕ) (b : Batch) (w : World)
      → b.detail ≡ read_detail w
      → IsConsistent env w
      → IsEnd (schedule fuel env issue_id runner b w)
  unfolding schedule
  schedule-IsEnd zero b w same h = h
  schedule-IsEnd (suc fuel) b w same h =
      if-IsEnd (leb env.config.max_parallel b.advanced) (return (some b)) _ w (h, same)
        (picked-IsEnd (pick_shard env issue_id runner b w) _ (pick_shard-IsPicked b w same h)
          (λ p v fresh hv.
            run_picked-IsEnd (schedule fuel env issue_id runner) p.batch (schedule-IsEnd fuel)
              p.shard v fresh hv))

  close_batch-IsFresh :
      (b : Batch) (w : World)
      → b.detail ≡ read_detail w
      → IsConsistent env w
      → IsFresh env (close_batch env issue_id runner b w)
  unfolding close_batch shard_runner_port read_detail now tick
  close_batch-IsFresh b w same h =
      if-IsFresh env (ltb 0 b.advanced || (ltb 0 b.blocked || ltb 0 b.recovered)) _ _ w
        (same-IsConsistent env w _ refl h, refl)
        (if-IsFresh env (all_done b.detail.shards) _ _ w
          (same-IsConsistent env w _ (rw same refl) h, refl) h)

  ended-IsFresh :
      (o : Outcome (Option Batch))
      → IsEnd o
      → IsFresh env (after o (close_ended env issue_id runner))
  unfolding close_ended
  ended-IsFresh (done none w) h = h
  ended-IsFresh (done (some b) w) h = close_batch-IsFresh b w h.1 h.0
  ended-IsFresh (thrown e w) h = h

  run_loop_unlocked-IsFresh :
      (w : World)
      → IsConsistent env w
      → IsFresh env (run_loop_unlocked env issue_id runner (read_detail w) w)
  unfolding run_loop_unlocked
  run_loop_unlocked-IsFresh w h =
      let start : Batch = record {
        detail = read_detail w;
        advanced = 0;
        blocked = 0;
        recovered = 0;
      } in
      if-IsFresh env (read_detail w).state.paused _ _ w h (
        if-IsFresh env (has_approved (read_detail w).spec) _ _ w
          (ended-IsFresh (schedule (schedule_fuel env (read_detail w)) env issue_id runner start w)
            (schedule-IsEnd (schedule_fuel env (read_detail w)) start w refl h))
          h)

  -- From files that agree, runLoop ends with files that agree, whatever the agents, the test runner
  -- and the lock answer; if it returns, the detail that it returns is what a read of the files
  -- gives then.
  pub run_loop-Refreshes :
      (w : World) → IsConsistent env w → IsFresh env (Service.run_loop env adapters issue_id w)
  unfolding Service.run_loop Engine.run_loop with_issue_and_repo_lock
  run_loop-Refreshes w h =
      if-IsFresh env (Engine.is_terminal (read_detail w)) _ _ w (h, refl)
        (reply-IsFresh env (adapters.acquire_lock issue_id (read_detail w).issue.target_repo w) _ w
          h (λ _. run_loop_unlocked-IsFresh w h))
