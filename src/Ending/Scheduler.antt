-- ===== src/Ending/Scheduler.antt =====
-- The fuel of the loop of the scheduler, against the `while` loop of `runLoopUnlocked`.
use vibecoding_dofe_ai.Base.{
  ℕ, zero, suc, ◌+◌, ◌*◌, ◌≤◌, ◌<◌, ◌≡◌, ◌∙◌, refl, Bool, true, false, String, Option, none, some,
  Bool-cases, inl, inr, if◌then◌else◌, ltb, leb, length, arith,
}
use vibecoding_dofe_ai.Schema.{Shard, blocked}
use vibecoding_dofe_ai.Store.{
  World, Env, M, Outcome, done, thrown, return, now, tick, final, read_detail, read_shards,
}
use vibecoding_dofe_ai.Engine.{
  ShardRunnerPort, run_runnable_shard, Batch, Pick, pick_shard, run_picked, schedule, schedule_fuel,
  find_runnable_shard, block_shard_for_context_budget, set_status,
}
use vibecoding_dofe_ai.Adapters.{Adapters}
use vibecoding_dofe_ai.Service.{shard_runner_port}
use vibecoding_dofe_ai.Ledger.{IsConsistent, after}
use vibecoding_dofe_ai.Ledger.Progress.{block_shard-Keeps}
use vibecoding_dofe_ai.Ledger.Shards.{run_runnable_shard-Keeps}
use vibecoding_dofe_ai.Ledger.Batches.{IsPicked, pick_shard-IsPicked}
use vibecoding_dofe_ai.Ending.Measure.{left, left-le-length, left-blocked, left-read}
use vibecoding_dofe_ai.Ending.Totals.{HasTotal, run_runnable_shard-HasTotal}

-- The loop was left by one of its exits, or by an exception, and not for lack of fuel.
abbrev pub has_ended : Outcome (Option Batch) → Bool
has_ended (done none w) = false
has_ended (done (some b) w) = true
has_ended (thrown e w) = true

-- Rounds for `runs` more runs of a shard, with `n` shards to block between two of them.
abbrev budget : ℕ → ℕ → ℕ
budget n zero = 0
budget n (suc runs) = suc n + budget n runs

budget_lem : (n runs : ℕ) → budget n runs ≡ runs * suc n
budget_lem n zero = omega arith
budget_lem n (suc runs) = ground (arith, budget_lem n runs)

if-has_ended :
    (b : Bool) (m n : M (Option Batch)) (w : World)
    → (b ≡ true → has_ended (m w) ≡ true)
    → (b ≡ false → has_ended (n w) ≡ true)
    → has_ended ((if b then m else n) w) ≡ true
if-has_ended true m n w hm hn = hm refl
if-has_ended false m n w hm hn = hn refl

module _ (env : Env) (adapters : Adapters) (issue_id : String) (n : ℕ) where
  abbrev runner : ShardRunnerPort
  runner = shard_runner_port env adapters issue_id

  record IsSteady (w : World) : Type 0 where
    sound : IsConsistent env w
    total : HasTotal n w

  then-has_ended :
      (P : World → Type 0) (o : Outcome (Unit {0})) (k : M (Option Batch))
      → P (final o)
      → ((v : World) → P v → has_ended (k v) ≡ true)
      → has_ended (after o (λ _. k)) ≡ true
  then-has_ended P (done a w) k h hk = hk w h
  then-has_ended P (thrown e w) k h hk = refl

  picked-has_ended :
      {b : Batch} {w : World} (o : Outcome Pick) (k : Pick → M (Option Batch))
      (p : IsPicked env adapters issue_id b w o)
      → has_ended (k p.pick p.world) ≡ true
      → has_ended (after o k) ≡ true
  picked-has_ended o k p h = rw p.ends h

  shards-le : (w : World) → IsSteady w → length (read_detail w).shards ≤ n
  unfolding read_detail read_shards
  shards-le w h = elim (Bool-cases (ltb 0 w.state.shards_total)) [
    | inl e ↦ rw e (ground (arith, h.sound.sound.counted, h.total, e))
    | inr e ↦ rw e (omega arith)
  ]

  left-le : (w : World) → IsSteady w → left (read_detail w).shards ≤ n
  left-le w h = ground (arith, left-le-length (read_detail w).shards, shards-le w h)

  -- A steady state with fewer shards left to be blocked.
  record IsFewer (l : ℕ) (w : World) : Type 0 where
    steady : IsSteady w
    fewer : left (read_detail w).shards < l

  block_shard-IsFewer :
      (shard : Shard) (limit : ℕ) (w : World)
      → IsSteady w
      → find_runnable_shard (read_detail w).shards ≡ some shard
      → IsFewer
          (left (read_detail w).shards)
          (final (block_shard_for_context_budget env issue_id (read_detail w) shard limit w))
  unfolding block_shard_for_context_budget read_detail read_shards now tick
  block_shard-IsFewer shard limit w h found = record {
    steady = record {
      sound = block_shard-Keeps env issue_id shard limit w h.sound;
      total = h.total;
    };
    fewer = ground (
      arith,
      left-read (ltb 0 w.state.shards_total) (set_status shard.id blocked (read_shards w)),
      left-blocked (read_shards w) shard found,
    );
  }

  run_shard-IsSteady :
      (shard : Shard) (w : World)
      → IsSteady w
      → IsSteady (final (run_runnable_shard env issue_id runner (read_detail w) shard w))
  run_shard-IsSteady shard w h = record {
    sound = run_runnable_shard-Keeps env adapters issue_id shard w h.sound;
    total = run_runnable_shard-HasTotal n env adapters issue_id shard w h.total;
  }

  -- The rest of the loop ends from every batch that it can still afford.
  abbrev Affords : ℕ → (Batch → M (Option Batch)) → Type 0
  Affords fuel next =
      (runs : ℕ) (b : Batch) (v : World)
      → b.detail ≡ read_detail v
      → IsSteady v
      → env.config.max_parallel ≤ runs + b.advanced
      → budget n runs + left b.detail.shards < fuel
      → has_ended (next b v) ≡ true

  module _ (fuel : ℕ) (next : Batch → M (Option Batch)) (on : Affords fuel next) where
    blocked-has_ended :
        (runs : ℕ) (b : Batch) (shard : Shard) (w : World)
        → IsSteady w
        → find_runnable_shard (read_detail w).shards ≡ some shard
        → env.config.max_parallel ≤ runs + b.advanced
        → budget n runs + left (read_detail w).shards ≤ fuel
        → has_ended (
            after
              (block_shard_for_context_budget env issue_id
                (read_detail w)
                shard
                env.config.context_budget
                w)
              (λ _ v. next (record b { detail = read_detail v; blocked = b.blocked + 1 }) v))
          ≡ true
    blocked-has_ended runs b shard w h found enough cost =
        then-has_ended (IsFewer (left (read_detail w).shards))
          (block_shard_for_context_budget env issue_id (read_detail w) shard
            env.config.context_budget w)
          (λ v. next (record b { detail = read_detail v; blocked = b.blocked + 1 }) v)
          (block_shard-IsFewer shard env.config.context_budget w h found)
          (λ v hv.
            on runs (record b { detail = read_detail v; blocked = b.blocked + 1 }) v refl hv.steady
              enough (ground (arith, hv.fewer)))

    run-has_ended :
        (runs : ℕ) (b : Batch) (shard : Shard) (w : World)
        → IsSteady w
        → env.config.max_parallel ≤ suc runs + b.advanced
        → budget n (suc runs) ≤ fuel
        → has_ended (
            after (run_runnable_shard env issue_id runner (read_detail w) shard w) (λ _ v.
              let ended = record b { detail = read_detail v; advanced = b.advanced + 1 } in
              (if (read_detail v).state.paused then return (some ended) else next ended) v))
          ≡ true
    run-has_ended runs b shard w h enough cost =
        then-has_ended IsSteady (run_runnable_shard env issue_id runner (read_detail w) shard w)
          (λ v.
            let ended = record b { detail = read_detail v; advanced = b.advanced + 1 } in
            (if (read_detail v).state.paused then return (some ended) else next ended) v)
          (run_shard-IsSteady shard w h)
          (λ v hv.
            let ended = record b { detail = read_detail v; advanced = b.advanced + 1 } in
            if-has_ended (read_detail v).state.paused (return (some ended)) (next ended) v
              (λ _. refl)
              (λ _.
                on runs ended v refl hv (omega (arith, enough))
                  (ground (arith, left-le v hv, cost))))

    run_picked-has_ended :
        (runs : ℕ) (b : Batch) (o : Option Shard) (w : World)
        → b.detail ≡ read_detail w
        → IsSteady w
        → ((s : Shard) → o ≡ some s → find_runnable_shard b.detail.shards ≡ some s)
        → env.config.max_parallel ≤ suc runs + b.advanced
        → budget n (suc runs) + left b.detail.shards ≤ fuel
        → has_ended (run_picked env issue_id runner next b o w) ≡ true
    unfolding run_picked shard_runner_port
    run_picked-has_ended runs b none w same h found enough cost = refl
    run_picked-has_ended runs b (some shard) w same h found enough cost =
        if-has_ended (leb env.config.context_budget shard.est_context) _ _ w
          (λ _. rw same (
            blocked-has_ended (suc runs) b shard w h (rw same at found shard refl) enough
              (rw same at cost)))
          (λ _. rw same (run-has_ended runs b shard w h enough (omega (arith, cost))))

  schedule-has_ended : (fuel : ℕ) → Affords fuel (schedule fuel env issue_id runner)
  unfolding schedule
  schedule-has_ended zero runs b w same h enough cost = absurd (omega (arith, cost))
  schedule-has_ended (suc fuel) zero b w same h enough cost =
      if-has_ended (leb env.config.max_parallel b.advanced) (return (some b)) _ w (λ _. refl)
        (λ more. absurd (ground (arith, more, enough)))
  schedule-has_ended (suc fuel) (suc runs) b w same h enough cost =
      let p = pick_shard-IsPicked env adapters issue_id b w same h.sound in
      if-has_ended (leb env.config.max_parallel b.advanced) (return (some b)) _ w (λ _. refl)
        (λ _. picked-has_ended (pick_shard env issue_id runner b w) _ p (
          run_picked-has_ended fuel (schedule fuel env issue_id runner) (schedule-has_ended fuel)
            runs p.pick.batch p.pick.shard p.world p.fresh
            (record { sound = p.sound; total = p.total ∙ h.total }) p.runs
            (omega (arith, p.advanced, enough)) (ground (arith, p.fewer, cost))))

-- A read returns as many shards as the state counts.
shards-counted :
    (env : Env) (w : World)
    → IsConsistent env w
    → length (read_detail w).shards ≡ w.state.shards_total
unfolding read_detail read_shards
shards-counted env w h = elim (Bool-cases (ltb 0 w.state.shards_total)) [
  | inl e ↦ rw e (ground (arith, h.sound.counted, e))
  | inr e ↦ rw e (ground (arith, e))
]

fuel-covers :
    (env : Env) (w : World)
    → IsConsistent env w
    → budget w.state.shards_total env.config.max_parallel + left (read_detail w).shards
      < schedule_fuel env (read_detail w)
unfolding schedule_fuel
fuel-covers env w h = rw (shards-counted env w h) (
    ground (
      arith,
      budget_lem w.state.shards_total env.config.max_parallel,
      left-le-length (read_detail w).shards,
      shards-counted env w h,
    ))

-- From files that agree, the while loop of runLoop, run on the fuel that the model gives it, is
-- left by one of its exits or by an exception of a call, and never for lack of fuel, whatever the
-- agents, the test runner and git answer.
pub schedule-Ends :
    (env : Env) (adapters : Adapters) (issue_id : String) (w : World)
    → IsConsistent env w
    → has_ended (
        schedule
          (schedule_fuel env (read_detail w))
          env
          issue_id
          (shard_runner_port env adapters issue_id)
          (record { detail = read_detail w; advanced = 0; blocked = 0; recovered = 0 })
          w)
      ≡ true
schedule-Ends env adapters issue_id w h =
    schedule-has_ended env adapters issue_id w.state.shards_total
      (schedule_fuel env (read_detail w)) env.config.max_parallel _ w refl
      (record { sound = h; total = refl }) (omega arith) (fuel-covers env w h)
