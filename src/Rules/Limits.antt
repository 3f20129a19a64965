-- ===== src/Rules/Limits.antt =====
-- The costs of a loop, and the shards that a restart finds interrupted.
use vibecoding_dofe_ai.Base.{
  ℕ, ◌+◌, ◌≤◌, ◌<◌, ◌≡◌, refl, true, false, List, [], ◌∷◌, map, any, leb, Bool-cases, inl, inr,
  arith, string_eq, ◌⊎◌,
}
use vibecoding_dofe_ai.Schema.{StateItem, Shard, paused_phase, is_interrupted}
use vibecoding_dofe_ai.Store.{
  World, Env, done, final, now, tick, requeue, resume_interrupted, enforce_cost_guard, trip,
  is_tripped,
}
use vibecoding_dofe_ai.Engine.{apply_cost_guard}

-- Where the costs stand after a call of an agent.
abbrev charged : StateItem → (calls tokens : ℕ) → StateItem
charged s calls tokens = record s {
  cost_calls = s.cost_calls + calls;
  cost_tokens = s.cost_tokens + tokens;
}

-- Whether a cap is reached.
abbrev IsOver : Env → StateItem → Type 0
IsOver env s =
    (env.config.token_cap_per_loop ≤ s.cost_tokens) ⊎ (env.config.call_cap_per_loop ≤ s.cost_calls)

leb_of_lt : (a b : ℕ) → b < a → leb a b ≡ false
leb_of_lt a b h = ground arith

over-tripped : (env : Env) (s : StateItem) → IsOver env s → is_tripped env s ≡ true
unfolding is_tripped
over-tripped env s (inl h) = ground (arith, h)
over-tripped env s (inr h) = ground (arith, h)

any-requeue :
    (shards : List Shard)
    → any (λ (s : Shard). is_interrupted s.status) (map requeue shards) ≡ false
any-requeue [] = refl
any-requeue (s ∷ shards) = ground (arith, any-requeue shards)

-- If the costs with the new calls and tokens reach the token cap or the call cap, the cost guard
-- returns a state with exactly these costs that is paused, in phase PAUSED, and does not throw.
pub apply_cost_guard-pauses :
    (env : Env) (s : StateItem) (calls tokens : ℕ) (w : World)
    → IsOver env (charged s calls tokens)
    → (t : StateItem) × (v : World) × (apply_cost_guard env s calls tokens w ≡ done t v)
      × (t.cost_calls ≡ s.cost_calls + calls)
      × (t.cost_tokens ≡ s.cost_tokens + tokens)
      × (t.paused ≡ true)
      × (t.phase ≡ paused_phase)
unfolding apply_cost_guard enforce_cost_guard trip now tick
apply_cost_guard-pauses env s calls tokens w over =
    let charged_now = record (charged s calls tokens) { updated = env.clock.iso w.ticks } in
    rw (over-tripped env charged_now over) (_, _, refl, refl, refl, refl, refl)

-- If the costs with the new calls and tokens stay below both caps, the cost guard returns the state
-- with these costs and a new update time, and writes nothing.
pub apply_cost_guard-passes :
    (env : Env) (s : StateItem) (calls tokens : ℕ) (w : World)
    → s.cost_tokens + tokens < env.config.token_cap_per_loop
    → s.cost_calls + calls < env.config.call_cap_per_loop
    → apply_cost_guard env s calls tokens w
      ≡ done (record (charged s calls tokens) { updated = env.clock.iso w.ticks }) (tick w)
unfolding apply_cost_guard enforce_cost_guard is_tripped now tick
apply_cost_guard-passes env s calls tokens w t c = rw (leb_of_lt _ _ t, leb_of_lt _ _ c) refl

-- After the recovery at a restart no stored shard is IN_PROGRESS or TIMEOUT.
pub resume_interrupted-clears :
    (env : Env) (w : World)
    → any (λ (s : Shard). is_interrupted s.status) (final (resume_interrupted env w)).shards ≡ false
unfolding resume_interrupted
resume_interrupted-clears env w =
    elim (Bool-cases (any (λ (s : Shard). is_interrupted s.status) w.shards)) [
      | inl e ↦ rw e (any-requeue w.shards)
      | inr e ↦ rw e e
    ]
