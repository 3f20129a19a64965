-- ===== src/Rules/Picking.antt =====
-- Which shard the scheduler takes, and what the store reads back.
use vibecoding_dofe_ai.Base.{
  ℕ, suc, zero, ◌≡◌, ◌∙◌, refl, true, false, String, List, some, find-passes, arith, ltb, length,
  Bool-cases, inl, inr, string_eq, nat_eq,
}
use vibecoding_dofe_ai.Schema.{
  Shard, Spec, Issue, StateItem, is_open, is_v0, same_version, is_draft,
}
use vibecoding_dofe_ai.Store.{
  World, Env, done, read_spec, write_spec, read_detail, append_log, advance_limit,
}
use vibecoding_dofe_ai.Engine.{
  find_runnable_shard, is_runnable, dependencies_done, next_move, make_move, Move, break_down,
  advance_from, advance_steps, AdvancePort, is_terminal, has_approved,
}
use vibecoding_dofe_ai.Engine
use vibecoding_dofe_ai.Adapters.{Adapters}
use vibecoding_dofe_ai.Service
use vibecoding_dofe_ai.Ledger.{after_done}

-- The shard that findRunnableShard returns is TODO or NEEDS-WORK, and each of its dependencies
-- names a shard that is DONE.
pub find_runnable_shard-IsReady :
    (shards : List Shard) (s : Shard)
    → find_runnable_shard shards ≡ some s
    → (is_open s.status ≡ true) × (dependencies_done shards s ≡ true)
unfolding find_runnable_shard is_runnable
find_runnable_shard-IsReady shards s h = ground (arith, find-passes (is_runnable shards) shards s h)

-- A loop that has its shards is not decomposed again.
decompose-again :
    (env : Env) (adapters : Adapters) (w : World)
    → ltb 0 (length (read_detail w).shards) ≡ true
    → Service.decompose env adapters w ≡ done (read_detail w) w
unfolding Service.decompose Engine.decompose
decompose-again env adapters w some_shards = elim (Bool-cases (is_terminal (read_detail w))) [
  | inl e ↦ rw e refl
  | inr e ↦ rw (e, some_shards) refl
]

stuck-stays :
    (env : Env) (adapters : Adapters) (issue_id : String) (w : World)
    → ltb 0 (length (read_detail w).shards) ≡ true
    → next_move (read_detail w) ≡ break_down
    → (max_steps steps : ℕ)
    → advance_from max_steps steps (Service.advance_port env adapters issue_id) (read_detail w) w
      ≡ done
          (read_detail w)
          (append_log (advance_limit issue_id (read_detail w).state.phase max_steps) w)
unfolding advance_from Service.advance_port make_move
stuck-stays env adapters issue_id w some_shards move max_steps zero = refl
stuck-stays env adapters issue_id w some_shards move max_steps (suc steps) = rw move (
    after_done _ (decompose-again env adapters w some_shards)
    ∙ stuck-stays env adapters issue_id w some_shards move max_steps steps)

-- Where the loop has shards and the next move is to decompose, advance uses up its steps, returns
-- the detail as it was, and changes nothing but the log, which gets one line on the limit.
pub advance-stuck :
    (env : Env) (adapters : Adapters) (issue_id : String) (w : World)
    → ltb 0 (length (read_detail w).shards) ≡ true
    → next_move (read_detail w) ≡ break_down
    → Service.advance env adapters issue_id w
      ≡ done (read_detail w) (
          append_log
            (advance_limit issue_id (read_detail w).state.phase (advance_steps (read_detail w)))
            w)
unfolding Service.advance Engine.advance Service.advance_port
advance-stuck env adapters issue_id w some_shards move =
    stuck-stays env adapters issue_id w some_shards move (advance_steps (read_detail w))
      (advance_steps (read_detail w))

-- If the state that is written names the version of the spec that is written with it, and that is
-- not v0, the next read returns this spec.
pub read_spec-write_spec :
    (issue : Issue) (spec : Spec) (s : StateItem) (w : World)
    → same_version spec.version s.spec_version ≡ true
    → is_v0 s.spec_version ≡ false
    → read_spec (write_spec issue spec s w) ≡ some spec
unfolding read_spec write_spec
read_spec-write_spec issue spec s w same v = elim (Bool-cases (is_draft spec.status)) [
  | inl e ↦ rw (e, v, same) refl
  | inr e ↦ rw (e, v, same) refl
]
