-- ===== src/Ledger/Progress.antt =====
-- The agreement of the files across the writes of the scheduler and of an implementation.
use vibecoding_dofe_ai.Base.{
  ℕ, ◌≡◌, refl, true, false, String, List, Bool-cases, inl, inr, arith, string_eq, ltb, length,
}
use vibecoding_dofe_ai.Schema.{
  Shard, ShardStatus, ImplementationRecord, implemented, in_progress, blocked, is_done,
}
use vibecoding_dofe_ai.Store.{World, Env, now, tick, final, read_detail, read_shards}
use vibecoding_dofe_ai.Engine.{
  set_status, with_status, mark_in_progress, block_shard_for_context_budget,
  recover_interrupted_shards, recovered_shard, interrupted,
}
use vibecoding_dofe_ai.ShardState.{persist_implementation}
use vibecoding_dofe_ai.Ledger.Sound.{IsConsistent}
use vibecoding_dofe_ai.Ledger.Keeps.{Keeps, guard-IsConsistent, written-IsConsistent}

pub with_status-keeps :
    (id : String) (status : ShardStatus) (s : Shard)
    → is_done status ≡ false
    → ((with_status id status s).id ≡ s.id)
      × (is_done (with_status id status s).status ≡ true → is_done s.status ≡ true)
with_status-keeps id status s h = (ground arith, ground arith)

pub persist_implementation-Keeps :
    (env : Env) (issue_id shard_id : String) (impl : ImplementationRecord)
    → Keeps env (persist_implementation env issue_id shard_id impl)
unfolding persist_implementation read_detail now set_status tick
persist_implementation-Keeps env issue_id shard_id impl w h =
    guard-IsConsistent env _ _ _ _ _ (λ t v same kept.
      written-IsConsistent env w _ (with_status shard_id implemented)
        (λ s. with_status-keeps shard_id implemented s refl) (ground arith) h)

pub mark_in_progress-Keeps :
    (env : Env) (issue_id : String) (shard : Shard) (w : World)
    → IsConsistent env w
    → IsConsistent env ((final (mark_in_progress env issue_id (read_detail w) shard w)))
unfolding mark_in_progress read_detail now tick set_status
mark_in_progress-Keeps env issue_id shard w h =
    written-IsConsistent env w _ (with_status shard.id in_progress)
      (λ s. with_status-keeps shard.id in_progress s refl) refl h

pub block_shard-Keeps :
    (env : Env) (issue_id : String) (shard : Shard) (budget : ℕ) (w : World)
    → IsConsistent env w
    → IsConsistent env
        ((final (block_shard_for_context_budget env issue_id (read_detail w) shard budget w)))
unfolding block_shard_for_context_budget read_detail now tick set_status
block_shard-Keeps env issue_id shard budget w h =
    written-IsConsistent env w _ (with_status shard.id blocked)
      (λ s. with_status-keeps shard.id blocked s refl) refl h

pub recovered_shard-keeps :
    (stopped : List Shard) (s : Shard)
    → ((recovered_shard stopped s).id ≡ s.id)
      × (is_done (recovered_shard stopped s).status ≡ true → is_done s.status ≡ true)
recovered_shard-keeps stopped s = (ground arith, ground arith)

pub recover_interrupted_shards-Keeps :
    (env : Env) (issue_id : String) (w : World)
    → IsConsistent env w
    → IsConsistent env ((final (recover_interrupted_shards env issue_id (read_detail w) w)))
unfolding recover_interrupted_shards read_detail now tick
recover_interrupted_shards-Keeps env issue_id w h =
    elim (Bool-cases (ltb 0 (length (interrupted (read_shards w))))) [
      | inl some_stopped ↦ rw some_stopped (
          written-IsConsistent env w _ (recovered_shard (interrupted (read_shards w)))
            (recovered_shard-keeps (interrupted (read_shards w))) refl h)
      | inr none_stopped ↦ rw none_stopped h
    ]
