-- ===== src/Ledger/Interventions.antt =====
-- The agreement of the files across a recorded implementation and the interventions of a human.
use vibecoding_dofe_ai.Base.{
  refl, String, Option, none, some, Bool-cases, inl, inr, nat_eq, string_eq,
}
use vibecoding_dofe_ai.Schema.{
  Shard, Detail, InterventionRequest, Intervention, pause, resume, take,
  RecordImplementationRequest, is_done, in_progress,
}
use vibecoding_dofe_ai.Store.{World, Env, return, now, now_millis, tick, final, read_detail}
use vibecoding_dofe_ai.Engine.{with_status, set_status}
use vibecoding_dofe_ai.ShardState.{persist_implementation}
use vibecoding_dofe_ai.Service.{
  manual_record, record_found, record_shard_implementation, intervene, intervene_as, take_shard,
  take_found,
}
use vibecoding_dofe_ai.Ledger.Sound.{IsConsistent}
use vibecoding_dofe_ai.Ledger.Progress.{with_status-keeps, persist_implementation-Keeps}
use vibecoding_dofe_ai.Ledger.Keeps.{
  Keeps, then-Keeps, return-Keeps, same-IsConsistent, written-IsConsistent,
}

record_found-Keeps :
    (env : Env) (issue_id shard_id : String) (request : RecordImplementationRequest) (d : Detail)
    (o : Option Shard)
    → Keeps env (record_found env issue_id shard_id request d o)
unfolding record_found now now_millis tick
record_found-Keeps env issue_id shard_id request d none w h = h
record_found-Keeps env issue_id shard_id request d (some shard) w h =
    let impl =
      manual_record issue_id shard_id d request (env.clock.iso w.ticks)
        (env.clock.millis (tick w).ticks) in
    elim (Bool-cases (is_done shard.status)) [
      | inl e ↦ rw e h
      | inr e ↦ rw e (
          then-Keeps env (persist_implementation env issue_id shard_id impl) (return impl)
            (persist_implementation-Keeps env issue_id shard_id impl) (return-Keeps env impl)
            (tick (tick w)) (same-IsConsistent env w _ refl h))
    ]

take_found-Keeps :
    (env : Env) (issue_id shard_id : String) (request : InterventionRequest) (o : Option Shard)
    (w : World)
    → IsConsistent env w
    → IsConsistent env (final (take_found env issue_id shard_id request (read_detail w) o w))
unfolding take_found read_detail now tick set_status
take_found-Keeps env issue_id shard_id request none w h = h
take_found-Keeps env issue_id shard_id request (some shard) w h =
    elim (Bool-cases (is_done shard.status)) [
      | inl e ↦ rw e h
      | inr e ↦ rw e (
          written-IsConsistent env w _ (with_status shard_id in_progress)
            (λ s. with_status-keeps shard_id in_progress s refl) refl h)
    ]

take_shard-Keeps :
    (env : Env) (issue_id : String) (request : InterventionRequest) (o : Option String) (w : World)
    → IsConsistent env w
    → IsConsistent env (final (take_shard env issue_id request (read_detail w) o w))
unfolding take_shard
take_shard-Keeps env issue_id request none w h = h
take_shard-Keeps env issue_id request (some shard_id) w h =
    take_found-Keeps env issue_id shard_id request _ w h

intervene_as-Keeps :
    (env : Env) (issue_id : String) (request : InterventionRequest) (action : Intervention)
    (w : World)
    → IsConsistent env w
    → IsConsistent env (final (intervene_as env issue_id request (read_detail w) action w))
unfolding intervene_as read_detail now tick
intervene_as-Keeps env issue_id request pause w h = same-IsConsistent env w _ refl h
intervene_as-Keeps env issue_id request resume w h = same-IsConsistent env w _ refl h
intervene_as-Keeps env issue_id request take w h =
    take_shard-Keeps env issue_id request request.shard_id w h

pub intervene-Keeps :
    (env : Env) (issue_id : String) (request : InterventionRequest)
    → Keeps env (intervene env issue_id request)
unfolding intervene
intervene-Keeps env issue_id request w h =
    intervene_as-Keeps env issue_id request request.action w h

pub record_shard_implementation-Keeps :
    (env : Env) (issue_id shard_id : String) (request : RecordImplementationRequest)
    → Keeps env (record_shard_implementation env issue_id shard_id request)
unfolding record_shard_implementation
record_shard_implementation-Keeps env issue_id shard_id request w h =
    record_found-Keeps env issue_id shard_id request (read_detail w) _ w h
