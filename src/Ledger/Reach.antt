-- ===== src/Ledger/Reach.antt =====
-- The requests of the API as steps, and the files that they can lead to.
use vibecoding_dofe_ai.Base.{
  ◌≡◌, Bool, true, String, List, Option, any, arith, Bool-cases, inl, inr,
}
use vibecoding_dofe_ai.Schema.{
  Shard, ReviewSpecRequest, ReviewShardRequest, RecordImplementationRequest, InterventionRequest,
  is_interrupted, is_done,
}
use vibecoding_dofe_ai.Store.{
  World, Env, final, requeue, resume_interrupted, now, tick, append_log, upsert_state,
}
use vibecoding_dofe_ai.Adapters.{Adapters}
use vibecoding_dofe_ai.ShardState.{apply_review}
use vibecoding_dofe_ai.Service
use vibecoding_dofe_ai.Ledger.Sound.{IsConsistent, relabel_file-IsSound}
use vibecoding_dofe_ai.Ledger.Keeps.{Keeps, fresh-IsConsistent}
use vibecoding_dofe_ai.Ledger.Verdicts.{run_shard_tests-Keeps, apply_review-Keeps}
use vibecoding_dofe_ai.Ledger.Interventions.{intervene-Keeps, record_shard_implementation-Keeps}
use vibecoding_dofe_ai.Ledger.Rounds.{StartsOpen, reloop-Keeps, reset-IsConsistent}
use vibecoding_dofe_ai.Ledger.Batches.{run_loop-Refreshes}
use vibecoding_dofe_ai.Ledger.Requests.{
  generate_spec-Refreshes, decompose-Refreshes, review_global-Refreshes, finalize-Refreshes,
  advance-Refreshes, review_spec-Refreshes,
}

requeue-keeps :
    (s : Shard)
    → ((requeue s).id ≡ s.id) × (is_done (requeue s).status ≡ true → is_done s.status ≡ true)
requeue-keeps s = (ground arith, ground arith)

resume_interrupted-Keeps : (env : Env) → Keeps env (resume_interrupted env)
unfolding resume_interrupted now tick append_log upsert_state
resume_interrupted-Keeps env w h =
    elim (Bool-cases (any (λ (s : Shard). is_interrupted s.status) w.shards)) [
      | inl e ↦ rw e (record { sound = relabel_file-IsSound requeue requeue-keeps h.sound })
      | inr e ↦ rw e h
    ]

-- What a client of the API, or a restart of it, can ask of a loop.
pub data Request : Type 0 where
  plan : Request
  judge_spec : ReviewSpecRequest → (advances : Bool) → Request
  break_up : Request
  run_batch : Request
  go_on : Request
  test_shard : (shard_id runner : String) (commands : List String) → Request
  record_shard : (shard_id : String) → RecordImplementationRequest → Request
  judge_shard : (shard_id : String) → ReviewShardRequest → Request
  judge_loop : Request
  start_over : (reviewer notes : Option String) → Request
  step_in : InterventionRequest → Request
  close_loop : Request
  restart : Request

-- The files behind a request, also where it is refused.
unfoldable pub serve : Env → Adapters → (issue_id : String) → Request → World → World
serve env adapters issue_id plan w = final (Service.generate_spec env adapters w)
serve env adapters issue_id (judge_spec request advances) w =
    final (Service.review_spec env adapters issue_id request advances w)
serve env adapters issue_id break_up w = final (Service.decompose env adapters w)
serve env adapters issue_id run_batch w = final (Service.run_loop env adapters issue_id w)
serve env adapters issue_id go_on w = final (Service.advance env adapters issue_id w)
serve env adapters issue_id (test_shard shard_id runner commands) w =
    final (Service.run_shard_tests env adapters issue_id shard_id runner commands w)
serve env adapters issue_id (record_shard shard_id request) w =
    final (Service.record_shard_implementation env issue_id shard_id request w)
serve env adapters issue_id (judge_shard shard_id request) w =
    final (apply_review env adapters issue_id shard_id request w)
serve env adapters issue_id judge_loop w = final (Service.review_global env adapters issue_id w)
serve env adapters issue_id (start_over reviewer notes) w =
    final (Service.reloop env reviewer notes w)
serve env adapters issue_id (step_in request) w = final (Service.intervene env issue_id request w)
serve env adapters issue_id close_loop w = final (Service.finalize env adapters w)
serve env adapters issue_id restart w = final (resume_interrupted env w)

-- The files that a new issue can come to.
pub data Reachable (env : Env) (adapters : Adapters) (issue_id : String) : World → Type 0 where
  created :
      (w : World)
      → w.state.shards_total ≡ 0
      → w.state.reloop_count ≡ 0
      → Reachable env adapters issue_id w
  served :
      (w : World) (request : Request)
      → Reachable env adapters issue_id w
      → Reachable env adapters issue_id (serve env adapters issue_id request w)

module _ (env : Env) (adapters : Adapters) (issue_id : String) where
  -- Each of the thirteen requests keeps the agreement of the state, the shards and the records,
  -- also where it is refused, if the agent never decomposes into a shard that is DONE.
  pub serve-IsConsistent :
      StartsOpen adapters.agent
      → (request : Request) (w : World) → IsConsistent env w
      → IsConsistent env (serve env adapters issue_id request w)
  unfolding serve Service.reloop
  serve-IsConsistent starts plan w h =
      fresh-IsConsistent env _ (generate_spec-Refreshes env adapters w h)
  serve-IsConsistent starts (judge_spec request advances) w h =
      fresh-IsConsistent env _
        (review_spec-Refreshes env adapters starts issue_id request advances w h)
  serve-IsConsistent starts break_up w h =
      fresh-IsConsistent env _ (decompose-Refreshes env adapters starts w h)
  serve-IsConsistent starts run_batch w h =
      fresh-IsConsistent env _ (run_loop-Refreshes env adapters issue_id w h)
  serve-IsConsistent starts go_on w h =
      fresh-IsConsistent env _ (advance-Refreshes env adapters starts issue_id w h)
  serve-IsConsistent starts (test_shard shard_id runner commands) w h =
      run_shard_tests-Keeps env adapters issue_id shard_id runner commands w h
  serve-IsConsistent starts (record_shard shard_id request) w h =
      record_shard_implementation-Keeps env issue_id shard_id request w h
  serve-IsConsistent starts (judge_shard shard_id request) w h =
      apply_review-Keeps env adapters issue_id shard_id request w h
  serve-IsConsistent starts judge_loop w h =
      fresh-IsConsistent env _ (review_global-Refreshes env adapters issue_id w h)
  serve-IsConsistent starts (start_over reviewer notes) w h = reloop-Keeps env reviewer notes w h
  serve-IsConsistent starts (step_in request) w h = intervene-Keeps env issue_id request w h
  serve-IsConsistent starts close_loop w h =
      fresh-IsConsistent env _ (finalize-Refreshes env adapters w h)
  serve-IsConsistent starts restart w h = resume_interrupted-Keeps env w h

  -- In every state of the files that a new issue (no shards counted, no re-loop made) reaches by
  -- any sequence of requests, refused ones included, the state's shard count (if positive) is the
  -- number of stored shards, the re-loop count is within max_reloop, and every DONE shard that a
  -- read returns has a passing test run and a PASS review of the current round; the condition is
  -- that the agent never decomposes into a shard that is DONE.
  pub Reachable-IsConsistent :
      StartsOpen adapters.agent
      → {w : World} → Reachable env adapters issue_id w
      → IsConsistent env w
  Reachable-IsConsistent starts (created w total reloops) =
      reset-IsConsistent env w total (ground arith)
  Reachable-IsConsistent starts (served v request r) =
      serve-IsConsistent starts request v (Reachable-IsConsistent starts r)
