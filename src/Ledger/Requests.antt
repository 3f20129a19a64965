-- ===== src/Ledger/Requests.antt =====
-- The agreement of the files across `reviewGlobal`, `finalize`, `advance` and `reviewSpec`.
use vibecoding_dofe_ai.Base.{
  ◌&&◌, ℕ, zero, suc, ◌≡◌, refl, Bool, true, false, String, List, [], ◌∷◌, Option, none, some, ◌==◌,
  nat_eq, string_eq, if◌then◌else◌, ltb, length, find,
}
use vibecoding_dofe_ai.Schema.{
  Detail, Shard, Spec, ReviewSpecRequest, TestRecord, ImplementationRecord, is_test_pass, is_pass,
  ConvergencePr, Annotation,
}
use vibecoding_dofe_ai.Store.{
  World, Env, M, Outcome, done, thrown, call, exec, return, ◌>>◌, ◌>>=◌, now, now_millis, tick,
  final, read_detail, get_detail, upsert_state, append_log, write_global_review, write_finalize,
}
use vibecoding_dofe_ai.Engine
use vibecoding_dofe_ai.Engine.{
  GlobalReviewPort, AdvancePort, ReviewOutput, Move, resume_loop, stop, plan_spec, refuse,
  break_down, finish, review, run_shards, next_move, make_move, advance_from, advance_steps,
  conclude_review, write_blocking_review,
}
use vibecoding_dofe_ai.Adapters.{Adapters, CommitResult}
use vibecoding_dofe_ai.Service
use vibecoding_dofe_ai.Service.{
  global_review_port, finalize_port, advance_port, refuse_blocked, enforce_release_gate,
  commit_shards, changed_files, run_global_regression, collect_global_evidence_issues,
}
use vibecoding_dofe_ai.Ledger.Sound.{IsConsistent}
use vibecoding_dofe_ai.Ledger.Keeps.{
  bind-quiet, call-quiet, reply-cases, IsFresh, Refreshes, after, then-IsFresh, if-IsFresh,
  reply-IsFresh, quiet-IsFresh, next-IsFresh, same-IsConsistent,
}
use vibecoding_dofe_ai.Ledger.Rounds.{
  StartsOpen, generate_spec-Keeps, decompose-IsDecomposed, IsDecomposed,
  write_blocking_review-Keeps, auto_reloop-IsFresh, IsRegressed, run_global_regression-IsRegressed,
  record_spec_review-Keeps,
}
use vibecoding_dofe_ai.Ledger.Batches.{run_loop-Refreshes}

module _ (env : Env) (adapters : Adapters) where
  pub generate_spec-Refreshes : Refreshes env (Service.generate_spec env adapters)
  unfolding Service.generate_spec
  generate_spec-Refreshes w h =
      then-IsFresh env (Engine.generate_spec env adapters.agent (read_detail w) w) (λ _. get_detail)
        (generate_spec-Keeps env adapters.agent w h) (λ _ v hv. (hv, refl))

  decomposed-IsFresh :
      (w : World) (o : Outcome Bool)
      → IsDecomposed env w o
      → IsFresh env (after o (λ written. if written then get_detail else return (read_detail w)))
  decomposed-IsFresh w (done true v) h = (h.0, refl)
  decomposed-IsFresh w (done false v) h = (h.0, rw (h.1 refl) refl)
  decomposed-IsFresh w (thrown e v) h = h

  pub decompose-Refreshes :
      StartsOpen adapters.agent → Refreshes env (Service.decompose env adapters)
  unfolding Service.decompose
  decompose-Refreshes starts w h =
      decomposed-IsFresh w _ (decompose-IsDecomposed env adapters.agent starts w h)

  gate-quiet : (blockers : List String) (w : World) → final (refuse_blocked blockers w) ≡ w
  unfolding refuse_blocked
  gate-quiet [] w = refl
  gate-quiet (b ∷ bs) w = refl

  commit_shards-quiet :
      (d : Detail) (shards : List Shard) (w : World) → final (commit_shards adapters d shards w) ≡ w
  unfolding commit_shards
  commit_shards-quiet d [] w = refl
  commit_shards-quiet d (s ∷ shards) w =
      let files =
        changed_files
          (find (λ (impl : ImplementationRecord). impl.shard_id == s.id) d.implementation_records)
          s in
      bind-quiet {B = List CommitResult} (call (adapters.git.commit_shard d.issue s files) w)
        (λ commit. commit_shards adapters d shards >>= λ commits. return (commit ∷ commits)) w
        (call-quiet (adapters.git.commit_shard d.issue s files) w)
        (λ commit.
          bind-quiet (commit_shards adapters d shards w) (λ commits. return (commit ∷ commits)) w
            (commit_shards-quiet d shards w) (λ commits. refl))

  conclude_review-IsFresh :
      (issue_id : String) (d : Detail) (said : ReviewOutput) (w : World)
      → IsConsistent env w
      → IsFresh env (
          conclude_review env issue_id
            (global_review_port env adapters issue_id)
            d
            (read_detail w)
            said
            w)
  unfolding conclude_review read_detail global_review_port now now_millis tick write_global_review
  conclude_review-IsFresh issue_id d said w h =
      if-IsFresh env (is_pass said.verdict) _ _ (tick (tick w))
        (same-IsConsistent env w _ refl h, refl)
        (auto_reloop-IsFresh env issue_id _ _ _ w (tick (tick w)) refl h)

  regressed-IsFresh :
      (issue_id : String) (w : World) (o : Outcome TestRecord)
      → IsRegressed env w o
      → IsFresh env (
          after o (λ regression.
            Engine.conclude_regression env issue_id
              (global_review_port env adapters issue_id)
              (read_detail w)
              regression))
  unfolding Engine.conclude_regression global_review_port read_detail
  regressed-IsFresh issue_id w (done test v) (total, round, reloops, h) =
      if-IsFresh env (is_test_pass test.status) _ _ v
        (reply-cases
          (λ o. IsFresh env (
            after o (λ answered.
              conclude_review env issue_id (global_review_port env adapters issue_id)
                (read_detail w) answered.1 answered.0)))
          (adapters.agent.review_global (read_detail v) v) (λ said. return (said, read_detail v)) v
          (λ e. h) (λ said e. conclude_review-IsFresh issue_id (read_detail w) said v h))
        (then-IsFresh env _ (λ _. get_detail)
          (write_blocking_review-Keeps env issue_id (read_detail w) _ _ _ v total round reloops h)
          (λ _ u hu. (hu, refl)))
  regressed-IsFresh issue_id w (thrown e v) h = h

  pub review_global-Refreshes :
      (issue_id : String) → Refreshes env (Service.review_global env adapters issue_id)
  unfolding Service.review_global Engine.review_global global_review_port read_detail
  review_global-Refreshes issue_id w h =
      if-IsFresh env (Engine.is_terminal (read_detail w)) _ _ w (h, refl)
        (if-IsFresh env (ltb 0 (length (collect_global_evidence_issues adapters (read_detail w)))) _
          _ w
          (then-IsFresh env _ (λ _. get_detail)
            (write_blocking_review-Keeps env issue_id (read_detail w) _ _ _ w refl refl refl h)
            (λ _ v hv. (hv, refl)))
          (regressed-IsFresh issue_id w _ (run_global_regression-IsRegressed env adapters w h)))

  abbrev pub open_pr : Detail → M ConvergencePr
  open_pr d = commit_shards adapters d d.shards >>= λ commits.
      call (adapters.git.create_convergence_pr d commits)

  open_pr-quiet : (d : Detail) (w : World) → final (open_pr d w) ≡ w
  open_pr-quiet d w =
      bind-quiet (commit_shards adapters d d.shards w)
        (λ commits. call (adapters.git.create_convergence_pr d commits)) w
        (commit_shards-quiet d d.shards w)
        (λ commits. call-quiet (adapters.git.create_convergence_pr d commits) w)

  abbrev pub publish : Detail → (created : String) → ConvergencePr → List Annotation → M Detail
  publish d created pr annotations =
      exec (
        write_finalize d.issue annotations (Engine.closed_state d.state created) pr
          (adapters.build_learnings d pr created))
      >> get_detail

  abbrev pub annotate : Detail → (created : String) → ConvergencePr → M Detail
  annotate d created pr = call (adapters.agent.annotate_finalize d pr) >>= publish d created pr

  annotate-IsFresh :
      (created : String) (w : World)
      → IsConsistent env w
      → (pr : ConvergencePr) → IsFresh env (annotate (read_detail w) created pr (tick w))
  unfolding write_finalize Engine.closed_state read_detail tick
  annotate-IsFresh created w h pr =
      reply-IsFresh env (adapters.agent.annotate_finalize (read_detail w) pr (tick w))
        (publish (read_detail w) created pr) (tick w) (same-IsConsistent env w _ refl h)
        (λ annotations. (same-IsConsistent env w _ refl h, refl))

  pub finalize-Refreshes : Refreshes env (Service.finalize env adapters)
  unfolding Service.finalize Engine.finalize finalize_port enforce_release_gate read_detail now tick
  finalize-Refreshes w h =
      let d = read_detail w in
      let created = env.clock.iso w.ticks in
      if-IsFresh env (Engine.is_terminal d) _ _ w (h, refl)
        (if-IsFresh env (Engine.verdict_passed d.state.global_verdict) _ _ w
          (quiet-IsFresh env (refuse_blocked (adapters.release_blockers d) w) _ w (gate-quiet _ w) h
            (λ _.
              quiet-IsFresh env (open_pr d (tick w)) (annotate d created) (tick w)
                (open_pr-quiet d (tick w)) (same-IsConsistent env w _ refl h)
                (annotate-IsFresh created w h)))
          h)

  resume-Refreshes :
      (issue_id : String) (w : World)
      → IsConsistent env w
      → IsFresh env (Service.resume_and_read env issue_id (read_detail w) w)
  unfolding Service.resume_and_read Engine.apply_resume now tick upsert_state read_detail
  resume-Refreshes issue_id w h = (same-IsConsistent env w _ refl h, refl)

  module _ (starts : StartsOpen adapters.agent) (issue_id : String) where
    abbrev loop_port : AdvancePort
    loop_port = advance_port env adapters issue_id

    move-IsFresh :
        (next : Detail → M Detail)
        → ((w : World) → IsConsistent env w → IsFresh env (next (read_detail w) w))
        → (move : Move) (w : World) → IsConsistent env w
        → IsFresh env (make_move loop_port next (read_detail w) move w)
    unfolding make_move advance_port
    move-IsFresh next on resume_loop w h =
        next-IsFresh env _ next (resume-Refreshes issue_id w h) on
    move-IsFresh next on stop w h = (h, refl)
    move-IsFresh next on plan_spec w h = generate_spec-Refreshes w h
    move-IsFresh next on refuse w h = h
    move-IsFresh next on break_down w h =
        next-IsFresh env _ next (decompose-Refreshes starts w h) on
    move-IsFresh next on finish w h = next-IsFresh env _ next (finalize-Refreshes w h) on
    move-IsFresh next on review w h =
        next-IsFresh env _ next (review_global-Refreshes issue_id w h) on
    move-IsFresh next on run_shards w h =
        next-IsFresh env _ next (run_loop-Refreshes env adapters issue_id w h) on

    advance_from-IsFresh :
        (max_steps steps : ℕ) (w : World)
        → IsConsistent env w
        → IsFresh env (advance_from max_steps steps loop_port (read_detail w) w)
    unfolding advance_from advance_port append_log read_detail
    advance_from-IsFresh max_steps zero w h = (same-IsConsistent env w _ refl h, refl)
    advance_from-IsFresh max_steps (suc steps) w h =
        move-IsFresh (advance_from max_steps steps loop_port) (advance_from-IsFresh max_steps steps)
          (next_move (read_detail w)) w h

    -- From files that agree, advance ends with files that agree, and what it returns is what a read
    -- gives then, if the agent never decomposes into a shard that is DONE.
    pub advance-Refreshes :
        (w : World) → IsConsistent env w → IsFresh env (Service.advance env adapters issue_id w)
    unfolding Service.advance Engine.advance advance_port
    advance-Refreshes w h = advance_from-IsFresh _ _ w h

    reviewed-Refreshes :
        (request : ReviewSpecRequest) (advances : Bool) (o : Option Spec) (w : World)
        → IsConsistent env w
        → IsFresh env
            (Service.review_spec_of env adapters issue_id request advances (read_detail w) o w)
    unfolding Service.review_spec_of
    reviewed-Refreshes request advances none w h = h
    reviewed-Refreshes request advances (some spec) w h =
        then-IsFresh env (Service.record_spec_review env issue_id (read_detail w) spec request w) _
          (record_spec_review-Keeps env issue_id spec request w h)
          (λ _ v hv.
            if-IsFresh env (Service.is_approve request.action && advances) _ _ v
              (advance-Refreshes v hv) (hv, refl))

    pub review_spec-Refreshes :
        (request : ReviewSpecRequest) (advances : Bool)
        → Refreshes env (Service.review_spec env adapters issue_id request advances)
    unfolding Service.review_spec
    review_spec-Refreshes request advances w h = reviewed-Refreshes request advances _ w h
