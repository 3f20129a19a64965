-- ===== src/Rules/Closing.antt =====
-- What `finalize` leaves, where nothing stands in its way.
use vibecoding_dofe_ai.Base.{
  ◌≡◌, ◌∙◌, refl, true, false, String, List, [], ◌∷◌, find, ◌==◌, string_eq,
}
use vibecoding_dofe_ai.Schema.{
  Issue, Shard, Detail, Annotation, ImplementationRecord, ConvergencePr, closed_status,
}
use vibecoding_dofe_ai.Store.{
  World, Env, done, answer, read_detail, now, tick, write_finalize, call, return, ◌>>=◌,
}
use vibecoding_dofe_ai.Engine.{is_terminal, verdict_passed, closed_state}
use vibecoding_dofe_ai.Engine
use vibecoding_dofe_ai.Adapters.{Adapters, CommitResult}
use vibecoding_dofe_ai.Service.{
  commit_shards, changed_files, finalize_port, enforce_release_gate, refuse_blocked,
}
use vibecoding_dofe_ai.Service
use vibecoding_dofe_ai.Ledger.{after_done, call_answer}
use vibecoding_dofe_ai.Ledger.Requests.{annotate, publish}

-- Git and the agent answer the calls of a finalization.
pub record IsResponsive (adapters : Adapters) : Type 0 where
  pub commits :
      (issue : Issue) (shard : Shard) (files : List String) (w : World)
      → (commit : CommitResult) × (adapters.git.commit_shard issue shard files w ≡ answer commit)
  pub pr :
      (d : Detail) (commits : List CommitResult) (w : World)
      → (pr : ConvergencePr) × (adapters.git.create_convergence_pr d commits w ≡ answer pr)
  pub annotations :
      (d : Detail) (pr : ConvergencePr) (w : World)
      → (annotations : List Annotation) × (adapters.agent.annotate_finalize d pr w
          ≡ answer annotations)

commit_shards-answers :
    (adapters : Adapters)
    → IsResponsive adapters
    → (d : Detail) (shards : List Shard) (w : World)
    → (commits : List CommitResult) × (commit_shards adapters d shards w ≡ done commits w)
unfolding commit_shards
commit_shards-answers adapters up d [] w = ([], refl)
commit_shards-answers adapters up d (s ∷ shards) w =
    let files =
      changed_files
        (find (λ (impl : ImplementationRecord). impl.shard_id == s.id) d.implementation_records)
        s in
    let (commit, e) = up.commits d.issue s files w in
    let (commits, f) = commit_shards-answers adapters up d shards w in
    let next = λ (commit : CommitResult).
      commit_shards adapters d shards >>= λ commits. return (commit ∷ commits) in
    (
      commit ∷ commits,
      after_done next (call_answer (adapters.git.commit_shard d.issue s files) w e)
          ∙ after_done (λ commits. return (commit ∷ commits)) f,
    )

-- If git and the agent answer, finalize of a loop that is not closed, with a PASS verdict and
-- without a blocker of the release gate, returns; the detail that it returns is what a read gives
-- then, it is closed, and the issue is CLOSED.
pub finalize-closes :
    (env : Env) (adapters : Adapters) (w : World)
    → IsResponsive adapters
    → is_terminal (read_detail w) ≡ false
    → verdict_passed (read_detail w).state.global_verdict ≡ true
    → adapters.release_blockers (read_detail w) ≡ []
    → (v : World) × (Service.finalize env adapters w ≡ done (read_detail v) v)
      × (is_terminal (read_detail v) ≡ true)
      × (v.issue.status ≡ closed_status)
unfolding Service.finalize Engine.finalize finalize_port enforce_release_gate refuse_blocked now
    is_terminal write_finalize closed_state read_detail
finalize-closes env adapters w up live passed free =
    let d = read_detail w in
    let (commits, e) = commit_shards-answers adapters up d d.shards (tick w) in
    let (pr, f) = up.pr d commits (tick w) in
    let (annotations, g) = up.annotations d pr (tick w) in
    let created = env.clock.iso w.ticks in
    (
      write_finalize d.issue annotations (closed_state d.state created) pr
          (adapters.build_learnings d pr created) (tick w),
      rw (live, passed, free)
          (after_done (annotate env adapters d created) (
              after_done (λ commits. call (adapters.git.create_convergence_pr d commits)) e
              ∙ call_answer (adapters.git.create_convergence_pr d commits) (tick w) f)
            ∙ after_done (publish env adapters d created pr)
                (call_answer (adapters.agent.annotate_finalize d pr) (tick w) g)),
      refl,
      refl,
    )
