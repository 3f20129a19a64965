-- ===== src/Ledger/Rounds.antt =====
-- The agreement of the files across a draft, a decomposition, a regression run and a re-loop.
use vibecoding_dofe_ai.Base.{
  ◌≤◌, ◌∙◌, ◌≡◌, refl, Bool, true, false, String, List, [], ◌∷◌, Option, none, some, All,
  All-weaken, Bool-cases, inl, inr, arith, nat_eq, string_eq, if◌then◌else◌, ltb, leb, length,
}
use vibecoding_dofe_ai.Schema.{
  Issue, Spec, Shard, Annotation, StateItem, TestRecord, Detail, ReviewIssue, GlobalReviewRecord,
  ReviewSpecRequest, is_done, is_draft, is_approved,
}
use vibecoding_dofe_ai.Store.{
  World, Outcome, done, thrown, Env, write_shards, now, now_millis, tick, final, read_detail,
  answer, write_spec, write_global_review,
}
use vibecoding_dofe_ai.Engine.{
  with_status, set_status, AgentAdapter, Decomposition, write_blocking_review, build_reloop_spec,
  reloop_state, apply_resume, recover_interrupted_shards,
}
use vibecoding_dofe_ai.Engine
use vibecoding_dofe_ai.Adapters.{Adapters}
use vibecoding_dofe_ai.Service.{
  run_global_regression, reviewed_phase, reviewed_status, is_approve, annotated_body,
  pause_at_reloop_limit, start_next_round, auto_reloop_after_global_review, record_spec_review,
}
use vibecoding_dofe_ai.Ledger.Sound.{
  Ledger, ledger, IsConsistent, add_test-IsSound, IsProven, reread-IsSound,
}
use vibecoding_dofe_ai.Ledger.Keeps.{
  reply-cases, IsFresh, reply-IsConsistent, guard-cases, guard-IsConsistent, same-IsConsistent,
}

-- A round that starts over has no shards to speak of.
pub reset-IsConsistent :
    (env : Env) (w : World)
    → w.state.shards_total ≡ 0
    → w.state.reloop_count ≤ env.config.max_reloop
    → IsConsistent env w
reset-IsConsistent env w e b = record {
  sound = record { counted = λ p. ground (arith, e, p); within = b; proven = rw e tt };
}

-- The ledger behind the write of a spec.
spec_written :
    (issue : Issue) (spec : Spec) (s : StateItem) (w : World)
    → ledger (write_spec issue spec s w) ≡ ledger (record w { state = s })
unfolding write_spec
spec_written issue spec s w = elim (Bool-cases (is_draft spec.status)) [
  | inl e ↦ rw e refl
  | inr e ↦ rw e refl
]

pub generate_spec-Keeps :
    (env : Env) (agent : AgentAdapter) (w : World)
    → IsConsistent env w
    → IsConsistent env (final (Engine.generate_spec env agent (read_detail w) w))
unfolding Engine.generate_spec Engine.drafted write_spec read_detail now tick
generate_spec-Keeps env agent w h = elim (Bool-cases (Engine.spec_in_place (read_detail w).spec)) [
  | inl e ↦ rw e h
  | inr e ↦ rw e (
      reply-IsConsistent env (agent.plan w.issue (env.clock.iso w.ticks) (tick w)) _ (tick w)
        (same-IsConsistent env w _ refl h)
        (λ planned.
          guard-IsConsistent env _ _ _ _ _
            (λ t v same kept. same-IsConsistent env w _ (ground arith) h)))
]

fresh-All-IsProven :
    (l : Ledger) (b : Bool) (shards : List Shard)
    → All (λ (s : Shard). is_done s.status ≡ false) shards
    → All (IsProven l) (if b then shards else [])
fresh-All-IsProven l true shards h =
    All-weaken (λ (s : Shard). is_done s.status ≡ false) (IsProven l) (λ s f d. cc) shards h
fresh-All-IsProven l false shards h = tt

-- What a decomposition leaves: the shards that the agent gave, none of them DONE.
decomposed-IsConsistent :
    (env : Env) (w : World) (shards : List Shard)
    → w.state.shards_total ≡ length shards
    → w.shards ≡ shards
    → w.state.reloop_count ≤ env.config.max_reloop
    → All (λ (s : Shard). is_done s.status ≡ false) shards
    → IsConsistent env w
decomposed-IsConsistent env w shards e k b fresh = record {
  sound = record {
    counted = λ p. rw k e;
    within = b;
    proven = fresh-All-IsProven (ledger w) (ltb 0 w.state.shards_total) w.shards (rw k fresh);
  };
}

-- The agent starts every shard at TODO.
abbrev pub StartsOpen : AgentAdapter → Type 0
StartsOpen agent =
    (issue : Issue) (spec : Spec) (w : World) (parts : Decomposition)
    → agent.decompose issue spec w ≡ answer parts
    → All (λ (s : Shard). is_done s.status ≡ false) parts.shards

-- A decomposition that was not written has changed nothing.
abbrev pub IsDecomposed : Env → World → Outcome Bool → Type 0
IsDecomposed env w (done b v) = IsConsistent env v × (b ≡ false → v ≡ w)
IsDecomposed env w (thrown e v) = IsConsistent env v

module _ (env : Env) (agent : AgentAdapter) (starts : StartsOpen agent) where
  decompose_spec-IsDecomposed :
      (spec : Spec) (w : World)
      → IsConsistent env w
      → IsDecomposed env w (Engine.decompose_spec env agent (read_detail w) spec w)
  unfolding Engine.decompose_spec read_detail now tick write_shards
  decompose_spec-IsDecomposed spec w h =
      reply-cases (IsDecomposed env w) (agent.decompose w.issue spec (tick w)) _ (tick w)
        (λ e. same-IsConsistent env w _ refl h)
        (λ parts e.
          reply-cases (IsDecomposed env w)
            (agent.design_tests w.issue spec parts.shards (env.clock.iso w.ticks) (tick w)) _
            (tick w) (λ e. same-IsConsistent env w _ refl h)
            (λ matrix f. guard-cases env (IsDecomposed env w) _ _ _ _ _ (λ t v same kept. (
              decomposed-IsConsistent env _ parts.shards same.total refl
                  (ground (arith, same.reloops, h.sound.within))
                  (starts w.issue spec (tick w) parts e),
              λ x. cc,
            ))))

  decompose_approved-IsDecomposed :
      (o : Option Spec) (w : World)
      → IsConsistent env w
      → IsDecomposed env w (Engine.decompose_approved env agent (read_detail w) o w)
  unfolding Engine.decompose_approved
  decompose_approved-IsDecomposed none w h = h
  decompose_approved-IsDecomposed (some spec) w h = elim (Bool-cases (is_approved spec.status)) [
    | inl e ↦ rw e (decompose_spec-IsDecomposed spec w h)
    | inr e ↦ rw e h
  ]

  pub decompose-IsDecomposed :
      (w : World)
      → IsConsistent env w
      → IsDecomposed env w (Engine.decompose env agent (read_detail w) w)
  unfolding Engine.decompose
  decompose-IsDecomposed w h = elim (Bool-cases (Engine.is_terminal (read_detail w))) [
    | inl e ↦ rw e (h, λ x. refl)
    | inr e ↦ elim (Bool-cases (ltb 0 (length (read_detail w).shards))) [
      | inl f ↦ rw (e, f) (h, λ x. refl)
      | inr f ↦ rw (e, f) (decompose_approved-IsDecomposed (read_detail w).spec w h)
    ]
  ]

pub write_blocking_review-Keeps :
    (env : Env) (issue_id : String) (d : Detail) (issues : List ReviewIssue) (fixes : List String)
    (summary : String) (w : World)
    → d.state.shards_total ≡ w.state.shards_total
    → d.state.round ≡ w.state.round
    → d.state.reloop_count ≡ w.state.reloop_count
    → IsConsistent env w
    → IsConsistent env (final (write_blocking_review env issue_id d issues fixes summary w))
unfolding write_blocking_review now now_millis tick write_global_review
write_blocking_review-Keeps env issue_id d issues fixes summary w total round reloops h =
    same-IsConsistent env w _ (ground (arith, total, round, reloops)) h

pub auto_reloop-IsFresh :
    (env : Env) (issue_id : String) (review : GlobalReviewRecord) (annotations : List Annotation)
    (updated : String) (w v : World)
    → ledger v ≡ ledger w
    → IsConsistent env w
    → IsFresh env
        (auto_reloop_after_global_review env issue_id (read_detail w) review annotations updated v)
unfolding auto_reloop_after_global_review read_detail pause_at_reloop_limit start_next_round
auto_reloop-IsFresh env issue_id review annotations updated w v kept h =
    elim (Bool-cases (leb env.config.max_reloop w.state.reloop_count)) [
      | inl e ↦ rw e (same-IsConsistent env w _ (ground arith) h, refl)
      | inr e ↦ rw e (reset-IsConsistent env _ refl (ground arith), refl)
    ]

pub reloop-Keeps :
    (env : Env) (reviewer notes : Option String) (w : World)
    → IsConsistent env w
    → IsConsistent env (final (Engine.reloop env (read_detail w) reviewer notes w))
unfolding Engine.reloop read_detail now tick
reloop-Keeps env reviewer notes w h =
    elim (Bool-cases (leb env.config.max_reloop w.state.reloop_count)) [
      | inl e ↦ rw e h
      | inr e ↦ rw e (reset-IsConsistent env _ refl (ground arith))
    ]

-- The regression run leaves the counts as they were.
abbrev pub IsRegressed : Env → World → Outcome TestRecord → Type 0
IsRegressed env w (done test v) =
    (w.state.shards_total ≡ v.state.shards_total)
    × (w.state.round ≡ v.state.round)
    × (w.state.reloop_count ≡ v.state.reloop_count)
    × IsConsistent env v
IsRegressed env w (thrown e v) = IsConsistent env v

pub run_global_regression-IsRegressed :
    (env : Env) (adapters : Adapters) (w : World)
    → IsConsistent env w
    → IsRegressed env w (run_global_regression env adapters (read_detail w) w)
unfolding run_global_regression read_detail now tick
run_global_regression-IsRegressed env adapters w h =
    reply-cases (IsRegressed env w)
      (adapters.run_commands "__global__" w.state.round "loops-regression-runner"
        env.config.regression_commands w)
      _ w (λ e. h)
      (λ test said. (
        refl,
        refl,
        refl,
        same-IsConsistent env
            (record w { test_records = test ∷ w.test_records; shards = (read_detail w).shards }) _
            refl (record { sound = add_test-IsSound test (reread-IsSound h.sound) }),
      ))

pub record_spec_review-Keeps :
    (env : Env) (issue_id : String) (spec : Spec) (request : ReviewSpecRequest) (w : World)
    → IsConsistent env w
    → IsConsistent env (final (record_spec_review env issue_id (read_detail w) spec request w))
unfolding record_spec_review read_detail now tick
record_spec_review-Keeps env issue_id spec request w h =
    let state = record (w.state) {
      phase = reviewed_phase request.action;
      updated = env.clock.iso w.ticks;
    } in
    same-IsConsistent env w _
      (spec_written w.issue
          (record spec {
            status = reviewed_status request.action;
            approved_by = if is_approve request.action then some request.reviewer else none;
            body = annotated_body spec.body request.notes;
          })
          state (tick w)
        ∙ refl)
      h
