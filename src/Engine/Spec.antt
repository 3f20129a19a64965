-- ===== src/Engine/Spec.antt =====
-- `generateSpec`, `decompose`, `applyResume` and `reloop`.
use vibecoding_dofe_ai.Base.{
  ℕ, ◌+◌, Bool, true, false, String, [], ◌∷◌, Option, none, some, length, leb, ltb, or_else, concat,
  remove_first, if◌then◌else◌, nat_eq,
}
use vibecoding_dofe_ai.Schema.{
  Issue, Spec, StateItem, Detail, SpecVersion, numbered, same_version, version_text, draft,
  phase_2_review, phase_4_implement, is_approved, is_revision_requested, is_paused_phase,
}
use vibecoding_dofe_ai.Store.{
  M, Env, return, throw, exec, call, ◌>>=◌, ◌>>◌, now, bad_request, write_spec, write_shards,
  upsert_state, append_log, loop_intervention,
}
use vibecoding_dofe_ai.Engine.Ports.{AgentAdapter}
use vibecoding_dofe_ai.Engine.Phases.{next_spec_version, is_terminal, apply_cost_guard}

-- `spec-${issue.id.replace('issue-', '')}-${version}`
unfoldable pub spec_id : Issue → SpecVersion → String
unfolding remove_first version_text
spec_id issue version =
    concat ("spec-" ∷ remove_first "issue-" issue.id ∷ "-" ∷ version_text version ∷ [])

-- The first version is the planned spec; a later one is marked as a revision of the last.
unfoldable pub drafted : Detail → SpecVersion → Spec → Spec
unfolding spec_id version_text
drafted detail version planned =
    let first = same_version version (numbered 1) in
    record planned {
      id = if first then planned.id else spec_id detail.issue version;
      version = version;
      status = draft;
      body =
          if first
          then planned.body
          else concat (
              planned.body
              ∷ "\n\n## 修订说明\n本版本由 "
              ∷ version_text detail.state.spec_version
              ∷ " 修订生成，等待人工重新审核。\n"
              ∷ []);
    }

-- `detail.spec && detail.spec.status !== 'REVISION_REQUESTED'`
abbrev pub spec_in_place : Option Spec → Bool
spec_in_place none = false
spec_in_place (some spec) = if is_revision_requested spec.status then false else true

unfoldable pub generate_spec : Env → AgentAdapter → Detail → M (Unit {0})
unfolding now drafted next_spec_version write_spec
generate_spec env agent detail =
    if spec_in_place detail.spec
    then throw (bad_request "Spec already exists and is not waiting for revision")
    else do
      created ← now env
      let version = next_spec_version detail.state.spec_version
      planned ← call (agent.plan detail.issue created)
      state ←
          apply_cost_guard env
            (record (detail.state) {
              phase = phase_2_review;
              spec_version = version;
              updated = created;
            })
            1 0
      exec (write_spec detail.issue (drafted detail version planned) state)

-- `detail.spec && detail.spec.status === 'APPROVED'`
abbrev pub has_approved : Option Spec → Bool
has_approved none = false
has_approved (some spec) = is_approved spec.status

unfoldable pub decompose_spec : Env → AgentAdapter → Detail → Spec → M Bool
unfolding now write_shards
decompose_spec env agent detail spec = do
  created ← now env
  parts ← call (agent.decompose detail.issue spec)
  matrix ← call (agent.design_tests detail.issue spec parts.shards created)
  state ←
      apply_cost_guard env
        (record (detail.state) {
          phase = phase_4_implement;
          shards_total = length parts.shards;
          shards_done = 0;
          shards_in_progress = 0;
          updated = created;
        })
        1 0
  exec (write_shards detail.issue spec parts.shards matrix parts.annotations state)
  return true

abbrev pub approved_spec_missing : M Bool
approved_spec_missing = throw (bad_request "Approved spec is required before decompose")

unfoldable pub decompose_approved : Env → AgentAdapter → Detail → Option Spec → M Bool
unfolding decompose_spec
decompose_approved env agent detail none = approved_spec_missing
decompose_approved env agent detail (some spec) =
    if is_approved spec.status then decompose_spec env agent detail spec else approved_spec_missing

-- Whether a decomposition was written.
unfoldable pub decompose : Env → AgentAdapter → Detail → M Bool
unfolding is_terminal decompose_approved
decompose env agent detail =
    if is_terminal detail
    then return false
    else if ltb 0 (length detail.shards)
    then return false
    else decompose_approved env agent detail detail.spec

unfoldable pub apply_resume : Env → (issue_id : String) → Detail → M (Unit {0})
unfolding now upsert_state append_log
apply_resume env issue_id detail = do
  updated ← now env
  exec (
      upsert_state (record (detail.state) {
        paused = false;
        phase =
            if is_paused_phase detail.state.phase then phase_4_implement else detail.state.phase;
        updated = updated;
      }))
  exec (append_log (loop_intervention issue_id "resume" "loops-engine"))

abbrev base_body : Detail → String
base_body detail = elim detail.spec [ none ↦ detail.issue.body | some spec ↦ spec.body ]

abbrev base_budget : Detail → ℕ
base_budget detail = elim detail.spec [ none ↦ 24000 | some spec ↦ spec.context_budget ]

unfoldable pub build_reloop_spec : Detail → SpecVersion → (created reviewer notes : String) → Spec
unfolding spec_id version_text
build_reloop_spec detail version created reviewer notes = record {
  id = spec_id detail.issue version;
  issue_id = detail.issue.id;
  version = version;
  status = draft;
  created = created;
  approved_by = none;
  context_budget = base_budget detail;
  body = concat (
      base_body detail
      ∷ "\n\n## 自动回环修订 "
      ∷ version_text version
      ∷ "\nreviewer: "
      ∷ reviewer
      ∷ "\n"
      ∷ notes
      ∷ "\n"
      ∷ []);
}

-- The state of the next round.
unfoldable pub reloop_state : StateItem → (updated : String) → StateItem
unfolding next_spec_version
reloop_state state updated = record state {
  phase = phase_2_review;
  round = state.round + 1;
  spec_version = next_spec_version state.spec_version;
  shards_total = 0;
  shards_done = 0;
  shards_in_progress = 0;
  reloop_count = state.reloop_count + 1;
  global_verdict = none;
  finalized = false;
  updated = updated;
}

-- `LoopReloopResponse`, less what the state that was written says too.
pub record ReloopResponse : Type 0 where
  pub spec_version : SpecVersion
  pub round : ℕ
  pub reloop_count : ℕ
  pub max_reloop : ℕ

unfoldable pub reloop : Env → Detail → (reviewer notes : Option String) → M ReloopResponse
unfolding now build_reloop_spec next_spec_version write_spec reloop_state
reloop env detail reviewer notes =
    if leb env.config.max_reloop detail.state.reloop_count
    then throw (bad_request "Max re-loop count reached")
    else do
      created ← now env
      let version = next_spec_version detail.state.spec_version
      let said = concat ("notes: " ∷ or_else notes "整体复查后进入下一轮修订。" ∷ [])
      let spec = build_reloop_spec detail version created (or_else reviewer "human") said
      exec (write_spec detail.issue spec (reloop_state detail.state created))
      return (record {
        spec_version = version;
        round = detail.state.round + 1;
        reloop_count = detail.state.reloop_count + 1;
        max_reloop = env.config.max_reloop;
      })
