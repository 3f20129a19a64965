-- ===== src/Store/Doctor.antt =====
-- What `doctor` says of the shards and the annotations of a loop whose files are there.
use vibecoding_dofe_ai.Base.{
  ℕ, Bool, true, false, not, ◌&&◌, ◌||◌, String, List, [], ◌∷◌, ◌++◌, map, Option, none, some, any,
  find, filter, count, length, includes, ltb, concat, join, decimal, if◌then◌else◌, ◌==◌, nat_eq,
  string_eq,
}
use vibecoding_dofe_ai.Schema.{
  Shard, Annotation, StateItem, Spec, is_done, is_in_progress, is_closed, TestMark, mark_pass,
  mark_missing, VerdictMark, verdict_pass, unreviewed, Coverage, partial, full,
}
use vibecoding_dofe_ai.Store.Files.{World}
use vibecoding_dofe_ai.Store.Reading.{read_spec}

abbrev pub problem_if : Bool → String → List String
problem_if b text = if b then text ∷ [] else []

abbrev mismatch : (subject issue_id : String) → (state file : ℕ) → String
mismatch subject issue_id state file = concat (
    subject
    ∷ " mismatch for "
    ∷ issue_id
    ∷ ": state="
    ∷ decimal state
    ∷ ", file="
    ∷ decimal file
    ∷ [])

abbrev pub count_problem : StateItem → List Shard → List String
count_problem loop shards =
    problem_if (not (length shards == loop.shards_total))
      (mismatch "shard count" loop.issue_id loop.shards_total (length shards))

abbrev pub done_problem : StateItem → List Shard → List String
done_problem loop shards =
    let finished = count (λ (s : Shard). is_done s.status) shards in
    problem_if (not (finished == loop.shards_done))
      (mismatch "shardsDone" loop.issue_id loop.shards_done finished)

abbrev pub progress_problem : StateItem → List Shard → List String
progress_problem loop shards =
    let running = count (λ (s : Shard). is_in_progress s.status) shards in
    problem_if (not (running == loop.shards_in_progress))
      (mismatch "shardsInProgress" loop.issue_id loop.shards_in_progress running)

unfoldable pub inspect_shard_state : StateItem → List Shard → List String
inspect_shard_state loop shards =
    count_problem loop shards ++ (done_problem loop shards ++ progress_problem loop shards)

-- `if (loop.shardsTotal > 0)`: the shards are looked at only then.
unfoldable pub inspect_shards : World → List String
unfolding inspect_shard_state
inspect_shards w = if ltb 0 w.state.shards_total then inspect_shard_state w.state w.shards else []

abbrev has_target : String → Annotation → Bool
has_target target annotation = annotation.target == target

-- `new Set([...])` keeps the first of equal targets.
abbrev distinct_from : List String → List String → List String
distinct_from seen [] = []
distinct_from seen (target ∷ rest) =
    let fresh = distinct_from (target ∷ seen) rest in
    let others = distinct_from seen rest in if includes seen target then others else target ∷ fresh

abbrev spec_target : Option Spec → List String
spec_target none = []
spec_target (some spec) = spec.id ∷ []

abbrev pub required_targets : World → List String
required_targets w =
    distinct_from []
      (w.state.issue_id ∷ map (λ (s : Shard). s.id) w.shards ++ spec_target (read_spec w))

abbrev missing_targets : (issue_id : String) → List Annotation → List String → List String
missing_targets issue_id annotations [] = []
missing_targets issue_id annotations (target ∷ rest) =
    problem_if (not (any (has_target target) annotations))
      (concat ("missing annotation target " ∷ target ∷ " for " ∷ issue_id ∷ []))
    ++ missing_targets issue_id annotations rest

abbrev is_verdict_pass : VerdictMark → Bool
is_verdict_pass verdict_pass = true
is_verdict_pass _ = false

abbrev is_unreviewed : VerdictMark → Bool
is_unreviewed unreviewed = true
is_unreviewed _ = false

abbrev is_full : Coverage → Bool
is_full full = true
is_full _ = false

abbrev is_partial : Coverage → Bool
is_partial partial = true
is_partial _ = false

abbrev is_mark_pass : TestMark → Bool
is_mark_pass mark_pass = true
is_mark_pass _ = false

abbrev is_mark_missing : TestMark → Bool
is_mark_missing mark_missing = true
is_mark_missing _ = false

abbrev pub is_finished : Annotation → Bool
is_finished annotation =
    is_verdict_pass annotation.verdict
    && (is_full annotation.coverage && is_mark_pass annotation.test_status)

abbrev is_unfinished : Annotation → Bool
is_unfinished annotation =
    is_unreviewed annotation.verdict
    || (is_partial annotation.coverage || is_mark_missing annotation.test_status)

abbrev final_target : (issue_id target : String) → Option Annotation → List String
final_target issue_id target none =
    concat ("missing final annotation target " ∷ target ∷ " for " ∷ issue_id ∷ []) ∷ []
final_target issue_id target (some annotation) =
    problem_if (not (is_finished annotation))
      (concat ("incomplete final annotation target " ∷ target ∷ " for " ∷ issue_id ∷ []))

abbrev final_targets : (issue_id : String) → List Annotation → List String → List String
final_targets issue_id annotations [] = []
final_targets issue_id annotations (target ∷ rest) =
    final_target issue_id target (find (has_target target) annotations)
    ++ final_targets issue_id annotations rest

-- `[record?.id]`, less what is no text or the empty one
abbrev id_of : {A : Type 0} → (A → String) → Option A → List String
id_of id none = []
id_of id (some a) = if id a == "" then [] else id a ∷ []

abbrev problem_unless : {A : Type 0} → Option A → (subject issue_id : String) → List String
problem_unless none subject issue_id =
    concat ("missing " ∷ subject ∷ " for finalized loop " ∷ issue_id ∷ []) ∷ []
problem_unless (some a) subject issue_id = []

abbrev unfinished_problem : (issue_id : String) → List Annotation → List String
unfinished_problem issue_id [] = []
unfinished_problem issue_id (a ∷ rest) =
    concat (
      "finalized loop "
      ∷ issue_id
      ∷ " has unfinished annotations: "
      ∷ join ", " (map (λ (x : Annotation). x.target) (a ∷ rest))
      ∷ [])
    ∷ []

unfoldable pub inspect_final_annotations : World → List String
inspect_final_annotations w =
    let id = w.state.issue_id in
    let targets =
      id_of (λ m. m.id) w.test_matrix
      ++ (id_of (λ r. r.id) w.global_review ++ id_of (λ p. p.id) w.convergence_pr) in
    problem_unless w.global_review "global review" id
    ++ (problem_unless w.convergence_pr "convergence PR record" id
        ++ (final_targets id w.annotations targets
            ++ unfinished_problem id (filter is_unfinished w.annotations)))

unfoldable pub inspect_annotation_state : World → List String
unfolding inspect_final_annotations read_spec
inspect_annotation_state w =
    missing_targets w.state.issue_id w.annotations (required_targets w)
    ++ (if w.state.finalized || is_closed w.state.phase then inspect_final_annotations w else [])
