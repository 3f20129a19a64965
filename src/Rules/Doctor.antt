-- ===== src/Rules/Doctor.antt =====
-- What `doctor` finds wrong with the shards after a review, and after a failed run of the tests.
use vibecoding_dofe_ai.Base.{
  ℕ, ◌<◌, ◌≤◌, ◌≡◌, ◌≢◌, refl, sym, Bool, true, false, not, ◌&&◌, String, List, [], ◌∷◌, ◌++◌, map,
  Option, none, some, find, count, length, ltb, if◌then◌else◌, ◌==◌, nat_eq, string_eq, arith,
  Bool-cases, inl, inr,
}
use vibecoding_dofe_ai.Schema.{
  Shard, Detail, ImplementationRecord, TestRecord, TestStatus, ReviewRecord, ReviewShardRequest,
  is_done, is_pass, is_test_fail, phase_5_review,
}
use vibecoding_dofe_ai.Store.{
  World, Env, Outcome, done, now, tick, write_test_record, upsert_state, append_log, thrown, answer,
  final, read_detail, read_shards, count_problem, done_problem, progress_problem,
  inspect_shard_state, inspect_shards, problem_if,
}
use vibecoding_dofe_ai.Adapters.{Adapters}
use vibecoding_dofe_ai.ShardState.{
  apply_review, review_found, review_implemented, record_review, test_of, tests_pass,
}
use vibecoding_dofe_ai.Service.{
  run_shard_tests, test_found, tested_shard, tested_annotation, find_shard,
}
use vibecoding_dofe_ai.Ledger.{IsConsistent, after_done, call_answer}
use vibecoding_dofe_ai.Ledger.Verdicts.{apply_review-Keeps}
use vibecoding_dofe_ai.Rules.Counting.{IsCounted, record_review-IsCounted}

-- The call counts the DONE shards where it returns.
abbrev Counts : {A : Type 0} → Outcome A → Type 0
Counts (done a w) = IsCounted w
Counts (thrown e w) = Unit

counts_of : {A : Type 0} (o : Outcome A) → IsCounted (final o) → Counts o
counts_of (done a w) h = h
counts_of (thrown e w) h = tt

module _ (env : Env) (adapters : Adapters) (issue_id : String) (request : ReviewShardRequest) where
  review_implemented-Counts :
      (detail : Detail) (shard : Shard) (o : Option ImplementationRecord) (w : World)
      → Counts (review_implemented env adapters issue_id request detail shard o w)
  unfolding review_implemented
  review_implemented-Counts detail shard none w = tt
  review_implemented-Counts detail shard (some impl) w =
      let passed = tests_pass (find (test_of shard.id detail.state.round) detail.test_records) in
      elim (Bool-cases (is_pass request.verdict && not passed)) [
        | inl e ↦ rw e tt
        | inr e ↦ rw e (
            counts_of (record_review env adapters issue_id detail shard impl passed request w)
              (record_review-IsCounted env adapters issue_id detail shard impl passed request w))
      ]

  review_found-Counts :
      (shard_id : String) (detail : Detail) (o : Option Shard) (w : World)
      → Counts (review_found env adapters issue_id shard_id request detail o w)
  unfolding review_found
  review_found-Counts shard_id detail none w = tt
  review_found-Counts shard_id detail (some shard) w = review_implemented-Counts detail shard _ w

  apply_review-Counts :
      (shard_id : String) (w : World)
      → Counts (apply_review env adapters issue_id shard_id request w)
  unfolding apply_review
  apply_review-Counts shard_id w = review_found-Counts shard_id (read_detail w) _ w

same_count : (m n : ℕ) (text : String) → m ≡ n → problem_if (not (m == n)) text ≡ []
same_count m n text h = ground arith

quiet-inspect_shards :
    (w : World)
    → (0 < w.state.shards_total → w.state.shards_total ≡ length w.shards)
    → IsCounted w
    → inspect_shards w
      ≡ (if ltb 0 w.state.shards_total then progress_problem w.state w.shards else [])
unfolding inspect_shards inspect_shard_state
quiet-inspect_shards w counted h = elim (Bool-cases (ltb 0 w.state.shards_total)) [
  | inl e ↦
      let total : w.state.shards_total ≡ length w.shards = counted (ground (arith, e)) in
      rw
        (
          e,
          same_count (length w.shards) w.state.shards_total _ (sym total),
          same_count (count (λ (s : Shard). is_done s.status) w.shards) w.state.shards_done _
              (sym h),
        )
        refl
  | inr e ↦ rw e refl
]

-- Where a review of a shard returns, from files that agree, doctor has nothing to say afterwards of
-- the number of shards and of the DONE shards: of its lines on the shards at most the one on the
-- shards in progress is left.
pub apply_review-heals :
    (env : Env) (adapters : Adapters) (issue_id shard_id : String) (request : ReviewShardRequest)
    (w : World) {review : ReviewRecord} {v : World}
    → IsConsistent env w
    → apply_review env adapters issue_id shard_id request w ≡ done review v
    → inspect_shards v
      ≡ (if ltb 0 v.state.shards_total then progress_problem v.state v.shards else [])
apply_review-heals env adapters issue_id shard_id request w {review} {v} h e =
    let kept : IsConsistent env v =
      rw e at (apply_review-Keeps env adapters issue_id shard_id request w h) in
    let counted : IsCounted v =
      rw e at (apply_review-Counts env adapters issue_id request shard_id w) in
    quiet-inspect_shards v kept.sound.counted counted

-- A failed run sends DONE shards back.
count-tested_shard-le :
    (id : String) (status : TestStatus) (shards : List Shard)
    → count (λ (s : Shard). is_done s.status) (map (tested_shard id status) shards)
      ≤ count (λ (s : Shard). is_done s.status) shards
count-tested_shard-le id status [] = omega arith
count-tested_shard-le id status (s ∷ shards) =
    ground (arith, count-tested_shard-le id status shards)

count-tested_shard-lt :
    (id : String) (status : TestStatus) (shards : List Shard) (shard : Shard)
    → is_test_fail status ≡ true
    → find (λ (s : Shard). s.id == id) shards ≡ some shard
    → is_done shard.status ≡ true
    → count (λ (s : Shard). is_done s.status) (map (tested_shard id status) shards)
      < count (λ (s : Shard). is_done s.status) shards
count-tested_shard-lt id status [] shard failed found d = ground arith
count-tested_shard-lt id status (s ∷ shards) shard failed found d = elim (Bool-cases (s.id == id)) [
  | inl e ↦ ground (arith, count-tested_shard-le id status shards)
  | inr e ↦ ground (arith, count-tested_shard-lt id status shards shard failed (rw e at found) d)
]

no_problem : (b : Bool) (text : String) → problem_if b text ≡ [] → b ≡ false
no_problem true text h = ground arith
no_problem false text h = refl

left_empty : (xs ys : List String) → xs ++ ys ≡ [] → xs ≡ []
left_empty [] ys h = refl
left_empty (x ∷ xs) ys h = ground arith

right_empty : (xs ys : List String) → xs ++ ys ≡ [] → ys ≡ []
right_empty [] ys h = h
right_empty (x ∷ xs) ys h = ground arith

inspect_shards-IsCounted :
    (w : World) → 0 < w.state.shards_total → inspect_shards w ≡ [] → IsCounted w
unfolding inspect_shards inspect_shard_state
inspect_shards-IsCounted w total h =
    let positive : ltb 0 w.state.shards_total ≡ true = ground (arith, total) in
    let silent : inspect_shard_state w.state w.shards ≡ [] = rw positive at h in
    let finished = count (λ (s : Shard). is_done s.status) w.shards in
    let clear : done_problem w.state w.shards ≡ [] =
      left_empty (done_problem w.state w.shards) (progress_problem w.state w.shards)
        (right_empty (count_problem w.state w.shards) _ silent) in
    let right = no_problem (not (finished == w.state.shards_done)) _ clear in ground (arith, right)

-- The files behind a run of the tests.
abbrev tested_world : Env → (issue_id shard_id : String) → TestRecord → Detail → World → World
tested_world env issue_id shard_id test detail w =
    write_test_record issue_id shard_id test
      (map (tested_annotation shard_id test.status "Runner 测试命令已通过，等待实现审查。" "Runner 测试命令失败，需修复后重跑。")
        detail.annotations)
      (map (tested_shard shard_id test.status) detail.shards)
      (record (detail.state) { phase = phase_5_review; updated = env.clock.iso w.ticks }) (tick w)

test_found-answer :
    (env : Env) (adapters : Adapters) (issue_id shard_id runner : String) (commands : List String)
    (detail : Detail) (shard : Shard) (w : World) (test : TestRecord)
    → adapters.run_commands shard_id detail.state.round runner commands w ≡ answer test
    → test_found env adapters issue_id shard_id runner commands detail (some shard) w
      ≡ done test (tested_world env issue_id shard_id test detail w)
unfolding test_found now
test_found-answer env adapters issue_id shard_id runner commands detail shard w test runs =
    after_done _
      (call_answer (adapters.run_commands shard_id detail.state.round runner commands) w runs)

-- Where doctor finds nothing wrong with the shards of a loop, and the tests of a DONE shard are run
-- and fail, runShardTests returns, and doctor finds a problem with the shards afterwards.
pub run_shard_tests-miscounts :
    (env : Env) (adapters : Adapters) (issue_id shard_id runner : String) (commands : List String)
    (w : World) (shard : Shard) (test : TestRecord)
    → 0 < w.state.shards_total
    → inspect_shards w ≡ []
    → find_shard shard_id w.shards ≡ some shard
    → is_done shard.status ≡ true
    → adapters.run_commands shard_id w.state.round runner commands w ≡ answer test
    → is_test_fail test.status ≡ true
    → (v : World) × (run_shard_tests env adapters issue_id shard_id runner commands w ≡ done test v)
      × (inspect_shards v ≢ [])
unfolding run_shard_tests read_detail read_shards find_shard write_test_record upsert_state
    append_log tick
run_shard_tests-miscounts env adapters issue_id shard_id runner commands w shard test total h found
      d runs failed =
    let positive : ltb 0 w.state.shards_total ≡ true = ground (arith, total) in
    let v = tested_world env issue_id shard_id test (read_detail w) w in
    let returns =
      test_found-answer env adapters issue_id shard_id runner commands (read_detail w) shard w test
        runs in
    (
      v,
      rw (positive, found) (rw positive at returns),
      λ silent.
          let before = inspect_shards-IsCounted w total h in
          let behind = rw positive at (inspect_shards-IsCounted v total silent) in
          let fewer = count-tested_shard-lt shard_id test.status w.shards shard failed found d in
          omega (arith, before, behind, fewer),
    )
