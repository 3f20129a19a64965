-- ===== src/Evidence.antt =====
-- apps/api/libs/domain/services/loops-evidence/loops-evidence.service.ts: how far each acceptance
-- criterion is covered. Whether two texts match is a parameter.
use vibecoding_dofe_ai.Base.{
  includes, ℕ, suc, ◌+◌, Bool, true, false, ◌&&◌, ◌||◌, String, List, [], ◌∷◌, map, Option, none,
  some, filter, any, concat, decimal, if◌then◌else◌, string_eq,
}
use vibecoding_dofe_ai.Schema.{
  Shard, RequiredTest, TestMatrix, ImplementationRecord, ReviewRecord, Spec, Detail, Verdict,
  is_pass,
}
use vibecoding_dofe_ai.Engine.{verdict_passed}

pub data RequirementStatus : Type 0 where
  accepted reviewed tested implemented_status planned missing : RequirementStatus

pub record CoverageItem : Type 0 where
  pub id : String
  pub criterion : String
  pub in_spec : Bool
  pub shard_ids : List String
  pub test_ids : List String
  pub implementation_record_ids : List String
  pub review_record_ids : List String
  pub status : RequirementStatus

abbrev nonempty : List String → Bool
nonempty [] = false
nonempty _ = true

unfoldable pub resolve_requirement_status :
    (in_spec : Bool)
    → (shard_ids test_ids implementation_record_ids review_record_ids : List String)
    → (global_verdict : Option Verdict) → RequirementStatus
resolve_requirement_status in_spec shard_ids test_ids impl_ids review_ids global_verdict =
    if verdict_passed global_verdict && nonempty review_ids
    then accepted
    else if nonempty review_ids
    then reviewed
    else if nonempty test_ids && nonempty impl_ids
    then tested
    else if nonempty impl_ids
    then implemented_status
    else if in_spec && (nonempty shard_ids && nonempty test_ids)
    then planned
    else missing

module _ (text_matches : String → String → Bool) where
  covering_shards : Detail → String → List String
  covering_shards detail criterion =
      map (λ (s : Shard). s.id)
        (filter (λ s. any (λ item. text_matches item criterion) s.acceptance) detail.shards)

  covering_tests : Option TestMatrix → List String → String → List String
  covering_tests none shard_ids criterion = []
  covering_tests (some matrix) shard_ids criterion =
      map (λ (t : RequiredTest). t.id)
        (filter (λ t. includes shard_ids t.shard_id || text_matches t.title criterion)
          matrix.required_tests)

  spec_matches : Option Spec → String → Bool
  spec_matches none criterion = false
  spec_matches (some spec) criterion = text_matches spec.body criterion

  -- The body of the `map` of `buildRequirementsCoverage`.
  unfoldable pub cover : Detail → ℕ → String → CoverageItem
  unfolding covering_shards covering_tests spec_matches resolve_requirement_status
  cover detail index criterion =
      let shard_ids = covering_shards detail criterion in
      let test_ids = covering_tests detail.test_matrix shard_ids criterion in
      let impl_ids =
        map (λ (r : ImplementationRecord). r.id)
          (filter (λ r. includes shard_ids r.shard_id) detail.implementation_records) in
      let review_ids =
        map (λ (r : ReviewRecord). r.id)
          (filter (λ r. includes shard_ids r.shard_id && is_pass r.verdict)
            detail.review_records) in
      let in_spec = spec_matches detail.spec criterion in
      record {
        id = concat ("REQ-" ∷ decimal (index + 1) ∷ []);
        criterion = criterion;
        in_spec = in_spec;
        shard_ids = shard_ids;
        test_ids = test_ids;
        implementation_record_ids = impl_ids;
        review_record_ids = review_ids;
        status =
            resolve_requirement_status in_spec shard_ids test_ids impl_ids review_ids
              detail.state.global_verdict;
      }

  cover_from : Detail → ℕ → List String → List CoverageItem
  unfolding cover
  cover_from detail index [] = []
  cover_from detail index (c ∷ cs) = cover detail index c ∷ cover_from detail (suc index) cs

  unfoldable pub build_requirements_coverage : Detail → List CoverageItem
  unfolding cover_from
  build_requirements_coverage detail = cover_from detail 0 detail.issue.acceptance_criteria
