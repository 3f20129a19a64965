-- ===== src/Store/Reading.antt =====
-- `readDetail`: what a read of the loop's files returns.
use vibecoding_dofe_ai.Base.{
  ◌||◌, List, [], map, Option, none, filter, find, is_some, ltb, if◌then◌else◌, ◌==◌, nat_eq,
  string_eq,
}
use vibecoding_dofe_ai.Schema.{Spec, Shard, Detail, same_version, is_v0, is_closed}
use vibecoding_dofe_ai.Store.Files.{World, M, done}

-- The shards file is read only if the state counts some.
unfoldable pub read_shards : World → List Shard
read_shards w = if ltb 0 w.state.shards_total then w.shards else []

-- `specs/<issue>/spec.<version>.json`
unfoldable pub read_spec : World → Option Spec
read_spec w =
    if is_v0 w.state.spec_version
    then none
    else find (λ spec. same_version spec.version w.state.spec_version) w.specs

unfoldable pub read_detail : World → Detail
unfolding read_shards read_spec
read_detail w =
    let round = w.state.round in
    record {
      issue = w.issue;
      spec = read_spec w;
      shards = read_shards w;
      test_matrix = if ltb 0 w.state.shards_total then w.test_matrix else none;
      annotations = if ltb 0 w.state.shards_total then w.annotations else [];
      implementation_records =
          filter (λ impl. impl.round == round) (map (λ entry. entry.1) w.implementations);
      review_records = filter (λ review. review.round == round) w.review_records;
      test_records = filter (λ test. test.round == round) w.test_records;
      state = w.state;
      global_review =
          if is_some w.state.global_verdict || w.state.finalized then w.global_review else none;
      convergence_pr =
          if w.state.finalized || is_closed w.state.phase then w.convergence_pr else none;
    }

-- `readDetail` as a call.
abbrev pub get_detail : M Detail
get_detail w = done (read_detail w) w
