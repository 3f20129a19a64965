-- ===== src/Rules/Evidence.antt =====
-- What a whole-loop review finds complete.
use vibecoding_dofe_ai.Base.{
  ◌≡◌, refl, Bool, true, false, not, List, [], ◌∷◌, ◌++◌, map, filter, find, is_some, All,
  Bool-cases, inl, inr,
}
use vibecoding_dofe_ai.Schema.{Shard, Detail, ReviewIssue, is_done}
use vibecoding_dofe_ai.Adapters.{Adapters}
use vibecoding_dofe_ai.Evidence.{CoverageItem, build_requirements_coverage}
use vibecoding_dofe_ai.ShardState.{impl_of, test_of, tests_pass}
use vibecoding_dofe_ai.Service.{
  review_of, review_passes, issue_unless, is_covered, shard_evidence_issues, all_evidence_issues,
  collect_global_evidence_issues,
}

-- The shard is DONE, and has an implementation, a passing test run and a PASS review in the round.
pub record IsEvident (d : Detail) (s : Shard) : Type 0 where
  pub finished : is_done s.status ≡ true
  pub built : is_some (find (impl_of s.id d.state.round) d.implementation_records) ≡ true
  pub tested : tests_pass (find (test_of s.id d.state.round) d.test_records) ≡ true
  pub accepted : review_passes (find (review_of s.id d.state.round) d.review_records) ≡ true

append-empty : {A : Type 0} (xs ys : List A) → xs ++ ys ≡ [] → (xs ≡ []) × (ys ≡ [])
append-empty [] ys h = (refl, h)
append-empty (x ∷ xs) ys h = cc

unless-empty : (b : Bool) (i : ReviewIssue) → issue_unless b i ≡ [] → b ≡ true
unless-empty true i h = refl
unless-empty false i h = cc

shard_evidence-IsEvident : (d : Detail) (s : Shard) → shard_evidence_issues d s ≡ [] → IsEvident d s
unfolding shard_evidence_issues
shard_evidence-IsEvident d s h =
    let (a, h1) = append-empty (issue_unless (is_done s.status) _) _ h in
    let (b, h2) =
      append-empty
        (issue_unless (is_some (find (impl_of s.id d.state.round) d.implementation_records)) _) _
        h1 in
    let (c, e) =
      append-empty (issue_unless (tests_pass (find (test_of s.id d.state.round) d.test_records)) _)
        _ h2 in
    record {
      finished = unless-empty _ _ a;
      built = unless-empty _ _ b;
      tested = unless-empty _ _ c;
      accepted = unless-empty _ _ e;
    }

All-IsEvident :
    (d : Detail) (shards : List Shard)
    → all_evidence_issues d shards ≡ []
    → All (IsEvident d) shards
unfolding all_evidence_issues
All-IsEvident d [] h = tt
All-IsEvident d (s ∷ shards) h =
    let (a, b) = append-empty (shard_evidence_issues d s) (all_evidence_issues d shards) h in
    (shard_evidence-IsEvident d s a, All-IsEvident d shards b)

uncovered-empty :
    (items : List CoverageItem) (f : CoverageItem → ReviewIssue)
    → map f (filter (λ (item : CoverageItem). not (is_covered item.status)) items) ≡ []
    → All (λ (item : CoverageItem). is_covered item.status ≡ true) items
uncovered-empty [] f h = tt
uncovered-empty (x ∷ items) f h = elim (Bool-cases (is_covered x.status)) [
  | inl e ↦ (e, uncovered-empty items f (rw e at h))
  | inr e ↦ cc (rw e at h)
]

-- Where the collection of evidence issues is empty, every shard is DONE and has an implementation
-- record, a newest test record that passes and a newest review record that is a PASS in the current
-- round, and every acceptance criterion is reviewed or accepted.
pub collect_global_evidence_issues_complete :
    (adapters : Adapters) (d : Detail)
    → collect_global_evidence_issues adapters d ≡ []
    → All (IsEvident d) d.shards
      × All
          (λ (item : CoverageItem). is_covered item.status ≡ true)
          (build_requirements_coverage adapters.text_matches d)
unfolding collect_global_evidence_issues
collect_global_evidence_issues_complete adapters d h =
    let (a, b) =
      append-empty (map _ (filter _ (build_requirements_coverage adapters.text_matches d))) _ h in
    (All-IsEvident d d.shards b, uncovered-empty _ _ a)
