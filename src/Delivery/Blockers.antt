-- ===== src/Delivery/Blockers.antt =====
-- `checkRulesCompliance` and `buildReleaseGateBlockers`: what keeps a release from being closed.
use text.Mathlib.Text.{starts_with}
use vibecoding_dofe_ai.Base.{
  ℕ, ◌-◌, Bool, true, false, not, ◌&&◌, ◌||◌, String, List, [], ◌∷◌, ◌++◌, map, Option, none, some,
  or_else, ltb, any, filter, length, includes, contains, concat, join, decimal, if◌then◌else◌, ◌==◌,
  nat_eq, string_eq,
}
use vibecoding_dofe_ai.Delivery.Opinions.{SecondOpinion, OpinionStatus}
use vibecoding_dofe_ai.Delivery.Gates.{ReleaseGate}

pub record ImplementationNote : Type 0 where
  pub changed_files : List String
  pub notes : Option String
  pub summary : String
  pub shard_id : String

pub record ShardNote : Type 0 where
  pub id : String
  pub status : String

pub record RulesInput : Type 0 where
  pub implementation_records : List ImplementationNote
  pub test_statuses : List String
  pub shards : List ShardNote

abbrev pub one_if : Bool → String → List String
one_if b text = if b then text ∷ [] else []

abbrev pub nonempty : List String → Bool
nonempty [] = false
nonempty (s ∷ rest) = true

abbrev pub changed_files : List ImplementationNote → List String
changed_files [] = []
changed_files (entry ∷ rest) = entry.changed_files ++ changed_files rest

abbrev pub is_sensitive : String → Bool
is_sensitive file =
    contains ".env" file
    || (contains "secret" file || (contains "credentials" file || contains "private_key" file))

abbrev pub is_source : String → Bool
is_source file = starts_with file "apps/api/src/" || starts_with file "apps/web/app/"

abbrev pub is_api : String → Bool
is_api file = starts_with file "apps/api/src/"

abbrev pub is_contract : String → Bool
is_contract file = starts_with file "packages/contracts/"

abbrev pub is_controller : String → Bool
is_controller file = contains "controller" file

abbrev pub is_unimplemented : List ImplementationNote → ShardNote → Bool
is_unimplemented records shard =
    not (shard.status == "TODO")
    && not (includes (map (λ (r : ImplementationNote). r.shard_id) records) shard.id)

abbrev pub combined_text : List ImplementationNote → String
combined_text records = join " " (
    join " " (map (λ (r : ImplementationNote). or_else r.notes "") records)
    ∷ join " " (map (λ (r : ImplementationNote). r.summary) records)
    ∷ [])

-- `calls_http`: `/axios|fetch|http\.request/` in the text in lower case
unfoldable pub check_rules_compliance : (calls_http : String → Bool) → RulesInput → List String
check_rules_compliance calls_http detail =
    let records = detail.implementation_records in
    let files = changed_files records in
    let sensitive = filter is_sensitive files in
    let unimplemented = filter (is_unimplemented records) detail.shards in
    one_if (any is_sensitive files)
      (concat ("[Architecture] Sensitive files modified: " ∷ join ", " sensitive ∷ []))
    ++ (one_if (any is_source files && not (any (λ s. s == "TEST-PASS") detail.test_statuses))
          "[Testing] No passing test records found for source file changes"
        ++ (one_if (any is_api files && not (any is_contract files))
              "[Architecture] API source files changed without contract updates — verify Zod/ts-rest contract"
            ++ (one_if (any is_controller files && calls_http (combined_text records))
                  "[Architecture] Controller changes with direct HTTP calls detected — use Client layer"
                ++ one_if (ltb 0 (length unimplemented)) (
                    concat (
                      "[Workspace] "
                      ∷ decimal (length unimplemented)
                      ∷ " shard(s) in non-TODO status without implementation records"
                      ∷ [])))))

abbrev pub resolves : List (Option String) → String → Bool
resolves [] fingerprint = false
resolves (none ∷ rest) fingerprint = resolves rest fingerprint
resolves (some f ∷ rest) fingerprint =
    (not (f == "") && (f == fingerprint)) || resolves rest fingerprint

abbrev pub unresolved_count :
    List (Option String) → (fingerprints : List String) → (conflict_count : ℕ) → ℕ
unresolved_count resolutions [] conflict_count = conflict_count - length resolutions
unresolved_count resolutions (f ∷ rest) conflict_count =
    length (filter (λ fingerprint. not (resolves resolutions fingerprint)) (f ∷ rest))

abbrev pub is_conflict_status : OpinionStatus → Bool
is_conflict_status OpinionStatus.conflict = true
is_conflict_status _ = false

abbrev pub open_conflicts : List (Option String) → Option SecondOpinion → ℕ
open_conflicts resolutions none = 0
open_conflicts resolutions (some opinion) =
    if opinion.required_for_release && is_conflict_status opinion.status
    then unresolved_count resolutions opinion.comparison.conflict opinion.comparison.conflict_count
    else 0

abbrev conflict_text : ℕ → String
conflict_text n = concat (
    "Second opinion has "
    ∷ decimal n
    ∷ " unresolved conflict(s); resolve or waive before shipping"
    ∷ [])

abbrev violation_text : List String → String
violation_text violations = concat (
    "Rules Center violations detected:\n"
    ∷ join "\n" (map (λ v. concat ("  - " ∷ v ∷ [])) violations)
    ∷ [])

unfoldable pub build_release_gate_blockers :
    (calls_http : String → Bool)
    → RulesInput
    → (resolutions : List (Option String)) → ReleaseGate
    → Option SecondOpinion
    → List String
build_release_gate_blockers calls_http detail resolutions gate second_opinion =
    let open_count = open_conflicts resolutions second_opinion in
    let violations = check_rules_compliance calls_http detail in
    one_if (not gate.checklist.spec_approved) "Spec is not approved"
    ++ (one_if (not gate.checklist.implementation_evidence) "Implementation evidence is missing"
        ++ (one_if (not gate.checklist.tests_passed) "Tests have not all passed"
            ++ (one_if (not gate.checklist.required_reviews_passed)
                  "Required reviews have not all passed or been waived"
                ++ (one_if (ltb 0 open_count) (conflict_text open_count)
                    ++ (one_if (not gate.checklist.browser_qa_passed) "Browser QA has not passed"
                        ++ (one_if (not gate.checklist.rollback_note)
                              "Rollback note is missing — required for all releases"
                            ++ (one_if (not gate.checklist.canary_passed)
                                  "Release canary has not passed"
                                ++ one_if (nonempty violations) (violation_text violations))))))))
