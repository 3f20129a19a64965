-- ===== src/Delivery/Summary.antt =====
-- The summary of a coverage, the sum of summaries, the text match, and the exceptions of the runtime's
-- security.
use text.Mathlib.Text.{starts_with}
use vibecoding_dofe_ai.Base.{
  ℕ, ◌+◌, Bool, not, ◌&&◌, ◌||◌, String, List, [], ◌∷◌, ◌++◌, Option, none, some, length, filter,
  find, contains, concat, decimal, if◌then◌else◌, ◌==◌, nat_eq, string_eq,
}
use vibecoding_dofe_ai.Evidence.{
  RequirementStatus, accepted, reviewed, tested, implemented_status, planned, missing, CoverageItem,
}

pub record CoverageSummary : Type 0 where
  pub total : ℕ
  pub accepted_count : ℕ
  pub reviewed_count : ℕ
  pub tested_count : ℕ
  pub implemented_count : ℕ
  pub planned_count : ℕ
  pub missing_count : ℕ
  pub percent : ℕ

unfoldable pub empty_coverage_summary : ℕ → CoverageSummary
empty_coverage_summary total = record {
  total = total;
  accepted_count = 0;
  reviewed_count = 0;
  tested_count = 0;
  implemented_count = 0;
  planned_count = 0;
  missing_count = 0;
  percent = if total == 0 then 100 else 0;
}

-- `summary[item.status] += 1`
abbrev pub add_status : RequirementStatus → CoverageSummary → CoverageSummary
add_status accepted s = record s { accepted_count = s.accepted_count + 1 }
add_status reviewed s = record s { reviewed_count = s.reviewed_count + 1 }
add_status tested s = record s { tested_count = s.tested_count + 1 }
add_status implemented_status s = record s { implemented_count = s.implemented_count + 1 }
add_status planned s = record s { planned_count = s.planned_count + 1 }
add_status missing s = record s { missing_count = s.missing_count + 1 }

unfoldable pub add_items : CoverageSummary → List CoverageItem → CoverageSummary
add_items s [] = s
add_items s (item ∷ items) = add_items (add_status item.status s) items

abbrev pub add_summary : CoverageSummary → CoverageSummary → CoverageSummary
add_summary s item = record s {
  accepted_count = s.accepted_count + item.accepted_count;
  reviewed_count = s.reviewed_count + item.reviewed_count;
  tested_count = s.tested_count + item.tested_count;
  implemented_count = s.implemented_count + item.implemented_count;
  planned_count = s.planned_count + item.planned_count;
  missing_count = s.missing_count + item.missing_count;
}

unfoldable pub add_summaries : CoverageSummary → List CoverageSummary → CoverageSummary
add_summaries s [] = s
add_summaries s (item ∷ items) = add_summaries (add_summary s item) items

unfoldable pub total_of : List CoverageSummary → ℕ
total_of [] = 0
total_of (item ∷ items) = item.total + total_of items

-- `round_percent a n`: `Math.round((a / n) * 100)`, in floating point
module _ (round_percent : ℕ → ℕ → ℕ) where
  abbrev pub percent_of : (accepted_count total : ℕ) → ℕ
  percent_of accepted_count total = if total == 0 then 100 else round_percent accepted_count total

  abbrev pub with_percent : CoverageSummary → CoverageSummary
  with_percent s = record s { percent = percent_of s.accepted_count s.total }

  unfoldable pub summarize_requirements_coverage : List CoverageItem → CoverageSummary
  unfolding add_items empty_coverage_summary
  summarize_requirements_coverage items =
      with_percent (add_items (empty_coverage_summary (length items)) items)

  unfoldable pub aggregate_coverage_summaries : List CoverageSummary → CoverageSummary
  unfolding add_summaries empty_coverage_summary total_of
  aggregate_coverage_summaries summaries =
      with_percent (add_summaries (empty_coverage_summary (total_of summaries)) summaries)

-- `normalize` is the chain of replacements of `normalizeCoverageText`.
unfoldable pub coverage_text_matches :
    (normalize : String → String) → (text normalized_needle : String) → Bool
coverage_text_matches normalize text needle =
    let haystack = normalize text in
    not (needle == "")
    && (not (haystack == "") && (contains needle haystack || contains haystack needle))

pub record Failure : Type 0 where
  pub name : String
  pub reason : String

pub record SecurityTestRecord : Type 0 where
  pub id : String
  pub shard_id : String
  pub round : ℕ
  pub status : String
  pub commands : List String
  pub leaked_in_commands : List String
  pub failed_tests : List Failure
  pub created : String

pub record SecurityException : Type 0 where
  pub id : String
  pub test_record_id : String
  pub shard_id : String
  pub round : ℕ
  pub is_critical : Bool
  pub reason : String
  pub evidence : String
  pub command : Option String
  pub created : String

abbrev pub is_security_failure : Failure → Bool
is_security_failure failure = starts_with failure.name "runtime-security:"

abbrev first_leak : List String → Option String
first_leak [] = none
first_leak (c ∷ rest) = some c

abbrev named_command : Option String → List String → Option String
named_command none leaked = first_leak leaked
named_command (some command) leaked = some command

abbrev pub security_exception : SecurityTestRecord → ℕ → Failure → SecurityException
security_exception entry index failure = record {
  id = concat (entry.id ∷ "-" ∷ failure.name ∷ "-" ∷ decimal index ∷ []);
  test_record_id = entry.id;
  shard_id = entry.shard_id;
  round = entry.round;
  is_critical = failure.name == "runtime-security:canary";
  reason = failure.reason;
  evidence = concat (failure.name ∷ " · " ∷ entry.status ∷ []);
  command =
      named_command (find (λ command. contains command failure.reason) entry.commands)
        entry.leaked_in_commands;
  created = entry.created;
}

abbrev pub exceptions_from : SecurityTestRecord → ℕ → List Failure → List SecurityException
exceptions_from entry index [] = []
exceptions_from entry index (failure ∷ rest) =
    security_exception entry index failure ∷ exceptions_from entry (index + 1) rest

unfoldable pub build_runtime_security_exceptions : List SecurityTestRecord → List SecurityException
build_runtime_security_exceptions [] = []
build_runtime_security_exceptions (entry ∷ rest) =
    exceptions_from entry 0 (filter is_security_failure entry.failed_tests)
    ++ build_runtime_security_exceptions rest
