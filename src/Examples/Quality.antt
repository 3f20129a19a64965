-- ===== src/Examples/Quality.antt =====
-- The theorems on the findings of two reviewers, on three findings.
use vibecoding_dofe_ai.Base.{◌≡◌, String, List, [], ◌∷◌, none, some, string_eq}
use vibecoding_dofe_ai.Schema.{Severity, minor, major, critical}
use vibecoding_dofe_ai.Quality.{Finding, get_entry, dedupe_findings}
use vibecoding_dofe_ai.Quality.Counting.{dedupe_findings-worst}

abbrev sample_finding : String → Severity → Finding
sample_finding key severity = record {
  fingerprint = key;
  severity = severity;
  desc = key;
  source_evidence_id = none;
}

abbrev sample_findings : List Finding
sample_findings =
    sample_finding "a" minor ∷ sample_finding "b" major ∷ sample_finding "a" critical ∷ []

dedupe_example :
    get_entry "a" (dedupe_findings sample_findings) ≡ some (sample_finding "a" critical)
dedupe_example = dedupe_findings-worst "a" sample_findings
