-- ===== src/Schema/Status.antt =====
-- The enumerations of loops.schema.ts, and the comparisons that the code makes with their members.
use vibecoding_dofe_ai.Base.{
  Bool, true, false, ℕ, String, decimal, concat, [], ◌∷◌, ◌==◌, nat_eq, string_eq,
}

pub data IssueStatus : Type 0 where
  intake needs_clarification open_status in_loop closed_status archived rejected_status :
      IssueStatus

pub data Phase : Type 0 where
  phase_0_intake phase_1_spec phase_2_review phase_3_decompose phase_4_implement : Phase
  phase_5_review phase_6_converge phase_7_global_review phase_8_annotate closed paused_phase : Phase

pub data SpecStatus : Type 0 where
  draft approved revision_requested rejected : SpecStatus

pub data ShardStatus : Type 0 where
  todo in_progress implemented done_status needs_work_status failed_status blocked timeout :
      ShardStatus

pub data TestStatus : Type 0 where
  test_pass test_missing test_fail test_flaky skipped : TestStatus

-- `LoopReviewVerdictSchema` and `LoopGlobalVerdictSchema`
pub data Verdict : Type 0 where
  pass needs_work fail : Verdict

pub data Severity : Type 0 where
  minor major critical : Severity

pub data Annotator : Type 0 where
  codex system human : Annotator

pub data ImplMark : Type 0 where
  not_started impl_in_progress impl_done impl_failed impl_skipped : ImplMark

pub data TestMark : Type 0 where
  not_run mark_pass mark_missing mark_fail mark_flaky mark_skipped : TestMark

pub data VerdictMark : Type 0 where
  verdict_pass verdict_needs_work verdict_fail unreviewed : VerdictMark

pub data Coverage : Type 0 where
  coverage_none partial full : Coverage

pub data Risk : Type 0 where
  low medium high : Risk

-- A spec version is the text `v<n>`; another text is kept as it is.
pub data SpecVersion : Type 0 where
  numbered : ℕ → SpecVersion
  unreadable : String → SpecVersion

abbrev pub v0 : SpecVersion
v0 = numbered 0

unfoldable pub version_text : SpecVersion → String
unfolding decimal
version_text (numbered n) = concat ("v" ∷ decimal n ∷ [])
version_text (unreadable s) = s

abbrev pub same_version : SpecVersion → SpecVersion → Bool
same_version (numbered n) (numbered m) = n == m
same_version (unreadable s) (unreadable t) = s == t
same_version _ _ = false

abbrev pub is_v0 : SpecVersion → Bool
is_v0 v = same_version v v0

abbrev pub is_closed_issue : IssueStatus → Bool
is_closed_issue closed_status = true
is_closed_issue _ = false

abbrev pub is_closed : Phase → Bool
is_closed closed = true
is_closed _ = false

abbrev pub is_paused_phase : Phase → Bool
is_paused_phase paused_phase = true
is_paused_phase _ = false

abbrev pub is_decompose : Phase → Bool
is_decompose phase_3_decompose = true
is_decompose _ = false

abbrev pub is_converge : Phase → Bool
is_converge phase_6_converge = true
is_converge _ = false

abbrev pub is_draft : SpecStatus → Bool
is_draft draft = true
is_draft _ = false

abbrev pub is_approved : SpecStatus → Bool
is_approved approved = true
is_approved _ = false

abbrev pub is_revision_requested : SpecStatus → Bool
is_revision_requested revision_requested = true
is_revision_requested _ = false

abbrev pub is_rejected : SpecStatus → Bool
is_rejected rejected = true
is_rejected _ = false

abbrev pub is_done : ShardStatus → Bool
is_done done_status = true
is_done _ = false

abbrev pub is_blocked : ShardStatus → Bool
is_blocked blocked = true
is_blocked _ = false

abbrev pub is_in_progress : ShardStatus → Bool
is_in_progress in_progress = true
is_in_progress _ = false

-- `status === 'TODO' || status === 'NEEDS-WORK'`
abbrev pub is_open : ShardStatus → Bool
is_open todo = true
is_open needs_work_status = true
is_open _ = false

-- `['IN_PROGRESS', 'TIMEOUT'].includes(status)`
abbrev pub is_interrupted : ShardStatus → Bool
is_interrupted in_progress = true
is_interrupted timeout = true
is_interrupted _ = false

abbrev pub is_test_pass : TestStatus → Bool
is_test_pass test_pass = true
is_test_pass _ = false

abbrev pub is_test_fail : TestStatus → Bool
is_test_fail test_fail = true
is_test_fail _ = false

abbrev pub is_pass : Verdict → Bool
is_pass pass = true
is_pass _ = false

abbrev pub is_needs_work : Verdict → Bool
is_needs_work needs_work = true
is_needs_work _ = false

abbrev pub same_verdict : Verdict → Verdict → Bool
same_verdict pass pass = true
same_verdict needs_work needs_work = true
same_verdict fail fail = true
same_verdict _ _ = false

abbrev pub verdict_text : Verdict → String
verdict_text pass = "PASS"
verdict_text needs_work = "NEEDS-WORK"
verdict_text fail = "FAIL"

abbrev pub severity_text : Severity → String
severity_text minor = "minor"
severity_text major = "major"
severity_text critical = "critical"

abbrev pub shard_status_text : ShardStatus → String
shard_status_text todo = "TODO"
shard_status_text in_progress = "IN_PROGRESS"
shard_status_text implemented = "IMPLEMENTED"
shard_status_text done_status = "DONE"
shard_status_text needs_work_status = "NEEDS-WORK"
shard_status_text failed_status = "FAILED"
shard_status_text blocked = "BLOCKED"
shard_status_text timeout = "TIMEOUT"
