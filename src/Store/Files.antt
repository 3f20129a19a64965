-- ===== src/Store/Files.antt =====
-- The `.loops` files of one loop as a record, and the calls that read and change them. A call ends
-- with a value or by an exception; what it has written before the exception stays.
use vibecoding_dofe_ai.Base.{ℕ, suc, Bool, String, List, Option}
use vibecoding_dofe_ai.Schema.{
  Issue, Spec, Shard, Annotation, TestMatrix, ImplementationRecord, TestRecord, ReviewRecord,
  GlobalReviewRecord, ConvergencePr, Learning, StateItem, SpecStatus, TestStatus, Verdict, Phase,
}

-- The `type` of a line of `log.jsonl`, with its payload.
pub data LogEntry : Type 0 where
  spec_state : (issue spec : String) (to : SpecStatus) (reviewer : Option String) → LogEntry
  cost_trip : (loop : String) (cost_tokens cost_calls token_cap call_cap : ℕ) → LogEntry
  test_matrix_entry : (issue spec : String) (required_count : ℕ) → LogEntry
  annotate : (issue : String) (number : ℕ) → LogEntry
  test_run : (loop shard : String) (status : TestStatus) (commands : List String) → LogEntry
  implementation_record : (loop shard implementer : String) (changed_files : List String) → LogEntry
  review_record : (loop shard : String) (verdict : Verdict) (reviewer : String) → LogEntry
  shard_state : (loop shard from to actor : String) → LogEntry
  global_review_entry : (loop : String) (verdict : Verdict) (reviewer : String) → LogEntry
  final_annotate : (loop pr : String) → LogEntry
  human_intervene :
      (loop action actor : String) (shard : Option String) (notes : Option String) → LogEntry
  reset_shards : (loop : String) (shards : List String) → LogEntry
  loop_intervention : (issue action actor : String) → LogEntry
  scheduler_batch :
      (loop : String) (max_parallel context_budget advanced blocked recovered : ℕ) → LogEntry
  scheduler_recovered : (loop : String) (shards : List String) → LogEntry
  context_budget_exceeded : (loop shard : String) (est_context context_budget : ℕ) → LogEntry
  reloop_limit : (loop : String) (max_reloop : ℕ) (verdict : Verdict) → LogEntry
  reloop_entry : (loop : String) (verdict : Verdict) (round reloop_count max_reloop : ℕ) → LogEntry
  advance_limit : (issue : String) (status : Phase) (max_steps : ℕ) → LogEntry
  shard_commit : (loop shard : String) (committed : Bool) → LogEntry
  shard_redo_limit : (loop shard : String) (max_shard_redo needs_work_count : ℕ) → LogEntry
  global_regression : (loop : String) (status : TestStatus) (commands : List String) → LogEntry
  notification_recorded : (issue kind recipient : String) → LogEntry

pub record Notification : Type 0 where
  pub issue_id : String
  pub kind : String
  pub recipient : String

pub record World : Type 0 where
  pub issue : Issue
  pub state : StateItem
  -- `specs/<issue>/spec.<version>.json`, the last written first
  pub specs : List Spec
  -- `shards/<issue>/shards.json`
  pub shards : List Shard
  pub test_matrix : Option TestMatrix
  pub annotations : List Annotation
  -- `runs/<issue>/<shard>/round-<n>/implementation.json` with the shard of the path, newest first
  pub implementations : List (String × ImplementationRecord)
  pub test_records : List TestRecord
  pub review_records : List ReviewRecord
  pub global_review : Option GlobalReviewRecord
  pub convergence_pr : Option ConvergencePr
  pub learnings : List Learning
  pub log : List LogEntry
  pub notifications : List Notification
  -- how many times the clock was read
  pub ticks : ℕ

pub data Error : Type 0 where
  bad_request not_found failure : String → Error

pub data Outcome (A : Type 0) : Type 0 where
  done : A → World → Outcome A
  thrown : Error → World → Outcome A

abbrev pub M : Type 0 → Type 0
M A = World → Outcome A

infixl 5 ◌>>=◌ ◌>>◌
abbrev pub ◌>>=◌ : {A B : Type 0} → M A → (A → M B) → M B
◌>>=◌ m f w = elim (m w) [ done a w' ↦ f a w' | thrown e w' ↦ thrown e w' ]

abbrev pub ◌>>◌ : {B : Type 0} → M (Unit {0}) → M B → M B
◌>>◌ m k w = elim (m w) [ done _ w' ↦ k w' | thrown e w' ↦ thrown e w' ]

abbrev pub return : {A : Type 0} → A → M A
return a w = done a w

abbrev pub throw : {A : Type 0} → Error → M A
throw e w = thrown e w

-- A write, as a call.
abbrev pub exec : (World → World) → M (Unit {0})
exec f w = done tt (f w)

-- The files at the end of a call.
abbrev pub final : {A : Type 0} → Outcome A → World
final (done a w) = w
final (thrown e w) = w

-- A call of a process or a service that does not touch the files.
pub data Reply (A : Type 0) : Type 0 where
  answer : A → Reply A
  refusal : Error → Reply A

abbrev pub Call : Type 0 → Type 0
Call A = World → Reply A

abbrev pub call : {A : Type 0} → Call A → M A
call c w = elim (c w) [ answer a ↦ done a w | refusal e ↦ thrown e w ]

-- `loops-runtime-config.util.ts`: what the modelled code reads of the configuration.
pub record RuntimeConfig : Type 0 where
  pub context_budget : ℕ
  pub max_parallel : ℕ
  pub max_reloop : ℕ
  pub max_shard_redo : ℕ
  pub token_cap_per_loop : ℕ
  pub call_cap_per_loop : ℕ
  pub default_commands : List String
  pub regression_commands : List String

-- What the n-th reading of the clock gives: `new Date().toISOString()` and `Date.now()`.
pub record Clock : Type 0 where
  pub iso : ℕ → String
  pub millis : ℕ → ℕ

pub record Env : Type 0 where
  pub config : RuntimeConfig
  pub clock : Clock

unfoldable pub tick : World → World
tick w = record w { ticks = suc w.ticks }

unfoldable pub now : Env → M String
unfolding tick
now env w = done (env.clock.iso w.ticks) (tick w)

unfoldable pub now_millis : Env → M ℕ
unfolding tick
now_millis env w = done (env.clock.millis w.ticks) (tick w)
