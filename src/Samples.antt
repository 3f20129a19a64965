-- ===== src/Samples.antt =====
-- A loop with one shard, in the stages of its life, and adapters that answer at once.
pub mod Locks
pub mod Delivery
pub mod Dashboard
pub mod Remote
pub mod Triggers
use vibecoding_dofe_ai.Base.{ℕ, true, false, [], ◌∷◌, none, some, decimal}
use vibecoding_dofe_ai.Schema.{
  phase_8_annotate, Issue, Spec, Shard, ImplementationRecord, TestRecord, ReviewRecord, StateItem,
  ReviewShardRequest, ShardStatus, Phase, SpecVersion, numbered, approved, closed, in_loop,
  implemented, in_progress, done_status, todo, phase_0_intake, phase_3_decompose, phase_5_review,
  test_pass, pass,
}
use vibecoding_dofe_ai.Store.{World, Env, answer}
use vibecoding_dofe_ai.Engine.{AgentAdapter, ReviewOutput}
use vibecoding_dofe_ai.Adapters.{Adapters}

abbrev pub sample_env : Env
sample_env = record {
  config = record {
    context_budget = 24000;
    max_parallel = 2;
    max_reloop = 3;
    max_shard_redo = 3;
    token_cap_per_loop = 1000;
    call_cap_per_loop = 50;
    default_commands = "pnpm test" ∷ [];
    regression_commands = "pnpm test" ∷ [];
  };
  clock = record { iso = decimal; millis = λ n. n };
}

abbrev pub sample_issue : Issue
sample_issue = record {
  id = "issue-7";
  title = "A page";
  status = in_loop;
  updated = "0";
  submitter_id = "ada";
  target_repo = "repo";
  body = "Add the page.";
  acceptance_criteria = [];
}

abbrev pub sample_spec : Spec
sample_spec = record {
  id = "spec-7-v1";
  issue_id = "issue-7";
  version = numbered 1;
  status = approved;
  created = "0";
  approved_by = some "ada";
  context_budget = 24000;
  body = "Add the page.";
}

abbrev pub sample_shard : ShardStatus → Shard
sample_shard status = record {
  id = "shard-1";
  spec_id = "spec-7-v1";
  title = "The page";
  status = status;
  depends_on = [];
  est_context = 100;
  acceptance = [];
  files_hint = [];
}

abbrev pub sample_implementation : ImplementationRecord
sample_implementation = record {
  id = "impl-1";
  issue_id = "issue-7";
  shard_id = "shard-1";
  round = 1;
  implementer = "claude";
  summary = "Added";
  changed_files = "page.tsx" ∷ [];
  notes = none;
  created = "1";
  tokens = some 10;
}

abbrev pub sample_test : TestRecord
sample_test = record {
  id = "test-1";
  issue_id = "issue-7";
  shard_id = "shard-1";
  round = 1;
  runner = "loops-runner";
  status = test_pass;
  commands = "pnpm test" ∷ [];
  failed_tests = [];
  fix_instructions = [];
  created = "1";
}

abbrev pub sample_state : Phase → (shards_total : ℕ) → SpecVersion → StateItem
sample_state phase shards_total version = record {
  issue_id = "issue-7";
  phase = phase;
  round = 1;
  spec_version = version;
  shards_total = shards_total;
  shards_done = 0;
  shards_in_progress = 0;
  reloop_count = 0;
  cost_tokens = 0;
  cost_calls = 0;
  updated = "0";
  paused = false;
  global_verdict = none;
  finalized = false;
}

abbrev pub new_world : World
new_world = record {
  issue = sample_issue;
  state = sample_state phase_0_intake 0 (numbered 0);
  specs = [];
  shards = [];
  test_matrix = none;
  annotations = [];
  implementations = [];
  test_records = [];
  review_records = [];
  global_review = none;
  convergence_pr = none;
  learnings = [];
  log = [];
  notifications = [];
  ticks = 0;
}

-- The shard is implemented and tested, and waits for its review.
abbrev pub tested_world : World
tested_world = record new_world {
  state = sample_state phase_5_review 1 (numbered 1);
  specs = sample_spec ∷ [];
  shards = sample_shard implemented ∷ [];
  implementations = ("shard-1", sample_implementation) ∷ [];
  test_records = sample_test ∷ [];
}

abbrev pub untested_world : World
untested_world = record tested_world { test_records = [] }

-- The spec was approved once more after the loop had been decomposed.
abbrev pub stuck_world : World
stuck_world = record tested_world { state = sample_state phase_3_decompose 1 (numbered 1) }

abbrev pub closed_world : World
closed_world = record tested_world { state = sample_state closed 1 (numbered 1) }

abbrev pub interrupted_world : World
interrupted_world = record tested_world { shards = sample_shard in_progress ∷ [] }

abbrev pub said : ReviewOutput
said = record { verdict = pass; issues = []; fix_instructions = []; summary = "good" }

abbrev pub sample_agent : AgentAdapter
sample_agent = record {
  plan = λ issue created w. answer sample_spec;
  decompose = λ issue spec w. answer (record { shards = sample_shard todo ∷ []; annotations = [] });
  design_tests = λ issue spec shards created w.
      answer
        (record { id = "matrix"; issue_id = issue.id; spec_id = spec.id; required_tests = [] });
  review_tests = λ matrix test w.
      answer
        (record { test_verdict = test_pass; issues = []; fix_instructions = []; summary = "" });
  review = λ shard impl test w. answer said;
  review_global = λ detail w. answer said;
  annotate_finalize = λ detail pr w. answer [];
}

abbrev pub sample_adapters : Adapters
sample_adapters = record {
  agent = sample_agent;
  git = record {
    commit_shard = λ issue shard files w.
        answer (record { shard_id = shard.id; committed = true; message = "" });
    create_convergence_pr = λ detail commits w. answer (record {
      id = "pr-1";
      issue_id = detail.issue.id;
      branch = "loop";
      url = none;
      pr_body = "";
      created = "2";
    });
  };
  run_agent = λ issue shard round w. answer sample_implementation;
  run_commands = λ shard_id round runner commands w. answer sample_test;
  acquire_lock = λ issue_id repo w. answer tt;
  release_blockers = λ detail. "gate" ∷ [];
  build_learnings = λ detail pr created. [];
  text_matches = λ text criterion. true;
}

abbrev pub pass_request : ReviewShardRequest
pass_request = record {
  reviewer = "codex";
  verdict = pass;
  summary = "good";
  issues = [];
  fix_instructions = [];
}

abbrev pub sample_review : ReviewRecord
sample_review = record {
  id = "review-1";
  issue_id = "issue-7";
  shard_id = "shard-1";
  round = 1;
  reviewer = "codex";
  verdict = pass;
  issues = [];
  fix_instructions = [];
  summary = "good";
  created = "2";
}

abbrev pub reviewed_world : World
reviewed_world = record tested_world {
  shards = sample_shard done_status ∷ [];
  review_records = sample_review ∷ [];
}

-- The review of the whole has passed, and the release gate is free.
abbrev pub passed_world : World
passed_world = record reviewed_world {
  state = record (sample_state phase_8_annotate 1 (numbered 1)) { global_verdict = some pass };
}

abbrev pub ready_adapters : Adapters
ready_adapters = record sample_adapters { release_blockers = λ detail. [] }
