-- ===== src/Lib.antt =====
-- The loop engine of the API: an issue is planned as a spec, a human approves the spec, it is
-- broken down into shards, agents implement, test and review the shards, the whole is reviewed, and
-- the loop is closed with a pull request or starts over in a new round.
--
-- Parts, from the repository's root, and how they interact:
--
--  Schema (Schema/Status, Schema/Records): packages/contracts/src/schemas/loops.schema.ts. Enums are
--  data types, objects are records with the fields that the modelled code reads or writes. A spec
--  version is a number (`v0`, `v1`, ...) or a text whose number cannot be read.
--
--  Store (Store/Files, Store/Writes, Store/Reading, Store/Guard, Store/Doctor):
--  apps/api/libs/domain/services/loops-store/loops-file-store.service.ts. The `.loops` files of one
--  loop are the record `World`; `writeX` is `write_x`, a function of worlds, `readDetail` is
--  `read_detail`, and the cost guard and `resumeInterruptedLoops` are calls. A call is a function from
--  a world to an outcome: a value, or an exception with the files as they were left. Store/Doctor is
--  what `doctor` says of a loop whose files are there.
--
--  Engine (Engine/Ports, Phases, Spec, Scheduler, Closing, Advance):
--  apps/api/libs/domain/services/loops-engine/loops-engine.service.ts. One function per method, over
--  the ports that the source declares; a loop's body is a function of its own where it branches.
--
--  ShardState: apps/api/src/modules/loops/loops-remote-shard-state.adapter.ts.
--  Evidence: apps/api/libs/domain/services/loops-evidence/loops-evidence.service.ts, the coverage.
--
--  Service (Service/Shards, Rounds, Operations): apps/api/src/modules/loops/loops.service.ts. The
--  operations of the API, and the ports that tie the engine to the store, the adapter and the agents.
--
--  Locks (Locks/Backends, Memory, Redis, Requests): apps/api/libs/domain/services/loops-locks. The two
--  backends of the work lock and `withIssueAndRepoLock`; the Redis server is a parameter, with what SET
--  NX, GET and DEL are documented to do as laws. Locks/Promise says what a backend promises;
--  InMemory, OnRedis and Refinement are about it. Locks/Sharing interleaves requests one
--  `await` at a time; Ownership, Exclusion and Safety speak of every interleaving.
--
--  Remote (Remote/Jobs, Port): apps/api/libs/domain/services/loops-remote-runners and
--  apps/api/src/modules/loops/loops-remote-shard-runtime.adapter.ts. A job of a remote runner on one
--  shard, over the same files as the engine; the sandbox is a parameter.
--
--  Triggers (Triggers/Cron, Files, Firing, Scheduler):
--  apps/api/libs/domain/services/loops-triggers, the trigger files of the store, and
--  apps/api/src/modules/loops/loops-trigger-scheduler.processor.ts. Times are milliseconds of a clock
--  without summer time; how a cron text is split into words and numbers is a parameter.
--
--  Quality (Quality/Findings):
--  apps/api/libs/domain/services/loops-quality/loops-second-opinion-comparison.util.ts. The findings of
--  two reviewers; a Map is the list of its entries in their order, the texts' functions and the hash
--  are parameters. Quality/Counting is about the map and the parts of a comparison.
--
--  Targets: apps/api/src/modules/loops/loops-target-url-policy.ts. Which addresses the server may call;
--  the parser of URLs, the split of an address into numbers and the name service are parameters.
--  Targets/Gate is about the whole policy, Targets/Ranges about the numbers of IPv4 and
--  Targets/Addresses about the texts of addresses: it states as a record of laws what isIP of Node and
--  RFC 4291 say of them (parts below 256, groups of at most four hexadecimal digits).
--
--  Delivery (Delivery/Types, Status, Opinions, Gates, Blockers, Summary, Recipe, Artifacts, Report): the
--  rest of apps/api/libs/domain/services/loops-evidence/loops-evidence.service.ts, over the texts and
--  counts that its input types name. An item of the list has no detail; a confidence is counted in
--  hundredths; lower case, the regular expressions and the rounding of a percentage are parameters.
--  Readiness, Oversight, Verdicts, Totals and Tracing are about them. The blockers are a parameter of
--  the engine's model, since its detail has no governance.
--
--  Dashboard (Dashboard/Types, Board, Queues, Inbox): apps/web/app/loops/loops-dashboard-model.ts, the
--  board, the queues and the inbox that the page makes of a list of loops. A Map of costs is the list
--  of its entries, of which the last of a key counts; sort is a stable insertion; the comparison of
--  titles, the reading of a time and the labels of a locale are parameters. Columns, Lanes and Ages are
--  about them.
--
--  Adapters: agents, git, the coding agent, the test runner, the lock as the engine meets it, the
--  release gate's blockers and the text match are parameters. They answer or refuse as they like, may
--  look at the files, and do not write the files of the loop.
--
--  Ledger: what the state, the shards and the records agree on, and its proof call by call.
--  Ending: what a round of the scheduler uses up, and why its fuel is enough.
--  Rules: the promises of single decisions, and in Rules/Doctor what `doctor` finds after them.
--  Samples, Examples: a concrete loop, and the theorems on it.
--
-- Bounds and fuel: numbers are natural numbers (the source counts with small non-negative numbers).
-- The `while` loop of `runLoopUnlocked` runs on `schedule_fuel`, one round for each shard between any
-- two of the max_parallel runs. It is enough: a round blocks a shard whose id was not blocked before, or
-- runs one, which leaves the number of shards as it is. The end of the fuel is an error of its own.
-- `advance` counts its steps as the source does.
--
-- Not modelled: database persistence, the rendered markdown files, the texts and delivery of
-- notifications, times in log lines, failing file writes, concurrent requests (each request runs to its
-- end before the next, except in Locks), the comment on the pull request, the expiry of keys on the
-- Redis server, the receipts and uploads of remote runners, the lock and the queue of the trigger
-- scheduler, the list of triggers by pages, and the other components of the API, the web application
-- and the packages.
-- Records are kept newest first, the order in which a read sorts them. The shards are looked up by the
-- ids that the files hold.
pub mod Base
pub mod Schema
pub mod Store
pub mod Engine
pub mod Adapters
pub mod Evidence
pub mod ShardState
pub mod Service
pub mod Ledger
pub mod Locks
pub mod Remote
pub mod Triggers
pub mod Quality
pub mod Targets
pub mod Delivery
pub mod Dashboard
pub mod Ending
pub mod Rules
pub mod Samples
pub mod Examples
