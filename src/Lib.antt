-- ===== src/Lib.antt =====
-- Verification library of loop-platform-zhb: a server that schedules loops, hands their runs to
-- daemons under one-time leases, and takes reports that end a run and may complete its loop.
--
-- The parts and how they interact. A loop row carries a schedule, a goal and a completion state, and
-- a concurrency token that every write increments. A trigger enqueues a pending exec run; a
-- machine claims it and gets a lease; a report under that lease ends the run, writes the loop, binds
-- the artifact snapshot that the daemon synced, and consumes the lease; management operations change
-- the schedule, the goal, the task file, the artifact directory or the completion; each poll of a
-- machine refreshes its heartbeat and its identity. Pure planners decide what is written;
-- transactions execute the plan under guards and retry once. A manifest of artifacts is checked by
-- one policy that daemon and server share.
--
--   Base       shared: tests, lists, UTF-16 text as lists of code units
--   Terminal   packages/protocol/src/terminal-policy.ts, a child per theory: Unicode, Goal,
--              Capabilities; Terminal/State is the walk of cloneTerminalState, with children for its
--              recursive description and for the accepted values
--   Artifact   packages/protocol/src/artifact-policy.ts: paths and never-sync rules, with children Path,
--              NeverSync and Prefixes; Artifact/Manifest is normalizeManifestEntries
--   Db         packages/server/src/db/schema.ts and packages/protocol/src/enums.ts: the rows
--   Schedule   packages/server/src/schedule/transition.ts: planScheduleTransition; Schedule/Time,
--              Schedule/Validate and Schedule/Iso are packages/server/src/schedule/time-semantics.ts:
--              nextOccurrence and latestOccurrence, validateSchedule, and the persisted forms
--   WriteSet   packages/server/src/store/report.ts: buildReportWriteSet
--   Lifecycle  packages/server/src/loop-lifecycle/index.ts: planGoalUpdate, planFinish, planReopen;
--              Lifecycle/Report is planReportWrites
--   Store      packages/server/src/store/guard-retry.ts and the tables; Store/Occ the concurrency token;
--              Store/Manage is packages/server/src/loop-lifecycle/ops.ts, Store/Runs
--              packages/server/src/store/runs.ts, a child per operation: Claim, Reclaim, Scheduled;
--              Store/Schedules is packages/server/src/schedule/state-machine.ts, Store/Report
--              packages/server/src/store/report.ts, Store/Binding
--              packages/server/src/artifact/binding-plan.ts, Store/Configuration
--              packages/server/src/artifact/config.ts, Store/Machines
--              packages/server/src/store/machines.ts, Store/Dates
--              packages/server/src/store/leases.ts
--   Scenarios  a small platform on which the definitions are evaluated
--
-- How code becomes definitions. A function of the source keeps its name in snake case. A table is a
-- list of rows, `SELECT … [0]` the first match, an update by a unique key the update of the first row
-- with it. A thrown guard error is `guard_lost`, which rolls back. An operation that resolves rows
-- before its transaction takes two databases, the one seen and the one written; what may happen
-- between them is a hypothesis: every row has stayed or its token has grown. Stamps are the texts of
-- toISOString(); Date.parse is a parameter, `DateApi`, as is the calendar that the RFC 3339 parser
-- uses, `Calendar`. The cron library is the parameter `CronApi`, and what a theorem needs of it stands
-- among its hypotheses. GREATEST of the database, which compares stamps as texts, is an argument of
-- the contact. The instants of a schedule are milliseconds from the start of year 0. Texts
-- are lists of UTF-16 code units, so that lengths, surrogates and UTF-8 sizes are those of the engine.
-- Identifiers are numbers.
--
-- Bounds and fuel. Revisions are natural numbers with the source's own int32 ceiling. The walk of
-- Terminal/State has as its fuel the number of turns that its input takes; a walk cut off before
-- its end would be `unfinished`, a result that the source does not have. The loop of
-- nextOccurrence has the source's own 6000 turns, the contact of a machine its three attempts. The
-- two loops of latestOccurrence have 53 turns each, for instants are below 2 ^ 53 and both loops
-- halve or double.
--
-- Not modelled. HTTP, authentication, the dashboard, blob storage and the daemon's processes are
-- I/O; the artifact sync sessions, progress entries, the scheduler's timers and the canonical JSON of
-- fingerprints are outside this model.
pub mod Artifact
pub mod Base
pub mod Terminal
pub mod Db
pub mod Schedule
pub mod WriteSet
pub mod Lifecycle
pub mod Store
pub mod Scenarios
