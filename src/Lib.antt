-- ===== src/Lib.antt =====
-- A model of the Shipwick agent: the program that deploys applications on one server, keeps
-- their replicas alive and warns its operator.
--
-- The parts, and the files that model them:
--   Status      the state machine of a deployment: agent/internal/deploy/state.go, the
--               statuses of pkg/api/types.go and the order of progress of deploy/rollout.go.
--               `can_transition` is CanTransition. Machine is about single steps, Traces about
--               whole histories.
--   Records     the tables of deployments and applications:
--               agent/internal/store/deployments.go and applications.go, with the table of
--               replicas in Replicas. A table is the list of its rows, an operation a function
--               from tables to a result (`activate_deployment` is ActivateDeployment). Its
--               argument `takes` says whether the database takes the statements. Histories is
--               the relation of all sequences of operations.
--   Settle      how the engine writes a status and the end of a deployment: `transition`,
--               `transition_with_error` (deploy/engine.go), `reach` (deploy/rollout.go),
--               `write_end`, `settle` and `retry_settling` (deploy/settle.go). They call
--               Status and Records.
--   Supervisor  what the supervisor remembers of a replica and does with it:
--               agent/internal/deploy/supervisor.go. Supervisor.antt has the state of one
--               replica, Handlers the handlers over the books of all of them, Book the map
--               that holds them, Ticks one tick over all applications; Pacing has the step
--               function `happens`, the abstract view of one replica, which Refinement relates
--               to the handlers.
--   Rollout     how a new version replaces the old one: agent/internal/deploy/rollout.go, with
--               `batches`, `swap` and the loop `roll` over the batches.
--   Alerts      when a warning is raised, told and cleared: agent/internal/deploy/alerts.go.
--               Memory has `check_memory`.
--   Locks       who owns an application: `try_lock`, `release` and `op_done` of
--               deploy/engine.go, with the relation of their interleavings in Exclusion.
--   Outage      a Docker daemon that does not answer: deploy/outage.go.
--   Views       the status that the operator is shown: deploy/views.go, over the books of
--               Supervisor.
--   Cron        schedules: `matches` and `next` of pkg/cron/cron.go over the calendar of Go's
--               time package (Calendar).
--   Backupfile  the encrypted form of a backup: pkg/backupfile/backupfile.go. Stream has the
--               writer's chunks against a reference that takes bytes one by one, Chunks the
--               reader's, Files whole files, Header the header and Sizes `plain_size`.
--   Sealing     what the database keeps sealed: agent/internal/store/crypto.go. Legacy is the
--               pass over records of earlier releases.
--   Rotation    the rotation of the encryption key: agent/internal/store/rotation.go.
--               `rotate_key` is RotateKey, `settle_rotation` what a start does with what it left.
--               Each and Contents are about the re-encryption, Crashes and Stops about the disk
--               wherever a rotation stops, Unfit, Lost and Losses about one rotation after another.
--   Upstreams   which replicas the proxy sends requests to: caddy/table.go. Worlds is the relation
--               of all interleavings of requests, lookups and drops of one name, Fresh, Lookups and
--               Drops what holds in all of them.
--   Uploads     how an archive goes to a bucket: agent/internal/backup/multipart.go.
--   Retention   which backups stay: `prune_backups` of deploy/backups.go. Races is about a list
--               of runs that is out of date.
--   BackupRuns  the records of backups: agent/internal/store/backups.go. Works has the relation of
--               all orders in which backups are taken, verified, restored and removed, Ends and
--               Claimed what holds in all of them, Outcomes what stays of a completed backup.
--   Scheduling  which jobs are started when: deploy/schedule.go and deploy/jobs.go, over Cron and
--               Locks (`schedule_jobs` is scheduleJobs, `start_job` is startJob). Due is about when
--               a job is due, Starts about what a look starts, Single about all orders of looks,
--               starts and ends, Tiles and Orders about the windows of the looks.
--   Routing     which hostname the proxy sends where: deploy/routing.go. `routes_for` is
--               routesFor, `check_domain` (in Domains) is checkDomain. Texts, Claims and Turns
--               follow what is taken step by step, Apart is about any plans; Conflicts and Passed
--               are about what checkDomain lets pass, Whole, Plans and Complete about the routes of
--               such plans.
--   Base        what the parts share: Boolean tests on numbers, lists, results, tables.
--   Examples    runs on small inputs, one module for each part.
--
-- Numbers are natural numbers: times and durations are nanoseconds (seconds and minutes in
-- Cron and Scheduling), ids and indexes are small in the source as well. A list of rows or a map with keys is
-- a list. Functions are by structural recursion, but the search for the next minute of a
-- schedule, whose fuel is the number of minutes up to the limit of the search, and each turn
-- goes at least one minute on; the writer's loop, whose fuel is the number of bytes it is given,
-- of which each turn takes some; and the reader's, whose fuel is the size of the file, of which
-- each turn takes a chunk; an upload's is the size of the archive, of which each part takes
-- some.
--
-- What the program is told from outside (whether the database takes a statement, what Docker
-- and the proxy answer, whether the context has ended, the time) is an argument. The ciphers
-- (AES-GCM, PBKDF2, base64) are parameters with the laws that the code relies on, in the records
-- `IsAead` and `IsCipher`; so is the order that addresses are sorted in, and so are strings.ToLower and
-- strconv.Itoa in Routing. Not modelled:
-- the SQL engine, the Docker client, the HTTP API, goroutines and waiting, the JSON of the proxy's
-- configuration, archives and object storage, the command line and the dashboard; events and log lines are left
-- out, or stand without their words.
pub mod Base
pub mod Status
pub mod Records
pub mod Settle
pub mod Supervisor
pub mod Rollout
pub mod Alerts
pub mod Locks
pub mod Cron
pub mod Outage
pub mod Views
pub mod Backupfile
pub mod Sealing
pub mod Rotation
pub mod Upstreams
pub mod Uploads
pub mod Retention
pub mod Scheduling
pub mod Routing
pub mod BackupRuns
pub mod Examples
