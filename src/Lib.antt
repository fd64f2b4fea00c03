-- ===== src/Lib.antt =====
-- Joulenap: backups for Proxmox on machines that sleep. A route backs up, syncs, watches or
-- verifies; the service queues its run, a lease wakes the backup servers it needs and puts them to
-- sleep again, and a recorder writes the history row.
--
-- Prelude has Python's `str` (as a list of code points), `dict` and the list functions. The other
-- modules follow the files of the repository:
--   Config     backend/app/config.py: devices and routes; Config.Validation has the validators
--              `_check_power_fields`, `_check_kind`, `_check_references`.
--   Effects    the actions that the modules below are written in: an action is a function of the
--              world that returns or raises, as Python code does. What the code calls outside
--              backend/app/jobs (a packet, a probe, an SSH command, a commit, a notification, the
--              clock, another thread's cancel) is a field of `Env`, any function of the calls made
--              so far. Effects.Binds, Effects.Keeps and Effects.Blames are
--              its proof rules.
--   Lease      backend/app/jobs/lease.py: `acquire`, `release`, `_bring_up`, `_power_off`. The
--              sections that hold the lock are `join`, `hold` and `drop`; Lease.Races interleaves
--              them, and `acquire` and `release` run them with nothing in between.
--   Service    backend/app/jobs/service.py: the queue, cancelling, the single-run lock,
--              `_resolve`, `_pending_pbs_keys`. A method is one step, but `cancel`, which takes no
--              lock, is two. Service.Sessions interleaves the requests with the drain thread.
--   Recorder   backend/app/jobs/recorder.py: steps, `finish`, the safety net of `__exit__`.
--   Execute    backend/app/jobs/service.py, `_execute`: wake, job, release, notify. The job is a
--              parameter here; the lock that `_execute` releases at its end is Service's.
--   Remote, Jobs  backend/app/jobs/backup_cycle.py and route_cycle.py: what a run does while its
--              boxes are awake. The clients of Proxmox servers and the tables of the history
--              database are the fields of `Jobs.Clients.Clients`. Jobs.Guests groups guests and reads
--              vzdump's lines, Jobs.Tasks waits for tasks, Jobs.Steps has the shared steps,
--              Jobs.Backup and Jobs.Sync the two long cycles, Jobs.Routes the other kinds and the
--              dispatch, and Jobs.Runs gives them to Execute as its job.
--   Tree       the plain data of configurations: `dict`, `list`, `str` and so on.
--   Secrets    backend/app/config.py: `redact`, `restore_secrets_from`, `deep_merge`.
--   Polling    backend/app/connectors/_tasks.py, `poll_task`: the wait for a remote task and the tail
--              of its log.
--   Reachable  backend/app/connectors/net.py, `wait_until_reachable`.
--   WolTarget  backend/app/connectors/net.py, `wol_target`.
--   RateLimit  backend/app/core/ratelimit.py and its use in backend/app/api/auth.py, whose handlers
--              RateLimit.Guesses interleaves section by section.
--   Scheduler  backend/app/core/scheduler.py: crontab lines, weekdays, arming; Catchup has
--              backend/app/core/catchup.py. Triggers are those of APScheduler, a parameter.
--   ConfigApi  backend/app/api/config.py and api/_config_edit.py with core/config_store.py: a change
--              of the configuration. MacAddress has the parser of backend/app/connectors/wol.py.
--   Migrate    backend/app/config_migrate.py: the conversion of a 0.9 configuration, on plain data.
--   Examples   a small installation, tests, and each theorem with hypotheses applied to it.
--
-- On fuel are `Service.drain`, one unit for each entry that it executes,
-- `Polling.poll_task`, one for each batch of log lines and one for each turn, and
-- `Reachable.wait_until_reachable`, one for each turn, and the loops of `Jobs.Sync.drop_sync_config`
-- and `Jobs.Tasks.watch_external_tasks`, one for each attempt or poll; how much is enough is the
-- subject of Service.Queue, Polling.Ends, Reachable.Waits and Jobs.Sync.Cleanup. A box whose tasks
-- never end is watched for ever, so no fuel is enough for the external watch: out of fuel it
-- raises, and the run is one that failed. Wake attempts recurse on the attempts left.
-- Times are natural numbers, in milliseconds where the lease compares them.
--
-- Not modelled: texts and times of history rows, log lines, stored task logs, the other connectors
-- and handlers of the HTTP API, notifications and the frontend. They are I/O, texts, or calls of
-- third-party libraries.
mod Prelude
pub mod Config
pub mod Effects
pub mod Remote
pub mod Scheduler
pub mod Catchup
pub mod MacAddress
pub mod ConfigApi
pub mod Migrate
pub mod Jobs
pub mod Lease
pub mod Service
pub mod Recorder
pub mod Execute
pub mod RateLimit
pub mod Polling
pub mod Reachable
pub mod WolTarget
pub mod Tree
pub mod Secrets
pub mod Examples
