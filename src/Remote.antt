-- ===== src/Remote.antt =====
-- What the jobs of backend/app/jobs ask of Proxmox servers and of the history database beyond a
-- run's row, and what a job keeps while it runs.
use joulenap.Prelude.{ℕ, Bool, Option, List, [], Text, Dict}

-- A call of a client (backend/app/connectors), by the device it goes to.
pub data Call : Type 0 where
  connected guests_listed datastore_read gc_started prune_started backups_read tasks_read
        sync_names_read :
      Text → Call
  vzdump_started : Text → Text → Call  -- the server, the node
  verify_started : Text → Bool → Option ℕ → Call
  task_awaited task_stopped task_log_read : Text → Call  -- the task
  stat_saved backups_saved : Text → Call
  sync_job_deleted remote_deleted remote_ensured sync_job_ensured sync_job_run : Text → Text → Call  -- the server, the name
  slept : ℕ → Call

-- `notify/messages.py`, GuestSummary.
pub record GuestSummary : Type 0 where
  pub total : ℕ
  pub ok : ℕ
  pub failed : List Text

-- The variables of `run_route_backup` that outlive a step that raises, with `upids`, the list of
-- that name in `_route_backup_source`. A set of vmids is a list of them.
pub record Cycle : Type 0 where
  pub guests : GuestSummary
  pub covered : Dict (List ℕ)
  pub failed : List Text
  pub upids : List Text

abbrev pub new_cycle : Cycle
new_cycle = record {
  guests = record { total = 0; ok = 0; failed = [] };
  covered = [];
  failed = [];
  upids = [];
}
