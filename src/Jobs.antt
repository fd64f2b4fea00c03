-- ===== src/Jobs.antt =====
-- backend/app/jobs/backup_cycle.py and backend/app/jobs/route_cycle.py: what a run does while its
-- boxes are awake.
pub mod Clients
pub mod Guests
pub mod Tasks
pub mod Steps
pub mod Backup
pub mod Sync
pub mod Routes
pub mod Frame
pub mod Blames
pub mod Runs
pub mod Answer
pub mod Turns
