-- ===== src/Reconciler.antt =====
-- internal/reconciler: the loops that bring the runners and their records to what is wanted.
pub mod Records
pub mod Classify
pub mod Runner
pub mod Workloads
pub mod StartDecision
pub mod Stop
pub mod Placement
pub mod Listings
pub mod Identity
pub mod VolumeRecords
pub mod Start
pub mod Sandbox
pub mod ShellSnapshot
pub mod Volumes
pub mod Metering
pub mod Orphans
pub mod GroupRoles
pub mod Diff
pub mod Desired
pub mod Cycles
