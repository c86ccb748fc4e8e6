-- ===== src/Reconciler/Cycles.antt =====
-- The loops over runners, as workload_reconcile.go and volume_reconcile.go share their form, and
-- the children: the two loops themselves, and the main cycle of reconciler.go.
pub mod Group
pub mod Settle
pub mod WorkloadLoop
pub mod VolumeLoop
pub mod Main
