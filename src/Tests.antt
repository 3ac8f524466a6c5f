-- ===== src/Tests.antt =====
-- Runs of the model on small inputs, and the theorems at such inputs.
mod ProcessGroup
mod Lock
mod Removal
mod Reconcile
mod Replacement
mod Database
mod Configuration
mod Locality
mod Checks
mod Coordinators
