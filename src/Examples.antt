-- ===== src/Examples.antt =====
-- Tests on concrete inputs, of the code and of the theorems' conditions.
mod Flags
mod Cluster
mod Solve
mod Registry
mod Builder
mod Commands
mod Targets
mod Wiring
