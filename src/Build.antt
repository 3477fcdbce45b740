-- ===== src/Build.antt =====
-- pkg/build: the flag parsers, the choice of drivers, the build inputs, the solve options
-- and the goroutines of a build.
pub mod Entitlements
pub mod Cache
pub mod Secrets
pub mod Ssh
pub mod Hosts
pub mod Outputs
pub mod Drivers
pub mod Inputs
pub mod SolveOpt
pub mod MultiNode
pub mod Orchestration
pub mod Targets
pub mod Launch
pub mod Loaders
