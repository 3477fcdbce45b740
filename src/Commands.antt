-- ===== src/Commands.antt =====
-- pkg/cmd: the commands, from their flags to the calls of the other parts. The command line library fills
-- in the flags.
pub mod Maps
pub mod Create
pub mod Build
pub mod Builders
pub mod Context
pub mod Creation
pub mod Targets
