-- ===== src/Config.antt =====
-- The package pkg/config: parameters from the command line, the environment and a YAML file.
pub mod Parms
pub mod Init
pub mod Record
pub mod NameSets
pub mod Yaml
pub mod Verify
pub mod Start
