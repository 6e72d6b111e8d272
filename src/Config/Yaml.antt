-- ===== src/Config/Yaml.antt =====
-- pkg/config/configyaml.go: what a YAML file adds to the configuration.
pub mod Copy
pub mod Types
pub mod Rows
pub mod Filters
pub mod Whole
pub mod Join
pub mod Precedence
pub mod Copied
pub mod Faults
