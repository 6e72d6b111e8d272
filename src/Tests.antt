-- ===== src/Tests.antt =====
-- Runs of the modelled code, with the library's theorems applied to them.
mod Copies
mod Settings
mod Files
mod Collectors
mod Routes
mod Events
mod Telemetry
mod Points
mod Startup
mod Scrapes
