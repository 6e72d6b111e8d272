-- ===== src/Json.antt =====
-- The JSON collector, cmd/mq_json.
pub mod Chunk
pub mod Fixup
pub mod Poll
pub mod Points
pub mod Collect
pub mod Connect
pub mod Labels
pub mod Settings
