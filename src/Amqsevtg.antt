-- ===== src/Amqsevtg.antt =====
-- amqsevtg: event messages as JSON.
pub mod Names
pub mod Values
pub mod Callback
pub mod Elements
pub mod Events
pub mod Output
pub mod Open
