-- ===== src/Dspmqrtj.antt =====
-- dspmqrtj: the route of a message, from the trace-route reports that it leaves.
pub mod Format
pub mod Activities
pub mod Parse
pub mod Summary
pub mod Route
pub mod Sending
