-- ===== src/Config/Verify.antt =====
-- pkg/config/config.go: VerifyConfig.
pub mod Steps
pub mod Late
pub mod Whole
pub mod Frames
pub mod Kept
pub mod Verified
pub mod Untouched
