-- ===== src/Session.antt =====
-- src/Session.h and src/Session.cpp: the FIX session.
pub mod State
pub mod Send
pub mod Recovery
pub mod Validate
pub mod Handlers
pub mod Receive
pub mod Update
pub mod Rules
pub mod Frame
pub mod Accept
pub mod Quiet
pub mod GapFill
pub mod Sent
pub mod Resets
pub mod Silence
