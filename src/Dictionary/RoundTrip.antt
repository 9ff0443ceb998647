-- ===== src/Dictionary/RoundTrip.antt =====
-- The parser of src/Dictionary.cpp reads back the messages that src/Message.cpp writes.
pub mod Fill
pub mod Part
pub mod Readable
pub mod Run
pub mod Serialized
pub mod Transitions
pub mod Verify
pub mod Whole
pub mod Wire
