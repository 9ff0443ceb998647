-- ===== src/Network.antt =====
-- src/Network.h and src/Network.cpp: the parts that keep state of their own.
pub mod Framing
pub mod Handler
pub mod Reader
pub mod Writes
