-- ===== src/Snull.antt =====
-- snull/snull.c and snull/snull.h: a pair of looped-back network devices.
pub mod Types
pub mod Buffers
pub mod Receive
pub mod Transmit
pub mod Chains
pub mod Setup
pub mod Registration
pub mod Run
mod Tests
