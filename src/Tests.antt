-- ===== src/Tests.antt =====
-- Concrete runs of the model, and its theorems at concrete inputs.
mod Packets
mod Calls
mod Sound
mod Peers
mod Gains
pub mod Whole
mod Decoding
mod Encoding
