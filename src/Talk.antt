-- ===== src/Talk.antt =====
-- The voice-call example under cmd/talk: datagrams, playout, PCM and the two loops on the network.
pub mod Wire
pub mod Jitter
pub mod Audio
pub mod Network
