-- ===== src/Net.antt =====
-- The network protocol of src/net.
pub mod Frame
pub mod Messages
