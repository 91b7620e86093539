-- ===== src/Coding.antt =====
-- CXDataParser: the encryption and the compression of packet bodies.
pub mod Ciphers
pub mod Rsa
pub mod Keys
pub mod Parser
pub mod Tests
