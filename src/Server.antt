-- ===== src/Server.antt =====
-- CXCommunicationServer: the objects that the server keeps, and who has them.
pub mod Digits
pub mod Connections
pub mod Session
pub mod Sessions
pub mod Objects
pub mod Sequence
pub mod Login
mod Tests
mod SessionTests
mod LoginTests
