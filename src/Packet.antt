-- ===== src/Packet.antt =====
-- What the connections of server and client exchange.
pub mod Header
pub mod Receiver
pub mod Stream
pub mod Sender
pub mod Closing
pub mod Sending
pub mod Processing
pub mod Reading
pub mod Callbacks
pub mod Requests
mod Tests
mod LinkTests
mod RequestTests
