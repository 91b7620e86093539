-- ===== src/Client.antt =====
-- The client's side: CXCommunicationClient/src/CXTcpClient.cpp and CXClientSocketChannel.cpp.
pub mod Tcp
pub mod Packets
pub mod Channel
mod Tests
