-- ===== src/Lib.antt =====
-- KonsanNet, a C++ library of servers that exchange packets over TCP and call objects of each other.
-- A connection receives bytes into buffers of the memory caches, cuts them into packets, and hands
-- these as tasks to a pool of threads; queues of the containers stand between the threads.
--
-- What is modelled, by file:
--   Container/QueueData   CXContainer/src/CXQueueData.cpp: CXQueueData, a list over a pool of nodes. The
--                         object keeps `next`, `prev` and `value` of every node, pointers as numbers
--                         and NULL as none; allocate_memory_block, get_node, free_node, push, pop_front,
--                         front, clear, init and destroy are the operations of those names.
--   Container/Queue       CXContainer/src/CXQueue.cpp: CXQueue, two pools that are swapped to give memory
--                         back (CXList.cpp is the same class under another name).
--   Memory/Cache          CXMemoryCache/src/CXMemoryCache.cpp: CXMemoryCache, the free list of buffers.
--   Memory/Elastic        CXMemoryCache/src/CXElasticMemoryCache.cpp: two caches that are swapped.
--   Memory/Manager        CXMemoryCache/src/CXMemoryCacheManager.cpp: the kinds of caches by size, their
--                         arrays, the buffers taken from them, and the spin lock m_lock.
--   Server/Connections    CXCommunicationServer/src/CXConnectionsManager.cpp: the pending, used, released
--                         and free connections, and the pools of connections to other servers. Its child
--                         Lifecycle is a step relation on the calls of CXCommunicationServer.cpp.
--   Server/Session        CXCommunicationServer/src/CXConnectionSession.cpp: a client's session.
--   Server/Sessions       CXCommunicationServer/src/CXSessionsManager.cpp: the free and the used sessions.
--   Server/Objects        CXCommunicationServer/src/CXRPCObjectManager.cpp: the objects that remote calls
--                         reach, by class and by guid.
--   Server/Sequence       CXCommunicationServer/src/CXConnectionObject.cpp: PushReceivedBuffer,
--                         PushSendBuffer and PushMessage, the lists in the order of sequence numbers.
--   Packet/Header         CXCommon/include/CXCommonPacketStructure.h: the 16 bytes before a packet's body.
--   Packet/Receiver       CXCommunicationServer/src/CXConnectionObject.cpp: RecvPacket, ParseMessage and
--                         VerifyPacketBodyData, from the buffers that were received to messages.
--   Packet/Stream         The same loop on the bytes of the stream, and RecvPacket against it.
--   Packet/Sender         CXConnectionObject.cpp: SendPacket, PreparedAndSendPacket, SendAssembledPacket.
--                         Its children put the two sides together.
--   Packet/Sending        CXConnectionObject.cpp: PostSend and SendDataList, with the answers of `send`.
--   Packet/Closing        CXConnectionObject.cpp, Close, and CXCommunicationServer.cpp, CloseConnection: the
--                         states of a connection.
--   Packet/Processing     CXConnectionObject.cpp: ProcessUnpackedMessage, which finds the object of each
--                         message in the session or with the object manager and lets it serve.
--   Packet/Reading        CXConnectionObject.cpp: RecvData, SendData and the counters of posted buffers.
--   Packet/Callbacks      CXConnectionObject.cpp: CallbackTaskProcess and ProcessAsyncMessageEnd, after the end of
--                         a task or of a message that is answered later.
--   Packet/Requests       CXCommunicationServer/src/CXRPCObjectClientInServer.cpp: the requests of an object to
--                         another server over a proxy connection, and what is taken back on errors.
--   Tasks/Pool            CXTask/src/CXTaskPool.cpp, with CXEvent/src/CXEvent.cpp as a semaphore: the queue
--                         of tasks and the threads that run them, as steps in any order.
--   Coding                CXDataParser/src/CXFastDataParserHandle.cpp: PrepareData and ParseData (Parser),
--                         the RSA loops (Rsa), the reading of keys (Keys). The ciphers and compressors of
--                         Crypto++ and snappy are the parameters in Ciphers.
--   Server/Login          CXCommunicationServer/src/CXSessionLevelBase.cpp: SessionLogin, from the message to the
--                         reply, the session and the result, and DispatchMes.
--   Client/Tcp            CXCommunicationClient/src/CXTcpClient.cpp: the client's record, Recv, Send and Close
--                         on a socket whose answers are a list.
--   Client/Packets        The same file: SetSendBufferSize, SetRecvBufferSize, SendPacket, both RecvPacket and
--                         ReadLeftData, with the lengths and the ownership of the client's buffers.
--   Client/Channel        CXCommunicationClient/src/CXClientSocketChannel.cpp: OpenChannel and Login, and
--                         Create and Connect of CXTcpClient.cpp.
-- Server/Digits prints the numbers that sprintf does. Beside them, `Chain` is a singly linked list in a
-- memory of pointers, and `Prelude` what all share. Each component's children hold its theorems: its
-- invariant, its operations, its tests. Elastic is made of two Cache, Manager of Elastic, Queue of two
-- QueueData, Sessions of Session; the server's parts take nothing of the caches and the queues. Processing
-- of Session, Objects and Closing, Requests of Sender, Sending, Closing, Session and Objects, Login of Session
-- and Sessions. Client takes the header and the body of
-- its packets from Packet, and its children put the client's packets to the receiver of Packet, and the
-- client's login to Login; Prelude/Texts reads and writes the texts of a login as bytes. Packet takes the
-- coder as two functions, which Packet/Sender/Coded fills with those of Coding.
--
-- Conventions. An operation takes the state and returns it. A fault of the source (NULL dereferenced,
-- division by zero, an exception of operator new that nothing catches) is none. The argument `succeeds`
-- says whether the operation's allocations do, `now` is the clock and `random` is rand(). DWORD and
-- uint64 counters wrap by `add32`, `sub32`, `add64` and `sub64`. Where the source has an int that would
-- overflow, a theorem bounds the number of nodes by 2 ^ 31. An operation is one step; of the locks only
-- that of CXMemoryCacheManager is modelled, since it is left held.
-- The loop of CalculateIndex halves a DWORD, so that 32 steps of fuel are enough; a port has at most five
-- digits and a verification code eight. The loop of a push into an ordered list has fuel; the theorems
-- show that as much as the list has nodes is enough. A new block is numbered from the count of nodes
-- that were ever allocated, so that addresses are never used again. A round of RecvPacket's loop takes a
-- packet of at least 16 bytes away, so that more fuel than there are ready bytes is enough; the RSA loops
-- and the loop of ReadKeyFile have one step more than their input has bytes.
--
-- Not modelled: sockets, epoll and completion ports, threads, events, files and logs, which are calls of
-- the operating system; the bytes in the buffers of the caches; snappy, Crypto++ and OpenSSL; of
-- CXConnectionObject the building and the resetting of a connection and the posting of receives; the
-- state machine of CXRPCObjectServer that takes the replies of other servers; the start and the end of
-- threads; of the client the sessions of several channels (CXClientConnectionSession), the heartbeat and
-- the calls of objects; the test programs. Callbacks, the client's memory pool and the operating system's
-- guids are arguments.
pub mod Prelude
pub mod Chain
pub mod Container
pub mod Memory
pub mod Server
pub mod Packet
pub mod Tasks
pub mod Coding
pub mod Client
