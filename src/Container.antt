-- ===== src/Container.antt =====
-- CXContainer: the queue of pointers that the server's message queues stand on.
-- `Container.QueueData` is CXQueueData, the list over a pool of nodes; `Container.Queue` is CXQueue,
-- which swaps two of them to give memory back.
pub mod QueueData
pub mod Queue
mod Tests
