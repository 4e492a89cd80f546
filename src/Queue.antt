-- ===== src/Queue.antt =====
-- include/cQueue.h: queues with a read index and a write index over a block of memory.
pub mod Fifo
pub mod Static
pub mod Linear
