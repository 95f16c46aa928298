-- ===== src/AckQueue.antt =====
-- gtools/core/ack_queue.py: a queue whose item stays until it is acknowledged. Each method runs
-- under the lock of the queue from start to end; a waiting `get` gives the lock up.
pub mod Methods
pub mod Delivery
