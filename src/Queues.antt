-- ===== src/Queues.antt =====
-- The bounded FIFO queue, and what it promises.
pub mod Cyclic
pub mod Spec
pub mod Fifo
pub mod Ring
pub mod Tests
