-- ===== src/Scheduler.antt =====
-- scheduler/: the queue of tasks and the workers that run them.
pub mod Task
pub mod Heap
pub mod Queue
pub mod Work
pub mod System
