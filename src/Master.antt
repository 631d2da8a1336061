-- ===== src/Master.antt =====
-- The master: the lock that the masters of one channel share, and the scheduler of tasks (opendnp3/master).
pub mod TaskLock
pub mod Scheduler
mod Examples
