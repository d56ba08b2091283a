-- ===== src/ThreadPool.antt =====
-- threading/cthreadpool.h and threading/cthreadpool.cpp: `CThreadPool` and its `State`.
pub mod Drain
pub mod Tags
pub mod State
pub mod Steps
pub mod Lanes
pub mod Accounting
pub mod Invariant
pub mod Retire
pub mod Stealing
pub mod Worker
pub mod Idle
