-- ===== src/Api.antt =====
-- src/API.h and src/API.cpp: the thread and the beacon that wakes it, in the form that they have on
-- POSIX systems. The lock of `Thread::Data` makes each operation atomic.
pub mod Beacon
pub mod Mutex
pub mod Windows
pub mod Thread
pub mod Os
