-- ===== src/Tests.antt =====
-- The theorems applied to concrete states.
pub mod Fds
pub mod Sessions
pub mod Pages
pub mod Memory
pub mod Roots
pub mod Interrupts
pub mod Dispatch
pub mod Pool
pub mod Epolls
pub mod Tables
pub mod Runs
pub mod Mutexes
