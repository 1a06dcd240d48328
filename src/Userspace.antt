-- ===== src/Userspace.antt =====
-- rust/crates/house-hal-aarch64/src/userspace.rs: what the kernel keeps for each page directory of
-- a process. A page directory is its address, with 0 for the null pointer.
pub mod Mask
pub mod Budget
pub mod Asid
pub mod Release
