-- ===== src/Vm.antt =====
-- rust/crates/house-hal-aarch64/src/mm/vm.rs: the reservations of the address space and the page tables
-- behind them.
pub mod Resv
pub mod Tables
