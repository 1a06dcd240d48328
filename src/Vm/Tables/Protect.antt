-- ===== src/Vm/Tables/Protect.antt =====
-- rust/crates/house-hal-aarch64/src/mm/vm.rs: what `mprotect` and `munmap` do to one entry.
use house.Prelude.{ℕ, ◌/◌, ◌%◌, ◌^◌, ◌<◌, ◌≡◌, ap, arith}
use house.Vm.Tables.{set_ap}

-- A change of protection sets the two AP bits and keeps all other bits of the descriptor.
pub set_ap_lem :
    (d ap : ℕ)
    → ap < 4
    → d < 2 ^ 64
    → (set_ap d ap / 2 ^ 6 % 4 ≡ ap)
      × (set_ap d ap % 2 ^ 6 ≡ d % 2 ^ 6)
      × (set_ap d ap / 2 ^ 8 ≡ d / 2 ^ 8)
      × (set_ap d ap < 2 ^ 64)
unfolding set_ap
set_ap_lem d ap h k = (omega arith, omega arith, omega arith, omega arith)
