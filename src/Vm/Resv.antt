-- ===== src/Vm/Resv.antt =====
-- rust/crates/house-hal-aarch64/src/mm/vm.rs: `house_vm_mmap` and the reservations VM_RESV, of which
-- the first VM_N_RESV are in use.
pub mod Laws
pub mod Release
use house.Prelude.{
  ℕ, zero, suc, ◌+◌, ◌-◌, ◌*◌, ◌/◌, ◌%◌, ◌^◌, ◌≤◌, ◌<◌, min, max, ◌≡◌, refl, sym, ap, subst, ◌∙◌,
  ◌≢◌, ◌⊎◌, inl, inr, ◌↔◌, Bool, true, false, not, ◌&&◌, ◌||◌, Option, none, some, List, [], ◌∷◌,
  ◌++◌, map, arith, ltb, leb, ◌==◌, if◌then◌else◌, ltb→lt, lt→ltb, leb→le, le→leb, ==_iff, ==_refl,
  ==_ne, Bool-cases, Option-cases, all_below, all_below_sound, is_some, ℤ, pos, negsuc, neg, eq_ℤ,
  eq_ℤ_iff, as_u64, length, get_elem?, get_or, set, take, drop, replicate, length-append,
  length-take, length-drop, length-set, get_or-set_self, get_or-set_ne,
}
use house.Keyed.{fill}

abbrev pub mblock : ℕ
mblock = 2 ^ 20

abbrev pub user_va_min : ℕ
user_va_min = 0x01000000

abbrev pub user_va_max : ℕ
user_va_max = 0x1000000000

abbrev pub rts_alias_base : ℕ
rts_alias_base = 0x4200000000

abbrev pub resv_cap : ℕ
resv_cap = 32

abbrev pub usize_max : ℕ
usize_max = 2 ^ 64 - 1

-- What the linker and the boot code set: `__heap_base`, `house_ram_bytes`, `house_smp_n`.
pub record Machine : Type 0 where
  pub heap_base : ℕ
  pub ram_bytes : ℕ
  pub smp_n : ℕ

-- The statics of the file and `errno`. A reservation is a range, from its first address to behind its
-- last.
pub record Resv : Type 0 where
  pub ranges : List (ℕ × ℕ)
  pub mmap_cur : ℕ
  pub errno : ℕ

-- `wrapping_sub`
abbrev pub wrapping_sub : ℕ → ℕ → ℕ
wrapping_sub a b = (a + 2 ^ 64 - b) % 2 ^ 64

abbrev pub runtime_ram_bytes : Machine → ℕ
runtime_ram_bytes m = if m.ram_bytes == 0 then 512 * 2 ^ 20 else m.ram_bytes

unfoldable pub vm_in_ram : Machine → ℕ → ℕ → Bool
vm_in_ram m lo n =
    let lim = 0x40000000 + runtime_ram_bytes m in
    if ltb lo m.heap_base then false else leb lo lim && leb n (lim - lo)

unfoldable pub vm_in_user_window : ℕ → ℕ → Bool
vm_in_user_window lo n =
    let hi = (lo + n) % 2 ^ 64 in
    if ltb lo user_va_min
    then false
    else if ltb (wrapping_sub (user_va_max + 1) lo) n
    then false
    else if ltb hi lo
    then false
    else not (ltb (user_va_max + 1) hi)

abbrev pub alias_span : Machine → ℕ
alias_span m =
    let smp = if m.smp_n == 0 then 2 else m.smp_n in
    min (runtime_ram_bytes m / 2 - (0x200000 + smp * 65536)) (8 * 2 ^ 30)

unfoldable pub vm_committable : Machine → ℕ → ℕ → Bool
unfolding vm_in_ram vm_in_user_window
vm_committable m lo n =
    let hi = (lo + n) % 2 ^ 64 in
    if vm_in_user_window lo n
    then true
    else if vm_in_ram m lo n
    then true
    else if ltb lo rts_alias_base
    then false
    else if ltb (alias_span m) n
    then false
    else if ltb hi lo
    then false
    else not (ltb (rts_alias_base + alias_span m) hi)

unfoldable pub vm_overlap : ℕ → ℕ → List (ℕ × ℕ) → Bool
vm_overlap lo hi [] = false
vm_overlap lo hi ((rlo, rhi) ∷ rs) = (ltb lo rhi && ltb rlo hi) || vm_overlap lo hi rs

unfoldable pub vm_record : ℕ → ℕ → Resv → Resv
vm_record lo hi s =
    if ltb (length s.ranges) resv_cap then record s { ranges = s.ranges ++ (lo, hi) ∷ [] } else s

-- the test of `vm_release`
abbrev pub within : ℕ → ℕ → ℕ × ℕ → Bool
within lo hi (rlo, rhi) = leb lo rlo && leb rhi hi

-- The loop from an index above 0 on: at a match the last range moves in, and is tested next. The fuel
-- is the number of ranges from there on.
unfoldable pub sweep : ℕ → ℕ → ℕ → List (ℕ × ℕ) → List (ℕ × ℕ)
sweep zero lo hi rs = rs
sweep (suc fuel) lo hi [] = []
sweep (suc fuel) lo hi (r ∷ rs) =
    let cut = sweep fuel lo hi (fill rs) in
    let kept = sweep fuel lo hi rs in if within lo hi r then cut else r ∷ kept

-- The range that has moved to index 0 is not tested.
abbrev pub sweep_behind : ℕ → ℕ → List (ℕ × ℕ) → List (ℕ × ℕ)
sweep_behind lo hi [] = []
sweep_behind lo hi (r ∷ rs) = r ∷ sweep (length rs) lo hi rs

unfoldable pub vm_release : ℕ → ℕ → List (ℕ × ℕ) → List (ℕ × ℕ)
unfolding sweep
vm_release lo hi [] = []
vm_release lo hi (r ∷ rs) =
    if within lo hi r then sweep_behind lo hi (fill rs) else sweep_behind lo hi (r ∷ rs)

-- MAP_FAILED is `none`.
abbrev pub mmap_fails : ℕ → Resv → Option ℕ × Resv
mmap_fails code s = (none, record s { errno = code })

abbrev pub round_up : ℕ → ℕ → ℕ
round_up unit n = (n + (unit - 1)) - (n + (unit - 1)) % unit

-- the part for a hint that is not null, with MAP_FIXED or without
unfoldable pub mmap_at : Machine → ℕ → ℕ → Bool → Resv → Option ℕ × Resv
mmap_at m addr len fixed s =
    let hi = addr + round_up mblock len in
    if fixed
    then (if vm_committable m addr len then (some addr, s) else mmap_fails 12 s)
    else if leb hi 0x1000000000000 && not (vm_overlap addr hi s.ranges)
    then (some addr, vm_record addr hi s)
    else mmap_fails 12 s

-- the anonymous part, behind the mapping before
unfoldable pub mmap_next : ℕ → Resv → Option ℕ × Resv
mmap_next len s =
    let p = if s.mmap_cur == 0 then 0x44000000 else round_up mblock s.mmap_cur in
    let stop = p + round_up mblock len in
    if ltb usize_max stop
    then mmap_fails 12 s
    else if ltb (user_va_max + 1) stop || vm_overlap p stop s.ranges
    then mmap_fails 12 s
    else (some p, vm_record p stop (record s { mmap_cur = stop }))

-- `prot` and `flags` are the bits of an `i32`.
unfoldable pub house_vm_mmap : Machine → ℕ → ℕ → ℕ → ℕ → ℤ → ℤ → Resv → Option ℕ × Resv
house_vm_mmap m addr len prot flags fd off s =
    if not (eq_ℤ fd (neg 1))
    then mmap_fails 38 s
    else if not (eq_ℤ off (pos 0))
    then mmap_fails 22 s
    else if not (prot / 8 == 0)
    then mmap_fails 22 s
    else if not (prot / 4 % 2 == 0)
    then mmap_fails 95 s
    else if len == 0
    then mmap_fails 22 s
    else if ltb usize_max (len + (mblock - 1))
    then mmap_fails 22 s
    else if addr == 0
    then mmap_next len s
    else if ltb usize_max (addr + round_up mblock len)
    then mmap_fails 22 s
    else mmap_at m addr len (not (flags / 16 % 2 == 0)) s
