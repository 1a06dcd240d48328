-- ===== src/Tests/Tables.antt =====
-- Address space: no reservations, and 32 of them; a heap of eight pages, and a driver root at 0x1000.
use house.Prelude.{
  ℕ, ◌+◌, ◌*◌, ◌≤◌, ◌<◌, ◌≡◌, refl, ◌≢◌, ◌⊎◌, inl, true, false, some, List, [], ◌∷◌, arith, ◌==◌,
  if◌then◌else◌, pos, neg, drop, replicate,
}
use house.Userspace.Release.{is_driver_root}
use house.Vm.Resv.{Machine, Resv, vm_overlap, vm_release, house_vm_mmap}
use house.Vm.Resv.Laws.{Granted, house_vm_mmap_lem, mmap_twice}
use house.Vm.Resv.Release.{release_skips, count, NoneWithin, vm_release_lem}
use house.Vm.Tables.Device.{house_vm_narrow_driver_root}
use house.Vm.Tables.Device.Narrow.{narrow_lem}

abbrev machine : Machine
machine = record { heap_base = 0x40200000; ram_bytes = 0; smp_n = 2 }

abbrev reserved : List (ℕ × ℕ) → Resv
reserved rs = record { ranges = rs; mmap_cur = 0; errno = 0 }

house_vm_mmap_lem_example :
    Granted 5000
      (reserved ((0x2000000, 0x2100000) ∷ []))
      (house_vm_mmap machine 0 5000 3 0 (neg 1) (pos 0) (reserved ((0x2000000, 0x2100000) ∷ [])))
house_vm_mmap_lem_example =
    house_vm_mmap_lem machine 0 5000 3 0 (neg 1) (pos 0) (reserved ((0x2000000, 0x2100000) ∷ []))
      refl (omega arith) (tt, tt)

abbrev full_table : List (ℕ × ℕ)
full_table = replicate 32 (0x2000000, 0x2100000)

clear_of_full : vm_overlap 0x3000000 0x3100000 full_table ≡ false
unfolding vm_overlap
clear_of_full = refl

mmap_twice_example :
    house_vm_mmap machine 0x3000000 5000 3 0 (neg 1) (pos 0) (reserved full_table)
    ≡ (some 0x3000000, reserved full_table)
mmap_twice_example =
    mmap_twice machine 0x3000000 5000 3 0 (reserved full_table) refl refl (omega arith)
      (omega arith) refl (omega arith) clear_of_full

vm_release_lem_example :
    let rs =
      vm_release 0x2000000 0x3000000 ((0x4000000, 0x4100000) ∷ (0x2000000, 0x2100000) ∷ []) in
    NoneWithin 0x2000000 0x3000000 (drop 1 rs)
    × (count (0x4000000, 0x4100000) rs
        ≡ count (0x4000000, 0x4100000) ((0x4000000, 0x4100000) ∷ (0x2000000, 0x2100000) ∷ []))
vm_release_lem_example =
    vm_release_lem 0x2000000 0x3000000 (0x4000000, 0x4100000) refl
      ((0x4000000, 0x4100000) ∷ (0x2000000, 0x2100000) ∷ [])

-- three entries, all of them covered
release_skips_example :
    (rest : List (ℕ × ℕ)) × (vm_release 0x2000000 0x3000000
        ((0x2000000, 0x2100000) ∷ (0x2200000, 0x2300000) ∷ (0x2400000, 0x2500000) ∷ [])
      ≡ (0x2400000, 0x2500000) ∷ rest)
release_skips_example =
    release_skips 0x2000000 0x3000000 (0x2000000, 0x2100000) ((0x2200000, 0x2300000) ∷ [])
      (0x2400000, 0x2500000) refl

-- the root at 0x1000, its L1 table at 0x2000 and its L2 table at 0x3000
abbrev driver_mem : ℕ → ℕ
driver_mem a =
    if a == 0x1000
    then 0x2003
    else if a == 0x2000
    then 0x3003
    else if a == 0x2008
    then 0x40000001
    else 0

narrow_lem_example :
    let (done, roots', mem') = house_vm_narrow_driver_root 0x1000 (0 ∷ []) driver_mem in
    ((done ≡ false) × (mem' ≡ driver_mem))
    ⊎ (done ≡ true)
      × (is_driver_root 0x1000 roots' ≡ true)
      × ((i : ℕ) → 1 ≤ i → i < 512 → mem' (0x2000 + 8 * i) ≡ 0)
      × (mem' (0x3000 + 8 * 64) ≡ 0)
      × (mem' (0x3000 + 8 * 72) ≡ 0)
      × ((a : ℕ)
          → (a < 0x2000 + 8) ⊎ (0x2000 + 4096 ≤ a)
          → a ≢ 0x3000 + 8 * 64
          → a ≢ 0x3000 + 8 * 72
          → mem' a ≡ driver_mem a)
narrow_lem_example = narrow_lem 0x1000 (0 ∷ []) driver_mem (inl refl, tt)
