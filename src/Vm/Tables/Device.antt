-- ===== src/Vm/Tables/Device.antt =====
-- rust/crates/house-hal-aarch64/src/mm/vm.rs: the windows of the virtio devices and the roots of the
-- driver processes.
pub mod Narrow
use house.Prelude.{
  ℕ, zero, suc, ◌+◌, ◌-◌, ◌*◌, ◌/◌, ◌%◌, ◌^◌, ◌≤◌, ◌<◌, min, max, ◌≡◌, refl, sym, ap, subst, ◌∙◌,
  ◌≢◌, ◌⊎◌, inl, inr, ◌↔◌, Bool, true, false, not, ◌&&◌, ◌||◌, Option, none, some, List, [], ◌∷◌,
  ◌++◌, map, arith, ltb, leb, ◌==◌, if◌then◌else◌, ltb→lt, lt→ltb, leb→le, le→leb, ==_iff, ==_refl,
  ==_ne, Bool-cases, Option-cases, all_below, all_below_sound, is_some, ℤ, pos, negsuc, neg, eq_ℤ,
  eq_ℤ_iff, as_u64, length, get_elem?, get_or, set, take, drop, replicate, length-append,
  length-take, length-drop, length-set, get_or-set_self, get_or-set_ne,
}
use house.Buddy.{
  page_size, Buddy, u64_max, checked_add, align_down, buddy_init, one_less, zero_page,
  buddy_alloc_page, store, buddy_free_page, i32_max, buddy_free_count, buddy_total_count,
  house_mem_stats, buddy_in_heap, buddy_contains,
}
use house.Userspace.Release.{
  Roots, holds, store_at, is_driver_root, driver_mark, driver_unmark, table_base, replace_all,
  house_release_pdir,
}
use house.Vm.Tables.{
  Vm, is_valid, is_table, page_of, attributes, split_l1, split_l2, fill_table, vm_split_slot,
  table_below, slot_of, vm_l3_entry, is_mmio_desc, unmap_leaf, unmap_page, unmap_pages, vm_fails,
  let_go, house_vm_munmap, set_ap, protect_pages, protected, house_vm_mprotect,
}

abbrev pub virtio_mmio_base : ℕ
virtio_mmio_base = 0x0a000000

abbrev pub virtio_mmio_stride : ℕ
virtio_mmio_stride = 0x200

abbrev pub virtio_slot_count : ℕ
virtio_slot_count = 32

unfoldable pub mmio_slot_page : ℤ → Option ℕ
mmio_slot_page (negsuc n) = none
mmio_slot_page (pos n) =
    if ltb n virtio_slot_count
    then some (page_of (virtio_mmio_base + n * virtio_mmio_stride))
    else none

-- valid, table, device, AP for EL1 only, inner shareable, accessed, not global, never executable
unfoldable pub mmio_leaf_desc : ℕ → ℕ
mmio_leaf_desc pa =
    page_of pa + 1 + 2 + 2 ^ 2 + 2 ^ 6 + 3 * 2 ^ 8 + 2 ^ 10 + 2 ^ 11 + 2 ^ 53 + 2 ^ 54

-- the next table, if the entry is a valid table
unfoldable pub table_at : (ℕ → ℕ) → ℕ → Option ℕ
table_at mem slot =
    let d = mem slot in if not (is_valid d) || not (is_table d) then none else some (page_of d)

-- the free L2 slot for the page
unfoldable pub mmio_l2_slot : (ℕ → ℕ) → ℕ → ℕ → Option ℕ
mmio_l2_slot mem pdir page = elim (table_at mem (slot_of pdir page 39)) [
  | none ↦ none
  | some l1 ↦ elim (table_at mem (slot_of l1 page 30)) [
    | none ↦ none
    | some l2 ↦ let s2 = slot_of l2 page 21 in if is_valid (mem s2) then none else some s2
  ]
]

abbrev pub is_root : ℕ → Bool
is_root pdir = not (pdir == 0) && (pdir % 4096 == 0)

-- 1 installed, 0 refused, -12 without memory
unfoldable pub house_vm_map_mmio : ℕ → ℤ → Buddy → ℤ × Buddy
unfolding mmio_slot_page
house_vm_map_mmio pdir slot b = elim (mmio_slot_page slot) [
  | none ↦ (pos 0, b)
  | some page ↦
      let (l3, b1) = buddy_alloc_page b in
      let table = fill_table l3 (λ i. 0) b1.mem in
      if not (is_root pdir) then (pos 0, b) else elim (mmio_l2_slot b.mem pdir page) [
        | none ↦ (pos 0, b)
        | some s2 ↦ if l3 == 0 then (neg 12, b1) else (
          pos 1,
          record b1 {
            mem =
                store (slot_of l3 page 12) (mmio_leaf_desc page) (store s2 (page_of l3 + 3) table);
          },
        )
      ]
]

-- What the search for the window has found: nothing, one page, or more than one leaf.
pub data Found : Type 0 where
  nothing several : Found
  page : ℕ → Found

-- the entries from `j` on of an L3 table, `n` of them
unfoldable pub scan_l3 : ℕ → ℕ → ℕ → (ℕ → ℕ) → Found → Found
scan_l3 zero l3 j mem found = found
scan_l3 (suc n) l3 j mem found =
    let d3 = mem (l3 + 8 * j) in
    let here : Found = elim found [
      | nothing ↦ page (d3 / 2 ^ 12 % 2 ^ 36 * 2 ^ 12)
      | _ ↦ several
    ] in
    scan_l3 n l3 (j + 1) mem (if is_valid d3 && is_mmio_desc d3 then here else found)

unfoldable pub scan_l2 : ℕ → ℕ → ℕ → (ℕ → ℕ) → Found → Found
unfolding scan_l3
scan_l2 zero l2 i mem found = found
scan_l2 (suc n) l2 i mem found =
    let next : Found = elim (table_at mem (l2 + 8 * i)) [
      | none ↦ found
      | some l3 ↦ scan_l3 512 l3 0 mem found
    ] in
    scan_l2 n l2 (i + 1) mem next

abbrev pub single : Found → Option ℕ
single (page p) = some p
single _ = none

unfoldable pub driver_window_page : (ℕ → ℕ) → ℕ → Option ℕ
unfolding scan_l2
driver_window_page mem pdir = if not (is_root pdir) then none else elim (table_at mem pdir) [
  | none ↦ none
  | some l1 ↦ elim (table_at mem l1) [
    | none ↦ none
    | some l2 ↦ single (scan_l2 512 l2 0 mem nothing)
  ]
]

abbrev pub driver_l2_uart : ℕ
driver_l2_uart = 64

abbrev pub driver_l2_gic : ℕ
driver_l2_gic = 72

-- nothing, or a block
abbrev pub clearable : ℕ → Bool
clearable d = (d == 0) || (is_valid d && not (is_table d))

unfoldable pub narrow_validate : (ℕ → ℕ) → ℕ → Option (ℕ × ℕ)
narrow_validate mem pdir = elim (table_at mem pdir) [
  | none ↦ none
  | some l1 ↦ elim (table_at mem l1) [
    | none ↦ none
    | some l2 ↦
        if clearable (mem (l2 + 8 * driver_l2_uart)) && clearable (mem (l2 + 8 * driver_l2_gic))
        then some (l1, l2)
        else none
  ]
]

-- memory with the entries of the L1 table but the first, and two of the L2 table, cleared
unfoldable pub narrowed : ℕ → ℕ → (ℕ → ℕ) → ℕ → ℕ
narrowed l1 l2 mem = store (l2 + 8 * driver_l2_gic) 0 (
    store (l2 + 8 * driver_l2_uart) 0
      (λ a. if leb (l1 + 8) a && ltb a (l1 + 4096) then 0 else mem a))

-- The result, the enrolled roots and memory.
unfoldable pub house_vm_narrow_driver_root : ℕ → List ℕ → (ℕ → ℕ) → Bool × List ℕ × (ℕ → ℕ)
unfolding narrowed
house_vm_narrow_driver_root pdir roots mem =
    let (marked, roots1) = driver_mark pdir roots in
    if not (is_root pdir)
    then (false, roots, mem)
    else if not marked
    then (false, roots, mem)
    else elim (narrow_validate mem pdir) [
      | none ↦ (false, driver_unmark pdir roots1, mem)
      | some (l1, l2) ↦ (true, roots1, narrowed l1 l2 mem)
    ]

-- the descriptor that decides, at the level where the walk ends
unfoldable pub house_is_mmio_page : (ℕ → ℕ) → ℕ → ℕ → Bool
house_is_mmio_page mem pdir far =
    let va = page_of far in
    let d0 = mem (slot_of pdir va 39) in
    let d1 = mem (slot_of (page_of d0) va 30) in
    let d2 = mem (slot_of (page_of d1) va 21) in
    let d3 = mem (slot_of (page_of d2) va 12) in
    if not (is_root pdir)
    then false
    else if not (is_valid d0)
    then false
    else if not (is_table d0)
    then is_mmio_desc d0
    else if not (is_valid d1)
    then false
    else if not (is_table d1)
    then is_mmio_desc d1
    else if not (is_valid d2)
    then false
    else if not (is_table d2)
    then is_mmio_desc d2
    else if not (is_valid d3)
    then false
    else is_mmio_desc d3
