-- ===== src/Vm/Tables.antt =====
-- rust/crates/house-hal-aarch64/src/mm/vm.rs: the page tables, as words of the memory that the page
-- allocator owns. The bits of a descriptor are read by division; parts that share no bit are put
-- together by addition. Barriers have no counterpart.
pub mod Split
pub mod Protect
pub mod Device
use house.Prelude.{
  ℕ, zero, suc, ◌+◌, ◌-◌, ◌*◌, ◌/◌, ◌%◌, ◌^◌, ◌≤◌, ◌<◌, min, max, ◌≡◌, refl, sym, ap, subst, ◌∙◌,
  ◌≢◌, ◌⊎◌, inl, inr, ◌↔◌, Bool, true, false, not, ◌&&◌, ◌||◌, Option, none, some, List, [], ◌∷◌,
  ◌++◌, map, arith, ltb, leb, ◌==◌, if◌then◌else◌, ltb→lt, lt→ltb, leb→le, le→leb, ==_iff, ==_refl,
  ==_ne, Bool-cases, Option-cases, all_below, all_below_sound, is_some, ℤ, pos, negsuc, neg, eq_ℤ,
  eq_ℤ_iff, as_u64, length, get_elem?, get_or, set, take, drop, replicate, length-append,
  length-take, length-drop, length-set, get_or-set_self, get_or-set_ne,
}
use house.Buddy.{
  page_size, Buddy, u64_max, checked_add, align_down, buddy_init, one_less, zero_page,
  buddy_alloc_page, store, buddy_free_page, i32_max, buddy_free_count, buddy_total_count,
  house_mem_stats, buddy_in_heap, buddy_contains,
}
use house.Vm.Resv.{
  mblock, user_va_min, user_va_max, rts_alias_base, resv_cap, usize_max, Machine, Resv,
  wrapping_sub, runtime_ram_bytes, vm_in_ram, vm_in_user_window, alias_span, vm_committable,
  vm_overlap, vm_record, within, sweep, sweep_behind, vm_release, mmap_fails, round_up, mmap_at,
  mmap_next, house_vm_mmap,
}

-- The page allocator with its memory, the addresses shot down on all cores, oldest first, and the
-- reservations.
pub record Vm : Type 0 where
  pub buddy : Buddy
  pub shot : List ℕ
  pub resv : Resv

abbrev pub is_valid : ℕ → Bool
is_valid d = not (d % 2 == 0)

abbrev pub is_table : ℕ → Bool
is_table d = not (d / 2 % 2 == 0)

-- `d & !0xFFF`
abbrev pub page_of : ℕ → ℕ
page_of d = d - d % 4096

-- `d & 0xFFFF000000000FFF`
abbrev pub attributes : ℕ → ℕ
attributes d = d / 2 ^ 48 % 2 ^ 16 * 2 ^ 48 + d % 2 ^ 12

-- the 2 MiB block `i` of a 1 GiB block
unfoldable pub split_l1 : ℕ → ℕ → ℕ
split_l1 d i =
    let base = d / 2 ^ 30 % 2 ^ 18 * 2 ^ 30 in
    attributes d + (base + i * 2 ^ 21) % 2 ^ 64 / 2 ^ 21 % 2 ^ 23 * 2 ^ 21

-- the page `i` of a 2 MiB block, with the table bit, which a block has not
unfoldable pub split_l2 : ℕ → ℕ → ℕ
split_l2 d i =
    let base = d / 2 ^ 21 % 2 ^ 23 * 2 ^ 21 in
    attributes d + 2 + (base + i * 2 ^ 12) % 2 ^ 64 / 2 ^ 12 % 2 ^ 36 * 2 ^ 12

-- memory with a table of 512 entries at `child`
abbrev pub fill_table : ℕ → (ℕ → ℕ) → (ℕ → ℕ) → ℕ → ℕ
fill_table child entry mem a =
    if leb child a && ltb a (child + 4096) then entry ((a - child) / 8) else mem a

unfoldable pub vm_split_slot : ℕ → ℕ → Buddy → Bool × Buddy
vm_split_slot slot level b =
    let d = b.mem slot in
    let (child, b1) = buddy_alloc_page b in
    let entry = λ (i : ℕ). if level == 1 then split_l1 d i else split_l2 d i in
    if (slot == 0) || not ((level == 1) || (level == 2))
    then (false, b)
    else if not (is_valid d) || is_table d
    then (true, b)
    else if child == 0
    then (false, b1)
    else (true, record b1 { mem = store slot (page_of child + 3) (fill_table child entry b1.mem) })

-- The table behind a slot, whose block is split first.
unfoldable pub table_below : ℕ → ℕ → Buddy → Option ℕ × Buddy
unfolding vm_split_slot
table_below slot level b =
    let d = b.mem slot in
    let (done, b1) = if is_table d then (true, b) else vm_split_slot slot level b in
    let t = page_of (b1.mem slot) in
    if not (is_valid d)
    then (none, b)
    else if not done
    then (none, b1)
    else if t == 0
    then (none, b1)
    else (some t, b1)

abbrev pub slot_of : ℕ → ℕ → ℕ → ℕ
slot_of table va shift = table + 8 * (va / 2 ^ shift % 512)

-- the address of the L3 entry
unfoldable pub vm_l3_entry : ℕ → ℕ → Buddy → Option ℕ × Buddy
unfolding table_below
vm_l3_entry pdir va b =
    let d0 = b.mem (slot_of pdir va 39) in
    if (pdir == 0) || not (pdir % 4096 == 0)
    then (none, b)
    else if not (is_valid d0) || (page_of d0 == 0)
    then (none, b)
    else let (t2, b2) = table_below (slot_of (page_of d0) va 30) 1 b in
      elim t2 [
        | none ↦ (none, b2)
        | some l2 ↦
            let (t3, b3) = table_below (slot_of l2 va 21) 2 b2 in
            elim t3 [ none ↦ (none, b3) | some l3 ↦ (some (slot_of l3 va 12), b3) ]
      ]

-- AttrIdx 1 is a device.
abbrev pub is_mmio_desc : ℕ → Bool
is_mmio_desc d = d / 2 ^ 2 % 8 == 1

-- the body of the loop of `munmap`, for the entry at `slot`
unfoldable pub unmap_leaf : ℕ → ℕ → Vm → Vm
unmap_leaf va slot v =
    let d = v.buddy.mem slot in
    let b1 = record v.buddy { mem = store slot 0 v.buddy.mem } in
    if is_valid d
    then record v {
      buddy = (if is_mmio_desc d then b1 else buddy_free_page (page_of d) b1);
      shot = v.shot ++ va ∷ [];
    }
    else v

unfoldable pub unmap_page : ℕ → ℕ → Vm → Vm
unfolding unmap_leaf vm_l3_entry
unmap_page pdir va v =
    let (slot, b) = vm_l3_entry pdir va v.buddy in
    elim slot [ none ↦ record v { buddy = b } | some p ↦ unmap_leaf va p (record v { buddy = b }) ]

unfoldable pub unmap_pages : ℕ → ℕ → ℕ → Vm → Vm
unfolding unmap_page
unmap_pages zero pdir va v = v
unmap_pages (suc n) pdir va v = unmap_pages n pdir (va + 4096) (unmap_page pdir va v)

abbrev pub vm_fails : ℕ → Vm → ℤ × Vm
vm_fails code v = (neg 1, record v { resv = record v.resv { errno = code } })

abbrev pub let_go : ℕ → ℕ → Vm → Vm
let_go lo hi v = record v { resv = record v.resv { ranges = vm_release lo hi v.resv.ranges } }

unfoldable pub house_vm_munmap : ℕ → ℕ → ℕ → Vm → ℤ × Vm
unfolding unmap_pages
house_vm_munmap pdir addr len v =
    let pages = (len + 4095) / 4096 in
    let hi = addr + pages * 4096 in
    let hi2 = addr + round_up mblock len in
    if addr == 0
    then (pos 0, v)
    else if len == 0
    then vm_fails 22 v
    else if ltb usize_max (len + 4095)
    then vm_fails 22 v
    else if ltb usize_max hi
    then vm_fails 22 v
    else if leb user_va_min addr && leb hi (user_va_max + 1)
    then (pos 0, let_go addr hi (unmap_pages pages pdir addr v))
    else if ltb usize_max (len + (mblock - 1))
    then (pos 0, v)
    else if ltb usize_max hi2
    then (pos 0, v)
    else (pos 0, let_go addr hi2 v)

-- `(d & !PTE_AP_MASK) | ap`, where `ap` is 1 for read and write, 3 for read only
unfoldable pub set_ap : ℕ → ℕ → ℕ
set_ap d ap = d - d / 2 ^ 6 % 4 * 2 ^ 6 + ap * 2 ^ 6

-- The loop of `mprotect`; false at the first page that is not mapped.
unfoldable pub protect_pages : ℕ → ℕ → ℕ → ℕ → Vm → Bool × Vm
unfolding vm_l3_entry set_ap
protect_pages zero pdir ap va v = (true, v)
protect_pages (suc n) pdir ap va v =
    let (slot, b) = vm_l3_entry pdir va v.buddy in
    elim slot [
      | none ↦ (false, record v { buddy = b })
      | some p ↦
          let d = b.mem p in
          let b1 = record b { mem = store p (set_ap d ap) b.mem } in
          let rest =
            protect_pages n pdir ap (va + 4096)
              (record v { buddy = b1; shot = v.shot ++ va ∷ [] }) in
          if is_valid d then rest else (false, record v { buddy = b })
    ]

abbrev pub protected : Bool × Vm → ℤ × Vm
protected (true, v) = (pos 0, v)
protected (false, v) = vm_fails 22 v

-- `prot` is the bits of an `i32`.
unfoldable pub house_vm_mprotect : ℕ → ℕ → ℕ → ℕ → Vm → ℤ × Vm
house_vm_mprotect pdir addr len prot v =
    let pages = (len + 4095) / 4096 in
    let hi = addr + pages * 4096 in
    if addr == 0
    then vm_fails 22 v
    else if len == 0
    then vm_fails 22 v
    else if not (prot / 8 == 0)
    then vm_fails 22 v
    else if not (prot / 4 % 2 == 0)
    then vm_fails 95 v
    else if ltb usize_max (len + 4095)
    then vm_fails 22 v
    else if not (addr % 4096 == 0)
    then vm_fails 22 v
    else if ltb usize_max hi
    then vm_fails 22 v
    else if ltb addr user_va_min || ltb (user_va_max + 1) hi
    then vm_fails 12 v
    else protected (protect_pages pages pdir (if prot / 2 % 2 == 0 then 3 else 1) addr v)
