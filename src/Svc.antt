-- ===== src/Svc.antt =====
-- rust/crates/house-hal-aarch64/src/svc.rs: how the kernel reads the memory of a session, and
-- house_is_demand_va of userspace.rs. The children have the checks made in the trap.
pub mod Buffer
pub mod Copy
pub mod Gates
pub mod Ipc
pub mod Dispatch
use house.Prelude.{
  ℕ, zero, suc, ◌+◌, ◌-◌, ◌*◌, ◌/◌, ◌%◌, ◌^◌, ◌≤◌, ◌<◌, min, max, ◌≡◌, refl, sym, ap, subst, ◌∙◌,
  ◌≢◌, ◌⊎◌, inl, inr, ◌↔◌, Bool, true, false, not, ◌&&◌, ◌||◌, Option, none, some, List, [], ◌∷◌,
  ◌++◌, map, arith, ltb, leb, ◌==◌, if◌then◌else◌, ltb→lt, lt→ltb, leb→le, le→leb, ==_iff, ==_refl,
  ==_ne, Bool-cases, Option-cases, all_below, all_below_sound, is_some, ℤ, pos, negsuc, neg, eq_ℤ,
  eq_ℤ_iff, as_u64, length, get_elem?, get_or, set, take, drop, replicate, length-append,
  length-take, length-drop, length-set, get_or-set_self, get_or-set_ne,
}

-- What a trap reads: the page directory it came from, and memory as the `u64` word at an address that
-- 8 divides.
pub record Space : Type 0 where
  pub current : ℕ
  pub mem : ℕ → ℕ

abbrev pub window_lo : ℕ
window_lo = 0x01000000

abbrev pub window_hi : ℕ
window_hi = 0x100000000

abbrev pub u64_max : ℕ
u64_max = 2 ^ 64 - 1

abbrev pub page_of : ℕ → ℕ
page_of va = va - va % 4096

-- the entry of a table for the address
abbrev pub entry_at : (ℕ → ℕ) → ℕ → ℕ → ℕ → ℕ
entry_at mem table va shift = mem (table + 8 * (va / 2 ^ shift % 512))

-- a level of the walk: the next table, if the entry is valid
abbrev pub next_table : (ℕ → ℕ) → ℕ → ℕ → ℕ → Option ℕ
next_table mem table va shift =
    let d = entry_at mem table va shift in if d % 2 == 0 then none else some (page_of d)

-- The last descriptor of the walk, if its three upper levels are there.
unfoldable pub leaf : (ℕ → ℕ) → ℕ → ℕ → Option ℕ
leaf mem pdir va =
    if (pdir == 0) || not (pdir % 4096 == 0) then none else elim (next_table mem pdir va 39) [
      | none ↦ none
      | some l1 ↦ elim (next_table mem l1 va 30) [
        | none ↦ none
        | some l2 ↦ elim (next_table mem l2 va 21) [
          | none ↦ none
          | some l3 ↦ some (entry_at mem l3 va 12)
        ]
      ]
    ]

-- The physical address, or 0.
unfoldable pub translate_va_pdir : (ℕ → ℕ) → ℕ → ℕ → ℕ
unfolding leaf
translate_va_pdir mem pdir va = elim (leaf mem pdir va) [
  | none ↦ 0
  | some d3 ↦ if d3 % 2 == 0 then 0 else page_of d3 + va % 4096
]

unfoldable pub translate_va : Space → ℕ → ℕ
unfolding translate_va_pdir
translate_va s va = translate_va_pdir s.mem s.current va

-- DEMAND_MAGIC is in the top byte.
abbrev pub is_demand_desc : ℕ → Bool
is_demand_desc d3 = (d3 % 2 == 0) && (d3 / 2 ^ 56 % 2 ^ 8 == 0xDE)

unfoldable pub house_is_demand_va : Space → ℕ → Bool
unfolding leaf
house_is_demand_va s va = elim (leaf s.mem s.current (page_of va)) [
  | none ↦ false
  | some d3 ↦ is_demand_desc d3
]

-- the byte at a physical address
abbrev pub byte_at : (ℕ → ℕ) → ℕ → ℕ
byte_at mem pa = mem (pa - pa % 8) / 2 ^ (8 * (pa % 8)) % 2 ^ 8

-- A range of the user window that does not wrap; the test that every copy makes.
abbrev pub in_window : ℕ → ℕ → Bool
in_window va len = leb (va + len) u64_max && (leb window_lo va && leb (va + len) window_hi)
