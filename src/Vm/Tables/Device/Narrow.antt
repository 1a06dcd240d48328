-- ===== src/Vm/Tables/Device/Narrow.antt =====
-- rust/crates/house-hal-aarch64/src/mm/vm.rs: what a narrowed root still names, and that a mapped window
-- is seen as a device.
use house.Prelude.{
  ℕ, ◌+◌, ◌*◌, ◌≤◌, ◌<◌, ◌≡◌, refl, sym, ap, ◌∙◌, ◌≢◌, ◌⊎◌, inl, inr, Bool, true, false, ◌&&◌, ◌||◌,
  Option, none, some, List, arith, ltb, leb, ◌==◌, if◌then◌else◌, ==_refl, Bool-cases, Option-cases,
}
use house.Vm.Tables.{page_of}
use house.Userspace.Release.Laws.{Once, driver_mark_lem}
use house.Userspace.Release.{is_driver_root, driver_mark}
use house.Vm.Tables.Device.{
  table_at, is_root, driver_l2_uart, driver_l2_gic, narrow_validate, narrowed,
  house_vm_narrow_driver_root,
}

narrow_cases :
    (pdir : ℕ) (roots : List ℕ) (mem : ℕ → ℕ)
    → let (done, roots', mem') = house_vm_narrow_driver_root pdir roots mem in
      ((done ≡ false) × (mem' ≡ mem))
      ⊎ (l1 : ℕ) × (l2 : ℕ) × (done ≡ true)
        × (is_root pdir ≡ true)
        × (narrow_validate mem pdir ≡ some (l1, l2))
        × ((driver_mark pdir roots).0 ≡ true)
        × (roots' ≡ (driver_mark pdir roots).1)
        × (mem' ≡ narrowed l1 l2 mem)
unfolding house_vm_narrow_driver_root
narrow_cases pdir roots mem = elim (Bool-cases (is_root pdir)) [
  | inr n ↦ rw n (inl (refl, refl))
  | inl y ↦ elim (Bool-cases (driver_mark pdir roots).0) [
    | inr n ↦ rw (y, n) (inl (refl, refl))
    | inl m ↦ elim (Option-cases (narrow_validate mem pdir)) [
      | inl e ↦ rw (y, m, e) (inl (refl, refl))
      | inr ((l1, l2), e) ↦ rw (y, m, e) (inr (l1, l2, refl, refl, refl, refl, refl, refl))
    ]
  ]
]

table_at-some : (mem : ℕ → ℕ) (slot t : ℕ) → table_at mem slot ≡ some t → t ≡ page_of (mem slot)
unfolding table_at
table_at-some mem slot t e = ground (arith, e)

chosen :
    (b : Bool) (x y l1 l2 : ℕ)
    → if◌then◌else◌ {A = Option (ℕ × ℕ)} b (some (x, y)) none ≡ some (l1, l2)
    → (l1 ≡ x) × (l2 ≡ y)
chosen b x y l1 l2 e = ground (arith, e)

validated :
    (mem : ℕ → ℕ) (pdir l1 l2 : ℕ)
    → narrow_validate mem pdir ≡ some (l1, l2)
    → (l1 ≡ page_of (mem pdir)) × (l2 ≡ page_of (mem l1))
unfolding narrow_validate
validated mem pdir l1 l2 e = elim (Option-cases (table_at mem pdir)) [
  | inl n ↦ let f = rw (n, narrow_validate) at e in cc f
  | inr (x, ex) ↦ elim (Option-cases (table_at mem x)) [
    | inl n ↦ let f = rw (ex, n, narrow_validate) at e in cc f
    | inr (y, ey) ↦
        let g = rw (ex, ey, narrow_validate) at e in
        let (k1, k2) = chosen _ x y l1 l2 g in
        (
          k1 ∙ table_at-some mem pdir x ex,
          k2 ∙ table_at-some mem x y ey ∙ ap (λ z. page_of (mem z)) (sym k1),
        )
  ]
]

narrowed_lem :
    (l1 l2 : ℕ) (mem : ℕ → ℕ) (a : ℕ)
    → narrowed l1 l2 mem a ≡ (
        if ((l2 + 8 * driver_l2_gic) == a)
          || ((l2 + 8 * driver_l2_uart) == a)
          || (leb (l1 + 8) a && ltb a (l1 + 4096))
        then 0
        else mem a)
unfolding narrowed
narrowed_lem l1 l2 mem a = ground arith

-- A root that is narrowed is enrolled; its L1 table is cleared behind the first entry, and its L2
-- table at the UART and the GIC; and every other word of memory is as before, the first entries of
-- the root and of the L1 table among them. A refusal leaves memory as it is.
pub narrow_lem :
    (pdir : ℕ) (roots : List ℕ) (mem : ℕ → ℕ)
    → Once roots
    → let (done, roots', mem') = house_vm_narrow_driver_root pdir roots mem in
      let l1 = page_of (mem pdir) in
      let l2 = page_of (mem l1) in
      ((done ≡ false) × (mem' ≡ mem))
      ⊎ (done ≡ true)
        × (is_driver_root pdir roots' ≡ true)
        × ((i : ℕ) → 1 ≤ i → i < 512 → mem' (l1 + 8 * i) ≡ 0)
        × (mem' (l2 + 8 * driver_l2_uart) ≡ 0)
        × (mem' (l2 + 8 * driver_l2_gic) ≡ 0)
        × ((a : ℕ)
            → (a < l1 + 8) ⊎ (l1 + 4096 ≤ a)
            → a ≢ l2 + 8 * driver_l2_uart
            → a ≢ l2 + 8 * driver_l2_gic
            → mem' a ≡ mem a)
narrow_lem pdir roots mem once = elim (narrow_cases pdir roots mem) [
  | inl r ↦ inl r
  | inr (l1, l2, done, root, val, marked, er, em) ↦
      let (e1, e2) = validated mem pdir l1 l2 val in
      let e2' : l2 ≡ page_of (mem (page_of (mem pdir))) = e2 ∙ ap (λ z. page_of (mem z)) e1 in
      let nz : pdir ≢ 0 = ground (arith, root) in
      rw (er, em, ← e2', ← e1)
        (inr (
          done,
          enrolled pdir roots once nz marked,
          (λ i lo hi. narrowed_lem l1 l2 mem (l1 + 8 * i) ∙ ground arith),
          narrowed_lem l1 l2 mem (l2 + 8 * driver_l2_uart) ∙ ground arith,
          narrowed_lem l1 l2 mem (l2 + 8 * driver_l2_gic) ∙ ground arith,
          λ a o n1 n2. narrowed_lem l1 l2 mem a ∙ ground (arith, o, n1, n2),
        ))
]
  where
    enrolled :
        (p : ℕ) (ds : List ℕ)
        → Once ds
        → p ≢ 0
        → (driver_mark p ds).0 ≡ true
        → is_driver_root p (driver_mark p ds).1 ≡ true
    enrolled p ds o nz m = let k = driver_mark_lem p p ds o nz nz in k.1 ∙ rw (m, ==_refl p) refl
