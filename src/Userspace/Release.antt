-- ===== src/Userspace/Release.antt =====
-- `house_release_pdir` of userspace.rs with the tables that it clears, and the driver roots of
-- mm/vm.rs. The recorded roots (one for each core) and the driver roots are arrays of 32 addresses.
pub mod Laws
use house.Prelude.{
  ℕ, zero, suc, ◌+◌, ◌-◌, ◌*◌, ◌/◌, ◌%◌, ◌^◌, ◌≤◌, ◌<◌, min, max, ◌≡◌, refl, sym, ap, subst, ◌∙◌,
  ◌≢◌, ◌⊎◌, inl, inr, ◌↔◌, Bool, true, false, not, ◌&&◌, ◌||◌, Option, none, some, List, [], ◌∷◌,
  ◌++◌, map, arith, ltb, leb, ◌==◌, if◌then◌else◌, ltb→lt, lt→ltb, leb→le, le→leb, ==_iff, ==_refl,
  ==_ne, Bool-cases, Option-cases, all_below, all_below_sound, is_some, ℤ, pos, negsuc, neg, eq_ℤ,
  eq_ℤ_iff, as_u64, length, get_elem?, get_or, set, take, drop, replicate, length-append,
  length-take, length-drop, length-set, get_or-set_self, get_or-set_ne,
}
use house.Userspace.Mask.{MaskTable, svc_mask_remove}
use house.Userspace.Budget.{BudgetTable, budget_remove}
use house.Userspace.Asid.{Asids, evict_asid}

pub record Roots : Type 0 where
  pub recorded : List ℕ
  pub drivers : List ℕ
  pub asids : Asids
  pub budgets : BudgetTable
  pub masks : MaskTable

-- the scan for a root in an array
unfoldable pub holds : ℕ → List ℕ → Bool
holds p [] = false
holds p (r ∷ rs) = (r == p) || holds p rs

-- a store at the first place that holds `p`
unfoldable pub store_at : ℕ → ℕ → List ℕ → List ℕ
store_at p v [] = []
store_at p v (r ∷ rs) = if r == p then v ∷ rs else r ∷ store_at p v rs

pub is_driver_root : ℕ → List ℕ → Bool
unfolding holds
is_driver_root p ds = if p == 0 then false else holds p ds

-- `true` if the root is enrolled afterwards
pub driver_mark : ℕ → List ℕ → Bool × List ℕ
unfolding holds store_at
driver_mark p ds =
    if holds p ds then (true, ds) else if holds 0 ds then (true, store_at 0 p ds) else (false, ds)

pub driver_unmark : ℕ → List ℕ → List ℕ
unfolding store_at
driver_unmark p ds = store_at p 0 ds

-- `ttbr0 & 0x0000_FFFF_FFFF_F000`
abbrev pub table_base : ℕ → ℕ
table_base t = t % 2 ^ 48 - t % 2 ^ 12

-- the loop over RECORDED_PDIRS
pub replace_all : ℕ → ℕ → List ℕ → List ℕ
replace_all p v [] = []
replace_all p v (r ∷ rs) = (if r == p then v else r) ∷ replace_all p v rs

-- `kernel` is the kernel's L0 table, `ttbr0` the register. 1 if the hardware still runs on `p`.
pub house_release_pdir : ℕ → ℕ → ℕ → Roots → Bool × Roots
unfolding driver_unmark replace_all
house_release_pdir kernel ttbr0 p r =
    if p == 0
    then (true, r)
    else let s = (evict_asid p r.asids).1 in
      (
        table_base ttbr0 == p,
        record {
          recorded = replace_all p kernel r.recorded;
          drivers = driver_unmark p r.drivers;
          asids = record s { flushes = s.flushes + 1 };
          budgets = budget_remove p r.budgets;
          masks = svc_mask_remove p r.masks;
        },
      )
