-- ===== src/Userspace/Release/Laws.antt =====
-- A released page directory leaves no trace, and the other directories keep what they had.
use house.Prelude.{
  ℕ, ◌+◌, ◌≡◌, ◌≢◌, ◌⊎◌, false, ◌&&◌, ◌||◌, none, List, [], ◌∷◌, arith, ◌==◌, if◌then◌else◌,
}
use house.Keyed.{find}
use house.Userspace.Mask.{svc_mask_get_locked, svc_mask_full}
use house.Userspace.Mask.Laws.{IsValid as MaskIsValid, mask_get-remove}
use house.Userspace.Budget.{budget_count}
use house.Userspace.Budget.Laws.{IsValid as BudgetIsValid, budget_count-remove}
use house.Userspace.Asid.Laws.{IsValid as AsidIsValid, find-evict, flushes-evict}
use house.Userspace.Release.{
  Roots, holds, store_at, is_driver_root, driver_mark, driver_unmark, replace_all,
  house_release_pdir,
}

-- No root is enrolled twice.
abbrev pub Once : List ℕ → Type 0
Once [] = Unit {0}
Once (r ∷ rs) = ((r ≡ 0) ⊎ (holds r rs ≡ false)) × Once rs

holds-unmark :
    (p q : ℕ) (ds : List ℕ)
    → Once ds
    → p ≢ 0
    → q ≢ 0
    → holds q (driver_unmark p ds) ≡ (if p == q then false else holds q ds)
unfolding holds driver_unmark store_at
holds-unmark p q [] o np nq = ground arith
holds-unmark p q (r ∷ rs) o np nq = ground (arith, holds-unmark p q rs o.1)

holds-store_free :
    (p q : ℕ) (ds : List ℕ)
    → q ≢ 0
    → holds q (store_at 0 p ds) ≡ ((holds 0 ds && (p == q)) || holds q ds)
unfolding holds store_at
holds-store_free p q [] nq = ground arith
holds-store_free p q (r ∷ rs) nq = ground (arith, holds-store_free p q rs)

store_free-Once :
    (p : ℕ) (ds : List ℕ) → p ≢ 0 → holds p ds ≡ false → Once ds → Once (store_at 0 p ds)
unfolding holds store_at
store_free-Once p [] np new o = tt
store_free-Once p (r ∷ rs) np new o =
    ground (arith, store_free-Once p rs np, holds-store_free p r rs)

holds-replace_all :
    (p v q : ℕ) (rs : List ℕ)
    → q ≢ v
    → holds q (replace_all p v rs) ≡ (if p == q then false else holds q rs)
unfolding holds replace_all
holds-replace_all p v q [] ne = ground arith
holds-replace_all p v q (r ∷ rs) ne = ground (arith, holds-replace_all p v q rs ne)

pub record IsValid (r : Roots) : Type 0 where
  pub drivers_ok : Once r.drivers
  pub asids_ok : AsidIsValid r.asids
  pub budgets_ok : BudgetIsValid r.budgets
  pub masks_ok : MaskIsValid r.masks

-- On an array without duplicates, enrolment succeeds for a root that is enrolled already and
-- whenever a place is free, enrols no other root, and makes no duplicate.
pub driver_mark_lem :
    (p q : ℕ) (ds : List ℕ)
    → Once ds
    → p ≢ 0
    → q ≢ 0
    → let (done, ds') = driver_mark p ds in
      (done ≡ (holds p ds || holds 0 ds))
      × (is_driver_root q ds' ≡ ((done && (p == q)) || is_driver_root q ds))
      × Once ds'
unfolding driver_mark is_driver_root
driver_mark_lem p q ds o np nq = ground (arith, holds-store_free p q ds, store_free-Once p ds np)

-- Released, a page directory is named by no core's record (the kernel's root is another one), is no
-- driver root, and has no ASID, a budget count of 0 and the full mask; every other directory keeps
-- all of these; and the translations are flushed once more.
pub release_pdir_lem :
    (kernel ttbr0 p q : ℕ) (r : Roots)
    → IsValid r
    → p ≢ 0
    → q ≢ 0
    → q ≢ kernel
    → let r' = (house_release_pdir kernel ttbr0 p r).1 in
      (holds q r'.recorded ≡ (if p == q then false else holds q r.recorded))
      × (is_driver_root q r'.drivers ≡ (if p == q then false else is_driver_root q r.drivers))
      × (find q r'.asids.bound ≡ (if p == q then none else find q r.asids.bound))
      × (budget_count q r'.budgets ≡ (if p == q then 0 else budget_count q r.budgets))
      × (svc_mask_get_locked q r'.masks
          ≡ (if p == q then svc_mask_full else svc_mask_get_locked q r.masks))
      × (r'.asids.flushes ≡ r.asids.flushes + 1)
unfolding house_release_pdir is_driver_root
release_pdir_lem kernel ttbr0 p q r v np nq nk = ground (
  arith,
  holds-replace_all p kernel q r.recorded nk,
  holds-unmark p q r.drivers v.drivers_ok np nq,
  find-evict p q r.asids v.asids_ok,
  flushes-evict p r.asids,
  budget_count-remove p q r.budgets v.budgets_ok,
  mask_get-remove p q r.masks v.masks_ok,
)
