-- ===== src/Tests/Roots.antt =====
-- Page directories: the tables of userspace.rs with one or two entries, and full tables.
use house.Prelude.{
  ℕ, zero, suc, ◌+◌, ◌*◌, ◌≤◌, ◌≡◌, refl, ◌⊎◌, inl, inr, true, false, none, some, List, [], ◌∷◌,
  arith, length, replicate,
}
use house.Keyed.{find, table_cap}
use house.Userspace.Mask.{
  MaskTable, svc_mask_full, bit, svc_mask_get_locked, house_svc_mask_set, house_svc_allowed,
}
use house.Userspace.Mask.Laws.{allowed-mask_set, mask_set-full}
use house.Userspace.Budget.{BudgetTable, budget_cap, budget_count}
use house.Userspace.Budget.Laws.{acquire_all, acquire_all_lem, acquire_all-full}
use house.Userspace.Asid.{Asids, boot, asid_for_pdir}
use house.Userspace.Asid.Laws.{asid_for_lem}
use house.Userspace.Asid.Laws.{IsValid as AsidIsValid}
use house.Userspace.Asid.Alias.{churn, Others, churn_alias}
use house.Userspace.Release.{Roots, holds, is_driver_root, house_release_pdir}
use house.Userspace.Release.Laws.{release_pdir_lem}
use house.Userspace.Release.Laws.{IsValid as RootsIsValid}

abbrev masks : MaskTable
masks = (0x5000, 7) ∷ []

abbrev budgets : BudgetTable
budgets = (0x5000, 10) ∷ []

-- pairs of the keys 1 to `n`
abbrev numbered : ℕ → List (ℕ × ℕ)
numbered zero = []
numbered (suc n) = (suc n, 0) ∷ numbered n

allowed-mask_set_example :
    house_svc_allowed 0x5000 4 (house_svc_mask_set 0x5000 15 masks) ≡ bit 15 4
allowed-mask_set_example =
    allowed-mask_set 0x5000 15 masks 0x5000 4 (λ e. omega (arith, e)) (omega arith)
      (inr (omega arith))

not_there : find 100 (numbered 64) ≡ none
unfolding find
not_there = refl

mask_set-full_example :
    (house_svc_mask_set 100 15 (numbered 64) ≡ numbered 64)
    × (house_svc_allowed 100 4 (house_svc_mask_set 100 15 (numbered 64)) ≡ true)
mask_set-full_example =
    mask_set-full 100 15 (numbered 64) 4 (λ e. omega (arith, e)) not_there refl (omega arith)

counted_there : find 0x5000 budgets ≡ some 10
unfolding find
counted_there = refl

in_cap : 10 ≤ budget_cap 50000
unfolding budget_cap
in_cap = omega arith

acquire_all_lem_example :
    let (g, m') = acquire_all 50000 0x5000 (1000 ∷ 6000 ∷ 20 ∷ []) budgets in
    (find 0x5000 m' ≡ some (10 + g)) × (10 + g ≤ budget_cap 50000)
acquire_all_lem_example =
    acquire_all_lem 50000 0x5000 (1000 ∷ 6000 ∷ 20 ∷ []) budgets 10 (λ e. omega (arith, e))
      (omega arith) counted_there in_cap

acquire_all-full_example :
    acquire_all 50000 100 (replicate 40 10) (numbered 64) ≡ (400, numbered 64)
unfolding budget_cap
acquire_all-full_example =
    acquire_all-full 50000 100 10 40 (numbered 64) (λ e. omega (arith, e)) (omega arith)
      (omega arith) not_there refl

abbrev asids : Asids
asids = record { bound = (0x5000, 3) ∷ []; next = 4; flushes = 0 }

asids_valid : AsidIsValid asids
unfolding find
asids_valid = record {
  counter = (omega arith, omega arith);
  distinct = (refl, tt);
  fits = omega arith;
  in_range = λ p a e. ground (arith, e);
}

asid_for_lem_example :
    let (a, s') = asid_for_pdir 0x6000 asids in
    ((1 ≤ a) × (a ≤ 250) × AsidIsValid s')
    × (asid_for_pdir 0x6000 s' ≡ (a, s'))
    × ((find 0x5000 s'.bound ≡ find 0x5000 asids.bound)
        ⊎ ((length asids.bound ≡ table_cap)
            × (find 0x5000 s'.bound ≡ none)
            × (s'.flushes ≡ asids.flushes + 1)))
asid_for_lem_example = asid_for_lem 0x6000 0x5000 asids asids_valid (λ e. omega (arith, e))

-- directories of processes that come and go
abbrev visitors : ℕ → List ℕ
visitors zero = []
visitors (suc n) = (0x10000 + n * 4096) ∷ visitors n

visitors-Others : (n : ℕ) → Others 0x5000 (visitors n)
visitors-Others zero = tt
visitors-Others (suc n) = ((λ e. omega (arith, e)), (λ e. omega (arith, e)), visitors-Others n)

churn_alias_example :
    let (a, s) = asid_for_pdir 0x6000 (churn (visitors 249) (asid_for_pdir 0x5000 boot).1) in
    (find 0x5000 s.bound ≡ some a) × (find 0x6000 s.bound ≡ some a)
churn_alias_example =
    churn_alias 0x5000 0x6000 (visitors 249) refl (visitors-Others 249) (λ e. omega (arith, e))

abbrev roots : Roots
roots = record {
  recorded = 0x5000 ∷ 0x1000 ∷ [];
  drivers = 0x5000 ∷ 0 ∷ [];
  asids = asids;
  budgets = budgets;
  masks = masks;
}

roots_valid : RootsIsValid roots
unfolding holds find
roots_valid = record {
  drivers_ok = (inr refl, (inl refl, tt));
  asids_ok = asids_valid;
  budgets_ok = record { distinct = (refl, tt); fits = omega arith };
  masks_ok = record { distinct = (refl, tt); fits = omega arith };
}

release_pdir_lem_example :
    let r' = (house_release_pdir 0x1000 0x5000 0x5000 roots).1 in
    (holds 0x5000 r'.recorded ≡ false)
    × (is_driver_root 0x5000 r'.drivers ≡ false)
    × (find 0x5000 r'.asids.bound ≡ none)
    × (budget_count 0x5000 r'.budgets ≡ 0)
    × (svc_mask_get_locked 0x5000 r'.masks ≡ svc_mask_full)
    × (r'.asids.flushes ≡ 1)
release_pdir_lem_example =
    release_pdir_lem 0x1000 0x5000 0x5000 0x5000 roots roots_valid (λ e. omega (arith, e))
      (λ e. omega (arith, e)) (λ e. omega (arith, e))
