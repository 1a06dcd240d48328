-- ===== src/Userspace/Budget.antt =====
-- The demand-page budgets of userspace.rs: BUDGET_TAB and the functions over it.
-- The table is a list of pairs of a page directory and a count (see house.Keyed); `total` is what
-- `buddy_total_count` returns, an `i32` that is never negative.
pub mod Laws
use mathlib.Core.Option
use house.Prelude.{
  ℕ, zero, suc, ◌+◌, ◌-◌, ◌*◌, ◌/◌, ◌%◌, ◌^◌, ◌≤◌, ◌<◌, min, max, ◌≡◌, refl, sym, ap, subst, ◌∙◌,
  ◌≢◌, ◌⊎◌, inl, inr, ◌↔◌, Bool, true, false, not, ◌&&◌, ◌||◌, Option, none, some, List, [], ◌∷◌,
  ◌++◌, map, arith, ltb, leb, ◌==◌, if◌then◌else◌, ltb→lt, lt→ltb, leb→le, le→leb, ==_iff, ==_refl,
  ==_ne, Bool-cases, Option-cases, all_below, all_below_sound, ℤ, pos, negsuc, neg, eq_ℤ, eq_ℤ_iff,
  as_u64, length, get_elem?, get_or, set, take, drop, replicate, length-append, length-take,
  length-drop, length-set, get_or-set_self, get_or-set_ne,
}
use house.Keyed.{find, assign, swap_remove, table_cap}

abbrev pub BudgetTable : Type 0
BudgetTable = List (ℕ × ℕ)

-- 10% of the pages, and at least 1024
unfoldable pub budget_cap : ℕ → ℕ
budget_cap total = max (total / 10) 1024

pub budget_count : ℕ → BudgetTable → ℕ
budget_count pdir m = Option.get_or (find pdir m) 0

-- a new pair, if there is a free one
abbrev pub append_if_room : ℕ → ℕ → BudgetTable → BudgetTable
append_if_room pdir n m = if ltb (length m) table_cap then m ++ ((pdir, n) ∷ []) else m

-- `saturating_add(1)` on a `u32`
unfoldable pub budget_inc : ℕ → BudgetTable → BudgetTable
budget_inc pdir m = elim (find pdir m) [
  | some n ↦ assign pdir (min (n + 1) (2 ^ 32 - 1)) m
  | none ↦ append_if_room pdir 1 m
]

unfoldable pub budget_over : ℕ → ℕ → BudgetTable → Bool
unfolding budget_cap budget_count
budget_over total pdir m = leb (budget_cap total) (budget_count pdir m)

unfoldable pub house_page_budget_reset : ℕ → BudgetTable → BudgetTable
house_page_budget_reset pdir m =
    if pdir == 0
    then m
    else elim (find pdir m) [ some _ ↦ assign pdir 0 m | none ↦ append_if_room pdir 0 m ]

pub budget_remove : ℕ → BudgetTable → BudgetTable
budget_remove pdir m = swap_remove pdir m

-- the write of an allowed charge: over the pair of `pdir`, or into a new one
pub charge : ℕ → ℕ → BudgetTable → BudgetTable
charge pdir next m =
    let m' = assign pdir next m in
    elim (find pdir m') [ some _ ↦ m' | none ↦ append_if_room pdir next m' ]

-- `cur.checked_add(n)` fails from 2 ^ 32 on.
pub house_page_budget_try_acquire : ℕ → ℕ → ℕ → BudgetTable → ℤ × BudgetTable
unfolding budget_cap budget_count charge
house_page_budget_try_acquire total pdir n m =
    if pdir == 0
    then (neg 22, m)
    else let next = budget_count pdir m + n in
      if ltb next (2 ^ 32) && leb next (budget_cap total)
      then (pos 1, charge pdir next m)
      else (pos 0, m)
