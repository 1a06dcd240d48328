-- ===== src/Userspace/Budget/Laws.antt =====
-- A process with an entry in the budget table never holds more pages than the cap.
use house.Prelude.{
  ℕ, zero, suc, ◌+◌, ◌*◌, ◌^◌, ◌≤◌, ◌<◌, ◌≡◌, refl, ◌≢◌, ◌⊎◌, inl, inr, none, some, List, [], ◌∷◌,
  arith, ◌==◌, if◌then◌else◌, Option-cases, pos, eq_ℤ, length, replicate, length-append,
}
use house.Keyed.{find, assign, table_cap}
use house.Keyed.Laws.{
  Distinct, find-assign, length-assign, assign-Distinct, find-append_new, append_new-Distinct,
  find-swap_remove, swap_remove-Distinct, length-swap_remove,
}
use house.Userspace.Budget.{
  BudgetTable, budget_cap, budget_count, charge, budget_remove, house_page_budget_try_acquire,
}

pub record IsValid (m : BudgetTable) : Type 0 where
  pub distinct : Distinct m
  pub fits : length m ≤ table_cap

abbrev pub HasRoom : ℕ → BudgetTable → Type 0
HasRoom p m = (find p m ≢ none) ⊎ (length m < table_cap)

find-charge :
    (p next q : ℕ) (m : BudgetTable)
    → HasRoom p m
    → find q (charge p next m) ≡ (if p == q then some next else find q m)
unfolding charge
find-charge p next q m room = elim (Option-cases (find p m)) [
  | inl e ↦ ground (
    arith,
    find-assign p p next m,
    find-assign q p next m,
    length-assign p next m,
    find-append_new q p next (assign p next m),
  )
  | inr (w, e) ↦ ground (arith, find-assign p p next m, find-assign q p next m)
]

-- With room for the entry, a charge is granted exactly if the count with it stays in the cap (the
-- cap fits in a `u32`), and then raises the count of that process by the pages asked for and no
-- other count; a refusal changes nothing.
pub try_acquire_lem :
    (total p n q : ℕ) (m : BudgetTable)
    → p ≢ 0
    → total < 2 ^ 31
    → HasRoom p m
    → let (r, m') = house_page_budget_try_acquire total p n m in
      ((r ≡ pos 1)
        × (budget_count p m + n ≤ budget_cap total)
        × (budget_count q m' ≡ (if p == q then budget_count p m + n else budget_count q m)))
      ⊎ ((r ≡ pos 0) × (budget_cap total < budget_count p m + n) × (m' ≡ m))
unfolding house_page_budget_try_acquire budget_count budget_cap
try_acquire_lem total p n q m nz small room =
    ground (arith, find-charge p (budget_count p m + n) q m room)

pub try_acquire-IsValid :
    (total p n : ℕ) (m : BudgetTable)
    → IsValid m
    → IsValid (house_page_budget_try_acquire total p n m).1
unfolding house_page_budget_try_acquire charge
try_acquire-IsValid total p n m v =
    let next = budget_count p m + n in
    ground (
      arith,
      assign-Distinct p next m v.distinct,
      length-assign p next m,
      append_new-Distinct p next (assign p next m),
      length-append (assign p next m) ((p, next) ∷ []),
    )

-- the pages granted by a sequence of charges to one process
pub acquire_all : ℕ → ℕ → List ℕ → BudgetTable → ℕ × BudgetTable
unfolding house_page_budget_try_acquire
acquire_all total p [] m = (0, m)
acquire_all total p (n ∷ ns) m =
    let (r, m') = house_page_budget_try_acquire total p n m in
    let (g, m'') = acquire_all total p ns m' in ((if eq_ℤ r (pos 1) then n + g else g), m'')

find-of-count : (p c : ℕ) (m : BudgetTable) → find p m ≡ some c → budget_count p m ≡ c
unfolding budget_count
find-of-count p c m e = ground arith

-- Of a process whose entry is within the cap, what is granted over any sequence of charges adds
-- up to the rise of its count, which stays in the cap.
pub acquire_all_lem :
    (total p : ℕ) (ns : List ℕ) (m : BudgetTable) (c : ℕ)
    → p ≢ 0
    → total < 2 ^ 31
    → find p m ≡ some c
    → c ≤ budget_cap total
    → let (g, m') = acquire_all total p ns m in
      (find p m' ≡ some (c + g)) × (c + g ≤ budget_cap total)
unfolding acquire_all house_page_budget_try_acquire budget_cap
acquire_all_lem total p [] m c nz small e le = ground arith
acquire_all_lem total p (n ∷ ns) m c nz small e le = ground (
  arith,
  find-of-count p c m e,
  find-charge p (c + n) p m (inl (ground arith)),
  acquire_all_lem total p ns m c nz small e le,
  acquire_all_lem total p ns (charge p (c + n) m) (c + n) nz small,
)

assign-absent : (p v : ℕ) (m : BudgetTable) → find p m ≡ none → assign p v m ≡ m
unfolding find assign
assign-absent p v [] h = refl
assign-absent p v ((q, w) ∷ m) h = ground (arith, assign-absent p v m)

try_acquire-full :
    (total p n : ℕ) (m : BudgetTable)
    → p ≢ 0
    → total < 2 ^ 31
    → n ≤ budget_cap total
    → find p m ≡ none
    → length m ≡ table_cap
    → house_page_budget_try_acquire total p n m ≡ (pos 1, m)
unfolding house_page_budget_try_acquire budget_cap budget_count charge
try_acquire-full total p n m nz small le absent full = ground (arith, assign-absent p n m absent)

-- A process with no entry, while the table is full of others, is granted every charge within the
-- cap, as often as it asks: nothing is counted.
pub acquire_all-full :
    (total p n k : ℕ) (m : BudgetTable)
    → p ≢ 0
    → total < 2 ^ 31
    → n ≤ budget_cap total
    → find p m ≡ none
    → length m ≡ table_cap
    → acquire_all total p (replicate k n) m ≡ (k * n, m)
unfolding acquire_all
acquire_all-full total p n zero m nz small le absent full = ground arith
acquire_all-full total p n (suc k) m nz small le absent full =
    rw
      (
        try_acquire-full total p n m nz small le absent full,
        acquire_all-full total p n k m nz small le absent full,
      )
      (ground arith)

pub budget_count-remove :
    (p q : ℕ) (m : BudgetTable)
    → IsValid m
    → budget_count q (budget_remove p m) ≡ (if p == q then 0 else budget_count q m)
unfolding budget_count budget_remove
budget_count-remove p q m v = ground (arith, find-swap_remove q p m v.distinct)

pub budget_remove-IsValid : (p : ℕ) (m : BudgetTable) → IsValid m → IsValid (budget_remove p m)
unfolding budget_remove
budget_remove-IsValid p m v =
    ground (arith, swap_remove-Distinct p m v.distinct, length-swap_remove p m)
