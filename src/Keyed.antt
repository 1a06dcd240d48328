-- ===== src/Keyed.antt =====
-- The keyed tables of userspace.rs (BUDGET_TAB, SVC_MASK_TAB, ASID_MAP): 64 pairs, of which the
-- first `*_N` are in use. A table is the list of the pairs in use; the rest of the array is not read.
pub mod Laws
use house.Prelude.{
  ℕ, zero, suc, ◌+◌, ◌-◌, ◌*◌, ◌/◌, ◌%◌, ◌^◌, ◌≤◌, ◌<◌, min, max, ◌≡◌, refl, sym, ap, subst, ◌∙◌,
  ◌≢◌, ◌⊎◌, inl, inr, ◌↔◌, Bool, true, false, not, ◌&&◌, ◌||◌, Option, none, some, List, [], ◌∷◌,
  ◌++◌, map, arith, ltb, leb, ◌==◌, if◌then◌else◌, ltb→lt, lt→ltb, leb→le, le→leb, ==_iff, ==_refl,
  ==_ne, Bool-cases, Option-cases, all_below, all_below_sound, is_some, ℤ, pos, negsuc, neg, eq_ℤ,
  eq_ℤ_iff, as_u64, length, get_elem?, get_or, set, take, drop, replicate, length-append,
  length-take, length-drop, length-set, get_or-set_self, get_or-set_ne,
}

-- the capacity of each of the three arrays
abbrev pub table_cap : ℕ
table_cap = 64

module _ {ℓ} {A : Type ℓ} where
  abbrev pub final : A → List A → A
  final x [] = x
  final x (y ∷ m) = final y m

  abbrev pub but_final : A → List A → List A
  but_final x [] = []
  but_final x (y ∷ m) = x ∷ but_final y m

  -- what stands behind a removed pair: the last pair in use moves into the gap
  abbrev pub fill : List A → List A
  fill [] = []
  fill (x ∷ m) = final x m ∷ but_final x m

module _ {ℓ} {V : Type ℓ} where
  -- the scan `for i in 0..N { if TAB[i].0 == key`
  unfoldable pub find : ℕ → List (ℕ × V) → Option V
  find k [] = none
  find k ((j, v) ∷ m) = if j == k then some v else find k m

  -- the scan that writes the value beside the first match
  unfoldable pub assign : ℕ → V → List (ℕ × V) → List (ℕ × V)
  assign k v [] = []
  assign k v ((j, w) ∷ m) = if j == k then (j, v) ∷ m else (j, w) ∷ assign k v m

  -- `TAB[i] = TAB[last]; N = last;` at the first match
  unfoldable pub swap_remove : ℕ → List (ℕ × V) → List (ℕ × V)
  swap_remove k [] = []
  swap_remove k ((j, v) ∷ m) = if j == k then fill m else (j, v) ∷ swap_remove k m
