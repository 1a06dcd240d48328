-- ===== src/Userspace/Mask.antt =====
-- The syscall masks of userspace.rs: SVC_MASK_TAB and the functions over it.
-- The table is a list of pairs of a page directory and a mask (see house.Keyed).
pub mod Laws
use mathlib.Core.Option
use house.Prelude.{
  ℕ, zero, suc, ◌+◌, ◌-◌, ◌*◌, ◌/◌, ◌%◌, ◌^◌, ◌≤◌, ◌<◌, min, max, ◌≡◌, refl, sym, ap, subst, ◌∙◌,
  ◌≢◌, ◌⊎◌, inl, inr, ◌↔◌, Bool, true, false, not, ◌&&◌, ◌||◌, Option, none, some, List, [], ◌∷◌,
  ◌++◌, map, arith, ltb, leb, ◌==◌, if◌then◌else◌, ltb→lt, lt→ltb, leb→le, le→leb, ==_iff, ==_refl,
  ==_ne, Bool-cases, Option-cases, ℤ, pos, negsuc, neg, eq_ℤ, eq_ℤ_iff, as_u64, length, get_elem?,
  get_or, set, take, drop, replicate, length-append, length-take, length-drop, length-set,
  get_or-set_self, get_or-set_ne,
}
use house.Keyed.{find, assign, swap_remove, table_cap}

abbrev pub MaskTable : Type 0
MaskTable = List (ℕ × ℕ)

-- SVC_MASK_FULL, 0x1FFFFFF: 25 ones
abbrev pub svc_mask_full : ℕ
svc_mask_full = 0x1FFFFFF

-- bit `i` of `x`: `x & (1 << i) != 0`
unfoldable pub bit : ℕ → ℕ → Bool
bit x zero = x % 2 == 1
bit x (suc i) = bit (x / 2) i

pub svc_mask_get_locked : ℕ → MaskTable → ℕ
svc_mask_get_locked pdir m = Option.get_or (find pdir m) svc_mask_full

pub svc_mask_set_locked : ℕ → ℕ → MaskTable → MaskTable
svc_mask_set_locked pdir mask m = elim (find pdir m) [
  | some _ ↦ assign pdir mask m
  | none ↦ if ltb (length m) table_cap then m ++ ((pdir, mask) ∷ []) else m
]

pub svc_mask_remove : ℕ → MaskTable → MaskTable
svc_mask_remove pdir m = swap_remove pdir m

unfoldable pub house_svc_mask_reset : ℕ → MaskTable → MaskTable
unfolding svc_mask_set_locked
house_svc_mask_reset pdir m = if pdir == 0 then m else svc_mask_set_locked pdir svc_mask_full m

-- `mask & SVC_MASK_FULL` keeps the low 25 bits.
pub house_svc_mask_set : ℕ → ℕ → MaskTable → MaskTable
unfolding svc_mask_set_locked
house_svc_mask_set pdir mask m = if pdir == 0 then m else svc_mask_set_locked pdir (mask % 2 ^ 25) m

unfoldable pub house_svc_mask_get : ℕ → MaskTable → ℕ
unfolding svc_mask_get_locked
house_svc_mask_get pdir m = if pdir == 0 then 0 else svc_mask_get_locked pdir m

-- 1 allowed, 0 denied
pub house_svc_allowed : ℕ → ℕ → MaskTable → Bool
unfolding svc_mask_get_locked
house_svc_allowed pdir imm m =
    if pdir == 0
    then false
    else if ltb 0x18 imm
    then false
    else bit (svc_mask_get_locked pdir m) imm
