-- ===== src/Userspace/Mask/Laws.antt =====
-- What a narrowed mask denies, and when a mask is narrowed at all.
use house.Prelude.{
  ℕ, zero, suc, ◌*◌, ◌/◌, ◌%◌, ◌^◌, ◌≤◌, ◌<◌, ◌≡◌, refl, ◌≢◌, ◌⊎◌, inl, inr, true, none, some, [],
  ◌∷◌, arith, ◌==◌, if◌then◌else◌, Option-cases, all_below, all_below_sound, length, length-append,
}
use native.Mathlib.Nat.{pow-suc}
use house.Keyed.{find, table_cap}
use house.Keyed.Laws.{
  Distinct, find-assign, length-assign, assign-Distinct, find-append_new, append_new-Distinct,
  find-swap_remove, swap_remove-Distinct, length-swap_remove,
}
use house.Userspace.Mask.{
  MaskTable, bit, svc_mask_full, svc_mask_get_locked, svc_mask_set_locked, svc_mask_remove,
  house_svc_mask_set, house_svc_allowed,
}

-- The table holds each page directory at most once, and fits its array.
pub record IsValid (m : MaskTable) : Type 0 where
  pub distinct : Distinct m
  pub fits : length m ≤ table_cap

-- Where a mask can be stored: the directory has its pair already, or there is a free one.
abbrev pub HasRoom : ℕ → MaskTable → Type 0
HasRoom p m = (find p m ≢ none) ⊎ (length m < table_cap)

half-mod : (x p : ℕ) → 0 < p → (x % (2 * p)) / 2 ≡ (x / 2) % p
half-mod x p h = grind arith

low_bit : (x p : ℕ) → 0 < p → (x % (2 * p)) % 2 ≡ x % 2
low_bit x p h = grind arith

two_pow : (n : ℕ) → (2 ^ suc n ≡ 2 * 2 ^ n) × (0 < 2 ^ n)
two_pow zero = (refl, omega arith)
two_pow (suc n) = omega (arith, pow-suc 2 n, pow-suc 2 (suc n), (two_pow n).1)

-- The low bits survive a cut above them.
bit_low : (i n x : ℕ) → i < n → bit (x % 2 ^ n) i ≡ bit x i
unfolding bit
bit_low i zero x h = elim h [ ]
bit_low zero (suc n) x h = rw ((two_pow n).0, low_bit x (2 ^ n) (two_pow n).1)
bit_low (suc i) (suc n) x h =
    rw ((two_pow n).0, half-mod x (2 ^ n) (two_pow n).1) (bit_low i n (x / 2) (omega arith))

find-set_locked :
    (p mask q : ℕ) (m : MaskTable)
    → HasRoom p m
    → find q (svc_mask_set_locked p mask m) ≡ (if p == q then some mask else find q m)
unfolding svc_mask_set_locked
find-set_locked p mask q m room = elim (Option-cases (find p m)) [
  | inl e ↦ ground (arith, find-append_new q p mask m e)
  | inr (w, e) ↦ ground (arith, find-assign q p mask m)
]

pub set_locked-IsValid :
    (p mask : ℕ) (m : MaskTable) → IsValid m → IsValid (svc_mask_set_locked p mask m)
unfolding svc_mask_set_locked
set_locked-IsValid p mask m v = elim (Option-cases (find p m)) [
  | inl e ↦
      ground (arith, append_new-Distinct p mask m e v.distinct, length-append m ((p, mask) ∷ []))
  | inr (w, e) ↦ ground (arith, assign-Distinct p mask m v.distinct, length-assign p mask m)
]

-- With room for the entry, narrowing the mask of a process decides each of its calls 0x00..0x18
-- by the new mask, and no call of any other process.
pub allowed-mask_set :
    (p mask : ℕ) (m : MaskTable) (q imm : ℕ)
    → p ≢ 0
    → imm ≤ 0x18
    → HasRoom p m
    → house_svc_allowed q imm (house_svc_mask_set p mask m)
      ≡ (if p == q then bit mask imm else house_svc_allowed q imm m)
unfolding house_svc_allowed house_svc_mask_set
allowed-mask_set p mask m q imm nz le room =
    ground (arith, find-set_locked p (mask % 2 ^ 25) q m room, bit_low imm 25 mask)

full_bits : all_below 25 (bit svc_mask_full) ≡ true
unfolding bit
full_bits = refl

full_bit : (imm : ℕ) → imm < 25 → bit svc_mask_full imm ≡ true
full_bit imm h = all_below_sound 25 (bit svc_mask_full) imm full_bits h

set_locked-full :
    (p mask : ℕ) (m : MaskTable)
    → find p m ≡ none
    → length m ≡ table_cap
    → svc_mask_set_locked p mask m ≡ m
unfolding svc_mask_set_locked
set_locked-full p mask m absent full = ground arith

-- With no room the call changes nothing: a process whose directory has no entry keeps every
-- syscall, whatever mask was asked for.
pub mask_set-full :
    (p mask : ℕ) (m : MaskTable) (imm : ℕ)
    → p ≢ 0
    → find p m ≡ none
    → length m ≡ table_cap
    → imm ≤ 0x18
    → (house_svc_mask_set p mask m ≡ m)
      × (house_svc_allowed p imm (house_svc_mask_set p mask m) ≡ true)
unfolding house_svc_allowed house_svc_mask_set
mask_set-full p mask m imm nz absent full le =
    let same = set_locked-full p (mask % 2 ^ 25) m absent full in
    (ground (arith, same), ground (arith, same, full_bit imm (omega arith)))

pub mask_remove-IsValid : (p : ℕ) (m : MaskTable) → IsValid m → IsValid (svc_mask_remove p m)
unfolding svc_mask_remove
mask_remove-IsValid p m v =
    ground (arith, swap_remove-Distinct p m v.distinct, length-swap_remove p m)

pub mask_get-remove :
    (p q : ℕ) (m : MaskTable)
    → IsValid m
    → svc_mask_get_locked q (svc_mask_remove p m)
      ≡ (if p == q then svc_mask_full else svc_mask_get_locked q m)
unfolding svc_mask_get_locked svc_mask_remove
mask_get-remove p q m v = ground (arith, find-swap_remove q p m v.distinct)
