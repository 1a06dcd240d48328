-- ===== src/Vm/Resv/Laws.antt =====
-- rust/crates/house-hal-aarch64/src/mm/vm.rs: what the reservations promise.
use house.Prelude.{
  ℕ, ◌+◌, ◌-◌, ◌/◌, ◌%◌, ◌≤◌, ◌<◌, ◌≡◌, refl, ap, ◌⊎◌, inl, inr, Bool, true, false, not, ◌&&◌, ◌||◌,
  Option, none, some, List, [], ◌∷◌, ◌++◌, arith, ltb, leb, ◌==◌, if◌then◌else◌, lt→ltb, le→leb,
  ==_iff, ==_ne, Bool-cases, ℤ, pos, neg, eq_ℤ, length,
}
use house.Vm.Resv.{
  mblock, user_va_max, resv_cap, usize_max, Machine, Resv, vm_overlap, vm_record, round_up, mmap_at,
  mmap_next, house_vm_mmap,
}

-- A range that meets none of the reservations, and reservations of which no two meet.
abbrev pub Clear : ℕ → ℕ → List (ℕ × ℕ) → Type 0
Clear lo hi [] = Unit {0}
Clear lo hi (r ∷ rs) = ((hi ≤ r.0) ⊎ (r.1 ≤ lo)) × Clear lo hi rs

abbrev pub AllApart : List (ℕ × ℕ) → Type 0
AllApart [] = Unit {0}
AllApart (r ∷ rs) = Clear r.0 r.1 rs × AllApart rs

overlap_none : (lo hi : ℕ) (rs : List (ℕ × ℕ)) → vm_overlap lo hi rs ≡ false → Clear lo hi rs
unfolding vm_overlap
overlap_none lo hi [] h = tt
overlap_none lo hi ((a, b) ∷ rs) h = (ground (arith, h), overlap_none lo hi rs (ground (arith, h)))

Clear-append :
    (lo hi a b : ℕ) (rs : List (ℕ × ℕ))
    → Clear lo hi rs
    → (b ≤ lo) ⊎ (hi ≤ a)
    → Clear lo hi (rs ++ (a, b) ∷ [])
Clear-append lo hi a b [] c h = (elim h [ inl x ↦ inr x | inr x ↦ inl x ], tt)
Clear-append lo hi a b (r ∷ rs) c h = (c.0, Clear-append lo hi a b rs c.1 h)

AllApart-append :
    (a b : ℕ) (rs : List (ℕ × ℕ)) → AllApart rs → Clear a b rs → AllApart (rs ++ (a, b) ∷ [])
AllApart-append a b [] h c = (tt, tt)
AllApart-append a b (r ∷ rs) h c =
    (Clear-append r.0 r.1 a b rs h.0 c.0, AllApart-append a b rs h.1 c.1)

-- A granted range: at least as long as asked, behind it the new reservation, if it has met none.
abbrev pub Granted : ℕ → Resv → Option ℕ × Resv → Type 0
Granted len s (none, s') = (s'.ranges ≡ s.ranges) × (s'.mmap_cur ≡ s.mmap_cur)
Granted len s (some p, s') =
    Clear p (p + round_up mblock len) s.ranges
    × (len ≤ round_up mblock len)
    × (s'.ranges ≡ s.ranges ++ (p, p + round_up mblock len) ∷ [])
    × AllApart s'.ranges

recorded :
    (p len : ℕ) (s : Resv)
    → length s.ranges < resv_cap
    → AllApart s.ranges
    → vm_overlap p (p + round_up mblock len) s.ranges ≡ false
    → Granted len s (some p, vm_record p (p + round_up mblock len) s)
unfolding vm_record
recorded p len s room ap o =
    let c = overlap_none p (p + round_up mblock len) s.ranges o in
    rw (lt→ltb (length s.ranges) resv_cap room)
      (c, omega arith, refl, AllApart-append p (p + round_up mblock len) s.ranges ap c)

or_false : (a b : Bool) → (a || b) ≡ false → b ≡ false
or_false a b h = ground (arith, h)

not-true : (a b : Bool) → (a && not b) ≡ true → b ≡ false
not-true a b h = ground (arith, h)

either : {A : Type 0} (P : A → Type 0) (b : Bool) {x y : A} → P x → P y → P (if b then x else y)
either P true px py = px
either P false px py = py

mmap_next_lem :
    (len : ℕ) (s : Resv)
    → length s.ranges < resv_cap
    → AllApart s.ranges
    → Granted len s (mmap_next len s)
unfolding mmap_next
mmap_next_lem len s room ap =
    let p = if s.mmap_cur == 0 then 0x44000000 else round_up mblock s.mmap_cur in
    let stop = p + round_up mblock len in
    either (Granted len s) (ltb usize_max stop) (refl, refl)
      (elim (Bool-cases (ltb (user_va_max + 1) stop || vm_overlap p stop s.ranges)) [
        | inl y ↦ rw y (refl, refl)
        | inr y ↦ rw y (recorded p len (record s { mmap_cur = stop }) room ap (or_false _ _ y))
      ])

mmap_at_lem :
    (m : Machine) (addr len : ℕ) (s : Resv)
    → length s.ranges < resv_cap
    → AllApart s.ranges
    → Granted len s (mmap_at m addr len false s)
unfolding mmap_at
mmap_at_lem m addr len s room ap =
    elim (Bool-cases (
      leb (addr + round_up mblock len) 0x1000000000000
      && not (vm_overlap addr (addr + round_up mblock len) s.ranges))) [
        | inl y ↦ rw y (recorded addr len s room ap (not-true _ _ y))
        | inr y ↦ rw y (refl, refl)
      ]

-- While fewer than 32 ranges are reserved, a call without MAP_FIXED gives a range that meets none of
-- them, rounded up to MiB, and reserves it, so that still no two meet; or it fails and reserves
-- nothing.
pub house_vm_mmap_lem :
    (m : Machine) (addr len prot flags : ℕ) (fd off : ℤ) (s : Resv)
    → flags / 16 % 2 ≡ 0
    → length s.ranges < resv_cap
    → AllApart s.ranges
    → Granted len s (house_vm_mmap m addr len prot flags fd off s)
unfolding house_vm_mmap
house_vm_mmap_lem m addr len prot flags fd off s f room ap =
    let G = Granted len s in
    either G (not (eq_ℤ fd (neg 1))) (refl, refl)
      (either G (not (eq_ℤ off (pos 0))) (refl, refl)
        (either G (not (prot / 8 == 0)) (refl, refl)
          (either G (not (prot / 4 % 2 == 0)) (refl, refl)
            (either G (len == 0) (refl, refl)
              (either G (ltb usize_max (len + (mblock - 1))) (refl, refl)
                (either G (addr == 0) (mmap_next_lem len s room ap) (
                  either G (ltb usize_max (addr + round_up mblock len)) (refl, refl)
                    (rw f (mmap_at_lem m addr len s room ap)))))))))

-- With 32 reservations a hint is granted and not reserved, and the same call is granted again.
pub mmap_twice :
    (m : Machine) (addr len prot flags : ℕ) (s : Resv)
    → flags / 16 % 2 ≡ 0
    → length s.ranges ≡ resv_cap
    → 0 < addr
    → 0 < len
    → prot / 4 ≡ 0
    → addr + round_up mblock len ≤ 0x1000000000000
    → vm_overlap addr (addr + round_up mblock len) s.ranges ≡ false
    → (house_vm_mmap m addr len prot flags (neg 1) (pos 0) s ≡ (some addr, s))
unfolding house_vm_mmap mmap_at vm_record
mmap_twice m addr len prot flags s f full a l p h o =
    rw
      (
        ==_ne len 0 (omega arith),
        ==_ne addr 0 (omega arith),
        small,
        fits,
        f,
        ((==_iff (prot / 8) 0).1 (omega arith)),
        ((==_iff (prot / 4 % 2) 0).1 (omega arith)),
      )
      (rw (le→leb _ _ h, o, mmap_at) (ap (λ r. (some addr, r)) unrecorded))
  where
    small : ltb usize_max (len + (mblock - 1)) ≡ false
    small = ground (arith, h)

    fits : ltb usize_max (addr + round_up mblock len) ≡ false
    fits = ground (arith, h)

    unrecorded : vm_record addr (addr + round_up mblock len) s ≡ s
    unrecorded = rw full refl
