-- ===== src/Svc/Copy/Laws.antt =====
-- What the kernel copies from a session is what the session has there.
use house.Prelude.{
  ℕ, zero, suc, ◌+◌, ◌≤◌, ◌<◌, max, ◌≡◌, refl, sym, ap, subst, ◌≢◌, ◌⊎◌, inl, inr, true, false,
  Option, none, some, List, ◌∷◌, arith, ltb, ◌==◌, ==_iff, ==_ne, Bool-cases, ℤ, pos, neg, length,
  get_or,
}
use house.Svc.{translate_va_pdir, byte_at, in_window}
use house.Svc.Copy.{read_bytes, house_user_read_bytes, scan_strlen, house_user_strlen}

-- the bytes copied up to the first address that is not mapped
abbrev pub Copied : (ℕ → ℕ) → ℕ → ℕ → ℕ → ℤ × List ℕ → Type 0
Copied mem pdir va n (r, bs) =
    (((r ≡ pos 0) × (length bs ≡ n))
      ⊎ ((r ≡ neg 14) × (length bs < n) × (translate_va_pdir mem pdir (va + length bs) ≡ 0)))
    × ((i : ℕ)
        → i < length bs
        → (translate_va_pdir mem pdir (va + i) ≢ 0)
          × (get_or bs i 0 ≡ byte_at mem (translate_va_pdir mem pdir (va + i))))

shift : (a i : ℕ) → a + 1 + i ≡ a + suc i
shift a i = omega arith

add_zero : (a : ℕ) → a + 0 ≡ a
add_zero a = omega arith

read_bytes-Copied :
    (n : ℕ) (mem : ℕ → ℕ) (pdir va : ℕ) → Copied mem pdir va n (read_bytes mem pdir va n)
unfolding read_bytes
read_bytes-Copied zero mem pdir va = (inl (refl, refl), λ i h. absurd (omega arith))
read_bytes-Copied (suc n) mem pdir va = elim (Bool-cases (translate_va_pdir mem pdir va == 0)) [
  | inl y ↦
      rw (y, read_bytes)
        (inr (refl, omega arith, rw (add_zero va) ((==_iff _ _).0 y)), λ i h. absurd (omega arith))
  | inr ne ↦
      rw (ne, read_bytes)
        (more (read_bytes mem pdir (va + 1) n) (read_bytes-Copied n mem pdir (va + 1)) ne)
]
  where
    t : ℕ
    t = translate_va_pdir mem pdir va

    more :
        (r : ℤ × List ℕ)
        → Copied mem pdir (va + 1) n r
        → (t == 0) ≡ false
        → Copied mem pdir va (suc n) (r.0, byte_at mem t ∷ r.1)
    more (r, bs) (o, f) ne = (outcome o, each)
      where
        outcome :
            ((r ≡ pos 0) × (length bs ≡ n))
              ⊎ ((r ≡ neg 14)
                  × (length bs < n)
                  × (translate_va_pdir mem pdir (va + 1 + length bs) ≡ 0))
            → ((r ≡ pos 0) × (suc (length bs) ≡ suc n))
              ⊎ ((r ≡ neg 14)
                  × (suc (length bs) < suc n)
                  × (translate_va_pdir mem pdir (va + suc (length bs)) ≡ 0))
        outcome (inl (z, l)) = inl (z, ap suc l)
        outcome (inr (z, l, u)) = inr (z, omega (arith, l), (rw (shift va (length bs)) at u))

        each :
            (i : ℕ)
            → i < suc (length bs)
            → (translate_va_pdir mem pdir (va + i) ≢ 0)
              × (get_or (byte_at mem t ∷ bs) i 0
                  ≡ byte_at mem (translate_va_pdir mem pdir (va + i)))
        each zero h = rw (add_zero va) (ground (arith, ne), refl)
        each (suc i) h = (rw (shift va i) at (f i (omega (arith, h))))

-- A copy of at most 65536 bytes of the user window hands over the session's bytes in order, each as the
-- page tables say, and fails with EFAULT at the first address that is not mapped, and only there.
pub user_read_bytes_lem :
    (mem : ℕ → ℕ) (pdir va len : ℕ)
    → pdir ≢ 0
    → len ≤ 65536
    → in_window va len ≡ true
    → Copied mem pdir va len (house_user_read_bytes mem pdir va true len)
unfolding house_user_read_bytes
user_read_bytes_lem mem pdir va len nz le w = elim (Bool-cases (len == 0)) [
  | inl z ↦
      rw (house_user_read_bytes, ==_ne pdir 0 nz, le-ltb len le, z)
        (inl (refl, sym ((==_iff len 0).0 z)), λ i h. absurd (omega arith))
  | inr n ↦
      rw (house_user_read_bytes, ==_ne pdir 0 nz, le-ltb len le, n, w)
        (read_bytes-Copied len mem pdir va)
]
  where
    le-ltb : (n : ℕ) → n ≤ 65536 → ltb 65536 n ≡ false
    le-ltb n h = ground (arith, h)

-- a byte of the string that is there and not NUL
abbrev pub IsText : (ℕ → ℕ) → ℕ → ℕ → Type 0
IsText mem pdir va =
    (translate_va_pdir mem pdir va ≢ 0) × (byte_at mem (translate_va_pdir mem pdir va) ≢ 0)

abbrev pub Strlen : (ℕ → ℕ) → ℕ → ℕ → ℕ → ℕ → ℤ × Option ℕ → Type 0
Strlen mem pdir va lo hi (r, l) =
    ((k : ℕ) × (lo ≤ k)
      × (k < hi)
      × (r ≡ pos 0)
      × (l ≡ some k)
      × (translate_va_pdir mem pdir (va + k) ≢ 0)
      × (byte_at mem (translate_va_pdir mem pdir (va + k)) ≡ 0)
      × ((i : ℕ) → lo ≤ i → i < k → IsText mem pdir (va + i)))
    ⊎ (((k : ℕ) × (lo ≤ k)
          × (k < hi)
          × (r ≡ neg 14)
          × (l ≡ none)
          × (translate_va_pdir mem pdir (va + k) ≡ 0)
          × ((i : ℕ) → lo ≤ i → i < k → IsText mem pdir (va + i)))
        ⊎ ((r ≡ neg 22) × (l ≡ none) × ((i : ℕ) → lo ≤ i → i < hi → IsText mem pdir (va + i))))

cons-IsText :
    (mem : ℕ → ℕ) (pdir va lo k : ℕ)
    → IsText mem pdir (va + lo)
    → ((i : ℕ) → suc lo ≤ i → i < k → IsText mem pdir (va + i))
    → (i : ℕ) → lo ≤ i
    → i < k
    → IsText mem pdir (va + i)
cons-IsText mem pdir va lo k t f i h l = elim (Bool-cases (lo == i)) [
  | inl y ↦ subst (λ j. IsText mem pdir (va + j)) ((==_iff lo i).0 y) t
  | inr n ↦ let ne : lo ≢ i = ground (arith, n) in f i (omega (arith, ne, h)) l
]

Strlen-cons :
    (mem : ℕ → ℕ) (pdir va lo hi : ℕ) (r : ℤ × Option ℕ)
    → IsText mem pdir (va + lo)
    → Strlen mem pdir va (suc lo) hi r
    → Strlen mem pdir va lo hi r
Strlen-cons mem pdir va lo hi r t (inl (k, a, b, e, l, u, z, f)) =
    inl (k, omega (arith, a), b, e, l, u, z, cons-IsText mem pdir va lo k t f)
Strlen-cons mem pdir va lo hi r t (inr (inl (k, a, b, e, l, u, f))) =
    inr (inl (k, omega (arith, a), b, e, l, u, cons-IsText mem pdir va lo k t f))
Strlen-cons mem pdir va lo hi r t (inr (inr (e, l, f))) =
    inr (inr (e, l, cons-IsText mem pdir va lo hi t f))

scan_strlen-Strlen :
    (n : ℕ) (mem : ℕ → ℕ) (pdir va i : ℕ)
    → Strlen mem pdir va i (i + n) (scan_strlen mem pdir va i n)
unfolding scan_strlen
scan_strlen-Strlen zero mem pdir va i = inr (inr (refl, refl, λ j h l. absurd (omega arith)))
scan_strlen-Strlen (suc n) mem pdir va i =
    let pa = translate_va_pdir mem pdir (va + i) in
    elim (Bool-cases (pa == 0)) [
      | inl y ↦
          rw (y, scan_strlen)
            (inr (
              inl (
                i,
                omega arith,
                omega arith,
                refl,
                refl,
                (==_iff pa 0).0 y,
                λ j h l. absurd (omega arith),
              )))
      | inr ne ↦ elim (Bool-cases (byte_at mem pa == 0)) [
        | inl z ↦
            rw (ne, z, scan_strlen)
              (inl (
                i,
                omega arith,
                omega arith,
                refl,
                refl,
                ground (arith, ne),
                (==_iff _ 0).0 z,
                λ j h l. absurd (omega arith),
              ))
        | inr nz ↦
            rw (ne, nz, scan_strlen)
              (Strlen-cons mem pdir va i (i + suc n) (scan_strlen mem pdir va (suc i) n)
                (ground (arith, ne), ground (arith, nz))
                (rw (suc_move i n) (scan_strlen-Strlen n mem pdir va (suc i))))
      ]
    ]
  where
    suc_move : (a b : ℕ) → a + suc b ≡ suc a + b
    suc_move a b = omega arith

-- In a part of the user window of 1 to 4096 bytes, the length of a string is the place of its
-- first NUL. The scan fails with EFAULT at an address that is not mapped before any NUL, and with
-- EINVAL when there is no NUL in the first `max` bytes.
pub user_strlen_lem :
    (mem : ℕ → ℕ) (pdir va max : ℕ)
    → pdir ≢ 0
    → max ≢ 0
    → max ≤ 4096
    → in_window va max ≡ true
    → Strlen mem pdir va 0 max (house_user_strlen mem pdir va max true)
unfolding house_user_strlen
user_strlen_lem mem pdir va max nz mz le w =
    rw (house_user_strlen, ==_ne pdir 0 nz, ==_ne max 0 mz, le-ltb max le, w)
      (subst (λ h. Strlen mem pdir va 0 h (scan_strlen mem pdir va 0 max)) (zero_add max)
        (scan_strlen-Strlen max mem pdir va 0))
  where
    le-ltb : (n : ℕ) → n ≤ 4096 → ltb 4096 n ≡ false
    le-ltb n h = ground (arith, h)

    zero_add : (a : ℕ) → 0 + a ≡ a
    zero_add a = omega arith
