-- ===== src/Svc/Buffer/Strings.antt =====
-- What the check of a string accepts.
use house.Svc.{Space, translate_va, house_is_demand_va, byte_at, in_window}
use house.Prelude.{
  ℕ, zero, suc, ◌+◌, ◌<◌, ◌≡◌, ◌≢◌, ◌⊎◌, inl, inr, Bool, true, false, not, arith, ◌==◌,
  if◌then◌else◌, ==_iff, ℤ, pos, neg,
}
use house.Svc.Buffer.{scan_cstring, validate_cstring_current}

-- a byte that is there and not NUL
abbrev pub IsChar : Space → ℕ → Type 0
IsChar s va = (translate_va s va ≢ 0) × (byte_at s.mem (translate_va s va) ≢ 0)

-- where the scan stops: at a NUL, or on a page that is promised
abbrev pub Ends : Space → ℕ → Type 0
Ends s va =
    ((translate_va s va ≢ 0) × (byte_at s.mem (translate_va s va) ≡ 0))
    ⊎ ((translate_va s va ≡ 0) × (house_is_demand_va s va ≡ true))

-- a string of fewer than `n` bytes, as far as it is there
abbrev pub StringAt : ℕ → Space → ℕ → Type 0
StringAt n s va = (k : ℕ) × (k < n) × Ends s (va + k) × ((i : ℕ) → i < k → IsChar s (va + i))

later : (n : ℕ) (s : Space) (va : ℕ) → IsChar s va → StringAt n s (va + 1) → StringAt (suc n) s va
later n s va t (k, l, e, f) = (suc k, omega (arith, l), (rw (shift va k) at e), each)
  where
    shift : (a i : ℕ) → a + 1 + i ≡ a + suc i
    shift a i = omega arith

    add_zero : (a : ℕ) → a + 0 ≡ a
    add_zero a = omega arith

    each : (i : ℕ) → i < suc k → IsChar s (va + i)
    each zero h = rw (add_zero va) t
    each (suc i) h = (rw (shift va i) at (f i (omega (arith, h))))

here : (n : ℕ) (s : Space) (va : ℕ) → Ends s va → StringAt (suc n) s va
here n s va e = (0, omega arith, rw (add_zero va) e, λ i h. absurd (omega arith))
  where
    add_zero : (a : ℕ) → a + 0 ≡ a
    add_zero a = omega arith

-- one step of the scan
abbrev step : Bool → Bool → Bool → ℤ → ℤ
step a b c r = if a then (if b then pos 0 else neg 14) else if c then pos 0 else r

step_cases :
    (a b c : Bool) (r : ℤ)
    → step a b c r ≡ pos 0
    → ((a ≡ true) × (b ≡ true))
      ⊎ (((a ≡ false) × (c ≡ true)) ⊎ ((a ≡ false) × (c ≡ false) × (r ≡ pos 0)))
step_cases a b c r h = ground (arith, h)

differs : (n : ℕ) → (n == 0) ≡ false → n ≢ 0
differs n y = ground (arith, y)

pub scan_cstring-StringAt :
    (n : ℕ) (s : Space) (va : ℕ) → scan_cstring s n va ≡ pos 0 → StringAt n s va
unfolding scan_cstring
scan_cstring-StringAt zero s va y = absurd (ground (arith, y))
scan_cstring-StringAt (suc n) s va y =
    let pa = translate_va s va in
    elim (step_cases (pa == 0) (house_is_demand_va s va) (byte_at s.mem pa == 0)
      (scan_cstring s n (va + 1)) y) [
        | inl (a, b) ↦ here n s va (inr ((==_iff pa 0).0 a, b))
        | inr (inl (a, c)) ↦ here n s va (inl (differs pa a, (==_iff _ 0).0 c))
        | inr (inr (a, c, r)) ↦
            later n s va (differs pa a, differs _ c) (scan_cstring-StringAt n s (va + 1) r)
      ]

window_cases : (w : Bool) (r : ℤ) → (if not w then neg 14 else r) ≡ pos 0 → (w ≡ true) × (r ≡ pos 0)
window_cases w r h = ground (arith, h)

-- a path that was checked
abbrev pub PathChecked : Space → ℕ → Type 0
PathChecked s va = (in_window va 256 ≡ true) × StringAt 256 s va

pub validate_cstring-PathChecked :
    (s : Space) (va : ℕ) → validate_cstring_current s va 256 ≡ pos 0 → PathChecked s va
unfolding validate_cstring_current
validate_cstring-PathChecked s va y =
    let (w, r) = window_cases (in_window va 256) (scan_cstring s 256 va) y in
    (w, scan_cstring-StringAt 256 s va r)
