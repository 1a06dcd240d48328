-- ===== src/Vm/Resv/Release.antt =====
-- rust/crates/house-hal-aarch64/src/mm/vm.rs: what `vm_release` keeps.
use house.Prelude.{
  ℕ, zero, suc, ◌≤◌, ◌≡◌, refl, ap, ◌∙◌, inl, inr, Bool, true, false, ◌&&◌, List, [], ◌∷◌, ◌++◌,
  arith, ◌==◌, if◌then◌else◌, Bool-cases, length, drop,
}
use house.Keyed.{fill, final, but_final}
use house.Vm.Resv.{within, sweep, sweep_behind, vm_release}

final-append : (x z : ℕ × ℕ) (mid : List (ℕ × ℕ)) → final x (mid ++ z ∷ []) ≡ z
final-append x z [] = refl
final-append x z (y ∷ mid) = final-append y z mid

but_final-append : (x z : ℕ × ℕ) (mid : List (ℕ × ℕ)) → but_final x (mid ++ z ∷ []) ≡ x ∷ mid
but_final-append x z [] = refl
but_final-append x z (y ∷ mid) = ap (λ m. x ∷ m) (but_final-append y z mid)

fill-append : (z : ℕ × ℕ) (mid : List (ℕ × ℕ)) → fill (mid ++ z ∷ []) ≡ z ∷ mid
fill-append z [] = refl
fill-append z (x ∷ mid) = rw (final-append x z mid, but_final-append x z mid) refl

-- When a release covers the first entry of the table and there are others, the last entry takes its
-- place and stays reserved at the front of the table, also where the release covers that entry.
pub release_skips :
    (lo hi : ℕ) (x : ℕ × ℕ) (mid : List (ℕ × ℕ)) (z : ℕ × ℕ)
    → within lo hi x ≡ true
    → (rest : List (ℕ × ℕ)) × (vm_release lo hi (x ∷ mid ++ z ∷ []) ≡ z ∷ rest)
unfolding vm_release
release_skips lo hi x mid z a = (sweep (length mid) lo hi mid, rw (a, fill-append z mid) refl)

-- how often a range stands in the reservations
abbrev same_range : ℕ × ℕ → ℕ × ℕ → Bool
same_range (a, b) (c, d) = (a == c) && (b == d)

pub count : ℕ × ℕ → List (ℕ × ℕ) → ℕ
count r [] = 0
count r (x ∷ xs) = if same_range x r then suc (count r xs) else count r xs

same_within : (lo hi : ℕ) (x r : ℕ × ℕ) → same_range x r ≡ true → within lo hi x ≡ within lo hi r
same_within lo hi (a, b) (c, d) h = ground (arith, h)

count-final :
    (r x : ℕ × ℕ) (m : List (ℕ × ℕ)) → count r (final x m ∷ but_final x m) ≡ count r (x ∷ m)
unfolding count
count-final r x [] = refl
count-final r x (y ∷ m) = ground (arith, count-final r y m)

count-fill : (r : ℕ × ℕ) (m : List (ℕ × ℕ)) → count r (fill m) ≡ count r m
count-fill r [] = refl
count-fill r (x ∷ m) = count-final r x m

length-but_final : (x : ℕ × ℕ) (m : List (ℕ × ℕ)) → length (but_final x m) ≡ length m
length-but_final x [] = refl
length-but_final x (y ∷ m) = ap suc (length-but_final y m)

length-fill : (m : List (ℕ × ℕ)) → length (fill m) ≡ length m
length-fill [] = refl
length-fill (x ∷ m) = ap suc (length-but_final x m)

abbrev pub NoneWithin : ℕ → ℕ → List (ℕ × ℕ) → Type 0
NoneWithin lo hi [] = Unit {0}
NoneWithin lo hi (r ∷ rs) = (within lo hi r ≡ false) × NoneWithin lo hi rs

module _ (lo hi : ℕ) (r : ℕ × ℕ) (out : within lo hi r ≡ false) where
  differ : (z : ℕ × ℕ) → within lo hi z ≡ true → same_range z r ≡ false
  differ z y = elim (Bool-cases (same_range z r)) [
    | inl e ↦ let k = same_within lo hi z r e in cc (k, y, out)
    | inr e ↦ e
  ]

  sweep_lem :
      (fuel : ℕ) (rs : List (ℕ × ℕ))
      → length rs ≤ fuel
      → NoneWithin lo hi (sweep fuel lo hi rs) × (count r (sweep fuel lo hi rs) ≡ count r rs)
  unfolding sweep count
  sweep_lem zero [] h = (tt, refl)
  sweep_lem zero (x ∷ rs) h = absurd (omega arith)
  sweep_lem (suc fuel) [] h = (tt, refl)
  sweep_lem (suc fuel) (x ∷ rs) h = elim (Bool-cases (within lo hi x)) [
    | inl y ↦
        let ih = sweep_lem fuel (fill rs) (omega (arith, length-fill rs)) in
        let ne : same_range x r ≡ false = differ x y in rw (y, ne) (ih.0, ih.1 ∙ count-fill r rs)
    | inr y ↦
        let ih = sweep_lem fuel rs (omega arith) in
        rw y ((y, ih.0), ap (λ n. if same_range x r then suc n else n) ih.1)
  ]

  behind_lem :
      (rs : List (ℕ × ℕ))
      → NoneWithin lo hi (drop 1 (sweep_behind lo hi rs))
        × (count r (sweep_behind lo hi rs) ≡ count r rs)
  unfolding count
  behind_lem [] = (tt, refl)
  behind_lem (x ∷ rs) =
      let ih = sweep_lem (length rs) rs (omega arith) in
      (ih.0, ap (λ n. if same_range x r then suc n else n) ih.1)

  -- A release keeps every reservation that it does not cover, each as often as before, and of those
  -- that it covers at most the first entry stays.
  pub vm_release_lem :
      (rs : List (ℕ × ℕ))
      → NoneWithin lo hi (drop 1 (vm_release lo hi rs))
        × (count r (vm_release lo hi rs) ≡ count r rs)
  unfolding vm_release count
  vm_release_lem [] = (tt, refl)
  vm_release_lem (x ∷ rs) = elim (Bool-cases (within lo hi x)) [
    | inl y ↦
        let ih = behind_lem (fill rs) in
        let ne : same_range x r ≡ false = differ x y in rw (y, ne) (ih.0, ih.1 ∙ count-fill r rs)
    | inr y ↦ rw y (behind_lem (x ∷ rs))
  ]
