-- ===== src/Keyed/Laws.antt =====
-- The keyed tables as finite maps: what each scan does to every lookup.
use house.Prelude.{
  ℕ, ◌-◌, ◌<◌, ◌≡◌, refl, ◌⊎◌, inl, inr, Option, none, some, List, [], ◌∷◌, ◌++◌, arith, ◌==◌,
  if◌then◌else◌, length,
}
use house.Keyed.{find, assign, final, but_final, fill, swap_remove}

module _ {ℓ} {V : Type ℓ} where
  -- No key stands twice.
  abbrev pub Distinct : List (ℕ × V) → Type ℓ
  Distinct [] = Unit {ℓ}
  Distinct ((k, v) ∷ m) = (find k m ≡ none) × Distinct m

  abbrev pub overwrite : Option V → V → Option V
  overwrite none v = none
  overwrite (some w) v = some v

  pub find-assign :
      (j k : ℕ) (v : V) (m : List (ℕ × V))
      → find j (assign k v m) ≡ (if k == j then overwrite (find k m) v else find j m)
  unfolding find assign
  find-assign j k v [] = ground arith
  find-assign j k v ((i, w) ∷ m) = ground (arith, find-assign j k v m)

  pub length-assign : (k : ℕ) (v : V) (m : List (ℕ × V)) → length (assign k v m) ≡ length m
  unfolding assign
  length-assign k v [] = refl
  length-assign k v ((i, w) ∷ m) = ground (arith, length-assign k v m)

  pub assign-Distinct : (k : ℕ) (v : V) (m : List (ℕ × V)) → Distinct m → Distinct (assign k v m)
  unfolding assign
  assign-Distinct k v [] d = tt
  assign-Distinct k v ((i, w) ∷ m) d =
      ground (arith, assign-Distinct k v m d.1, find-assign i k v m)

  pub find-append_new :
      (j k : ℕ) (v : V) (m : List (ℕ × V))
      → find k m ≡ none
      → find j (m ++ ((k, v) ∷ [])) ≡ (if k == j then some v else find j m)
  unfolding find
  find-append_new j k v [] h = refl
  find-append_new j k v ((i, w) ∷ m) h = ground (arith, find-append_new j k v m)

  pub append_new-Distinct :
      (k : ℕ) (v : V) (m : List (ℕ × V))
      → find k m ≡ none
      → Distinct m
      → Distinct (m ++ ((k, v) ∷ []))
  unfolding find
  append_new-Distinct k v [] h d = (refl, tt)
  append_new-Distinct k v ((i, w) ∷ m) h d =
      ground (arith, append_new-Distinct k v m, find-append_new i k v m)

  find-final :
      (j : ℕ) (x : ℕ × V) (m : List (ℕ × V))
      → Distinct (x ∷ m)
      → find j (final x m ∷ but_final x m) ≡ find j (x ∷ m)
  unfolding find
  find-final j x [] d = refl
  find-final j x (y ∷ m) d = ground (arith, find-final j y m d.1, find-final x.0 y m d.1)

  find-fill : (j : ℕ) (m : List (ℕ × V)) → Distinct m → find j (fill m) ≡ find j m
  find-fill j [] d = refl
  find-fill j (x ∷ m) d = find-final j x m d

  -- A removal forgets that key and no other.
  pub find-swap_remove :
      (j k : ℕ) (m : List (ℕ × V))
      → Distinct m
      → find j (swap_remove k m) ≡ (if k == j then none else find j m)
  unfolding find swap_remove
  find-swap_remove j k [] d = ground arith
  find-swap_remove j k ((i, w) ∷ m) d =
      ground (arith, find-fill j m d.1, find-swap_remove j k m d.1)

  final-Distinct :
      (x : ℕ × V) (m : List (ℕ × V)) → Distinct (x ∷ m) → Distinct (final x m ∷ but_final x m)
  unfolding find
  final-Distinct x [] d = (refl, tt)
  final-Distinct x (y ∷ m) d =
      ground (arith, final-Distinct y m d.1, find-final x.0 y m d.1, find-final y.0 y m d.1)

  fill-Distinct : (m : List (ℕ × V)) → Distinct m → Distinct (fill m)
  fill-Distinct [] d = tt
  fill-Distinct (x ∷ m) d = final-Distinct x m d

  pub swap_remove-Distinct : (k : ℕ) (m : List (ℕ × V)) → Distinct m → Distinct (swap_remove k m)
  unfolding swap_remove
  swap_remove-Distinct k [] d = tt
  swap_remove-Distinct k ((i, w) ∷ m) d =
      ground (arith, fill-Distinct m d.1, swap_remove-Distinct k m d.1, find-swap_remove i k m d.1)

  length-final : (x : ℕ × V) (m : List (ℕ × V)) → length (but_final x m) ≡ length m
  length-final x [] = refl
  length-final x (y ∷ m) = ground (arith, length-final y m)

  length-fill : (m : List (ℕ × V)) → length (fill m) ≡ length m
  length-fill [] = refl
  length-fill (x ∷ m) = ground (arith, length-final x m)

  pub length-swap_remove :
      (k : ℕ) (m : List (ℕ × V))
      → length (swap_remove k m) ≡ elim (find k m) [ none ↦ length m | some v ↦ length m - 1 ]
  unfolding find swap_remove
  length-swap_remove k [] = refl
  length-swap_remove k ((i, w) ∷ m) =
      ground (arith, length-fill m, length-swap_remove k m, length-pos k m)
    where
      length-pos : (j : ℕ) (l : List (ℕ × V)) → (find j l ≡ none) ⊎ (0 < length l)
      length-pos j [] = inl refl
      length-pos j (y ∷ l) = inr (omega arith)
