-- ===== src/El0/Table.antt =====
-- The session table as a map from directories to slots.
use house.Prelude.{
  ℕ, suc, ◌-◌, ◌≤◌, ◌≡◌, refl, ap, ◌≢◌, ◌⊎◌, inl, inr, false, Option, none, some, List, [], ◌∷◌,
  arith, ◌==◌, if◌then◌else◌, ==_iff, Bool-cases, length, get_or, set,
}
use house.El0.{Slot, el0_free, find_slot, find_last}

-- the slot of a directory
unfoldable pub look : ℕ → List Slot → Option Slot
look key [] = none
look key (s ∷ ss) = if s.pdir == key then some s else look key ss

-- the table with that slot replaced
pub replace : ℕ → Slot → List Slot → List Slot
replace key s' [] = []
replace key s' (s ∷ ss) = if s.pdir == key then s' ∷ ss else s ∷ replace key s' ss

-- No directory has two slots.
abbrev pub Unique : List Slot → Type 0
Unique [] = Unit {0}
Unique (s ∷ ss) = ((s.pdir ≡ 0) ⊎ (look s.pdir ss ≡ none)) × Unique ss

-- what a scan for a directory finds
abbrev pub Found : ℕ → List Slot → ℕ → Option ℕ → Type 0
Found key ss i none = look key ss ≡ none
Found key ss i (some k) =
    (i ≤ k)
    × (look key ss ≡ some (get_or ss (k - i) el0_free))
    × ((s' : Slot) → set ss (k - i) s' ≡ replace key s' ss)

Found-suc :
    (key : ℕ) (s : Slot) (ss : List Slot) (i : ℕ) (r : Option ℕ)
    → Found key ss (suc i) r
    → (s.pdir == key) ≡ false
    → Found key (s ∷ ss) i r
unfolding look replace
Found-suc key s ss i none h c = rw (c, look) h
Found-suc key s ss i (some k) (a, b, f) c =
    let shift : k - i ≡ suc (k - suc i) = omega arith in
    (omega arith, rw (shift, c, look) b, λ s'. rw (shift, c, replace) (ap (λ t. s ∷ t) (f s')))

pub find_slot-Found : (key : ℕ) (ss : List Slot) (i : ℕ) → Found key ss i (find_slot key ss i)
unfolding find_slot look replace
find_slot-Found key [] i = refl
find_slot-Found key (s ∷ ss) i = elim (Bool-cases (s.pdir == key)) [
  | inl y ↦
      rw (y, find_slot)
        (omega arith, rw (zero_sub i, y, look) refl, λ s'. rw (zero_sub i, y, replace) refl)
  | inr ne ↦ rw (ne, find_slot) (Found-suc key s ss i _ (find_slot-Found key ss (suc i)) ne)
]
  where
    zero_sub : (k : ℕ) → k - k ≡ 0
    zero_sub k = omega arith

find_slot-none : (key : ℕ) (ss : List Slot) (i : ℕ) → look key ss ≡ none → find_slot key ss i ≡ none
unfolding look find_slot
find_slot-none key [] i h = refl
find_slot-none key (s ∷ ss) i h = ground (arith, find_slot-none key ss (suc i))

find_last-none : (key : ℕ) (ss : List Slot) (i : ℕ) → look key ss ≡ none → find_last key ss i ≡ none
unfolding look find_last
find_last-none key [] i h = refl
find_last-none key (s ∷ ss) i h = ground (arith, find_last-none key ss (suc i))

-- the same for the whole table
abbrev pub Scanned : ℕ → List Slot → Option ℕ → Type 0
Scanned key ss none = look key ss ≡ none
Scanned key ss (some k) =
    (look key ss ≡ some (get_or ss k el0_free)) × ((s' : Slot) → set ss k s' ≡ replace key s' ss)

pub find_slot-Scanned : (key : ℕ) (ss : List Slot) → Scanned key ss (find_slot key ss 0)
find_slot-Scanned key ss = go (find_slot key ss 0) (find_slot-Found key ss 0)
  where
    minus_zero : (k : ℕ) → k - 0 ≡ k
    minus_zero k = omega arith

    go : (r : Option ℕ) → Found key ss 0 r → Scanned key ss r
    go none f = f
    go (some k) (a, b, f) = ((rw (minus_zero k) at b), (rw (minus_zero k) at f))

-- The last slot of a directory is its first one.
pub find_last_lem :
    (key : ℕ) (ss : List Slot) (i : ℕ)
    → key ≢ 0
    → Unique ss
    → find_last key ss i ≡ find_slot key ss i
unfolding find_last find_slot look
find_last_lem key [] i nz u = refl
find_last_lem key (s ∷ ss) i nz (o, u) = elim (Bool-cases (s.pdir == key)) [
  | inl y ↦
      let e : s.pdir ≡ key = (==_iff s.pdir key).0 y in
      let e' = find_last-none key ss (suc i) (ground (arith, o, e)) in
      rw (find_last, e', find_slot, y) refl
  | inr ne ↦
      rw (find_last, find_last_lem key ss (suc i) nz u, find_slot)
        (option-eta s.pdir ne (find_slot key ss (suc i)))
]
  where
    option-eta :
        (p : ℕ)
        → (p == key) ≡ false
        → (r : Option ℕ)
        → elim r [ none ↦ if p == key then some i else none | some j ↦ some j ]
          ≡ (if p == key then some i else r)
    option-eta p c none = rw c refl
    option-eta p c (some j) = rw c refl

-- what a replacement may write in the place of a slot of `key`
abbrev pub Fits : ℕ → Slot → List Slot → Type 0
Fits key s' ss = (s'.pdir ≡ 0) ⊎ ((s'.pdir ≡ key) ⊎ (look s'.pdir ss ≡ none))

pub look-replace :
    (k key : ℕ) (s s' : Slot) (ss : List Slot)
    → Unique ss
    → look key ss ≡ some s
    → Fits key s' ss
    → k ≢ 0
    → look k (replace key s' ss)
      ≡ (if s'.pdir == k then some s' else if key == k then none else look k ss)
unfolding look replace
look-replace k key s s' [] u h f nz = ground arith
look-replace k key s s' (x ∷ ss) u h f nz = ground (arith, look-replace k key s s' ss u.1)

pub replace-Unique :
    (key : ℕ) (s s' : Slot) (ss : List Slot)
    → Unique ss
    → look key ss ≡ some s
    → Fits key s' ss
    → Unique (replace key s' ss)
unfolding look replace
replace-Unique key s s' [] u h f = tt
replace-Unique key s s' (x ∷ ss) u h f =
    ground (arith, replace-Unique key s s' ss u.1, look-replace x.pdir key s s' ss u.1)

pub length-replace : (key : ℕ) (s' : Slot) (ss : List Slot) → length (replace key s' ss) ≡ length ss
unfolding replace
length-replace key s' [] = refl
length-replace key s' (x ∷ ss) = ground (arith, length-replace key s' ss)

pub look_pdir : (key : ℕ) (ss : List Slot) (s : Slot) → look key ss ≡ some s → s.pdir ≡ key
unfolding look
look_pdir key [] s h = ground arith
look_pdir key (x ∷ ss) s h = ground (arith, look_pdir key ss s)
