-- ===== src/Buddy/Pages.antt =====
-- Lists of distinct pages.
use house.Prelude.{
  ℕ, suc, ◌≡◌, refl, sym, ap, subst, ◌∙◌, ◌≢◌, ◌⊎◌, inl, inr, Bool, true, false, ◌||◌, List, [],
  ◌∷◌, arith, ◌==◌, if◌then◌else◌, ==_refl, length,
}

unfoldable pub has : ℕ → List ℕ → Bool
has p [] = false
has p (q ∷ qs) = (q == p) || has p qs

pub remove : ℕ → List ℕ → List ℕ
remove p [] = []
remove p (q ∷ qs) = if q == p then qs else q ∷ remove p qs

abbrev pub Distinct : List ℕ → Type 0
Distinct [] = Unit {0}
Distinct (q ∷ qs) = (has q qs ≡ false) × Distinct qs

pub has-cons : (p q : ℕ) (qs : List ℕ) → has p (q ∷ qs) ≡ ((q == p) || has p qs)
unfolding has
has-cons p q qs = refl

pub has-nil : (p : ℕ) → has p [] ≡ false
unfolding has
has-nil p = refl

pub has-remove :
    (p q : ℕ) (qs : List ℕ)
    → Distinct qs
    → has q (remove p qs) ≡ (if p == q then false else has q qs)
unfolding has remove
has-remove p q [] d = ground arith
has-remove p q (x ∷ qs) d = ground (arith, has-remove p q qs d.1)

pub remove-Distinct : (p : ℕ) (qs : List ℕ) → Distinct qs → Distinct (remove p qs)
unfolding has remove
remove-Distinct p [] d = tt
remove-Distinct p (x ∷ qs) d = ground (arith, remove-Distinct p qs d.1, has-remove p x qs d.1)

pub length-remove : (p : ℕ) (qs : List ℕ) → has p qs ≡ true → suc (length (remove p qs)) ≡ length qs
unfolding has remove
length-remove p [] h = ground arith
length-remove p (x ∷ qs) h = ground (arith, length-remove p qs)

-- the pages of the list are linked in memory, from `h`
pub Chain : (ℕ → ℕ) → ℕ → List ℕ → Type 0
Chain mem h [] = h ≡ 0
Chain mem h (p ∷ ps) = (h ≡ p) × (p ≢ 0) × Chain mem (mem p) ps

pub Chain-frame :
    (mem mem' : ℕ → ℕ) (h : ℕ) (ps : List ℕ)
    → Chain mem h ps
    → ((a : ℕ) → has a ps ≡ true → mem' a ≡ mem a)
    → Chain mem' h ps
unfolding Chain has
Chain-frame mem mem' h [] c f = c
Chain-frame mem mem' h (p ∷ ps) (e, nz, c) f = (
  e,
  nz,
  rw (f p (rw (==_refl p) refl))
      (Chain-frame mem mem' (mem p) ps c (λ a y. f a (ground (arith, y)))),
)

pub Chain-nil : (mem : ℕ → ℕ) (h : ℕ) → h ≡ 0 → Chain mem h []
unfolding Chain
Chain-nil mem h e = e

pub Chain-cons :
    (mem : ℕ → ℕ) (p : ℕ) (ps : List ℕ) → p ≢ 0 → Chain mem (mem p) ps → Chain mem p (p ∷ ps)
unfolding Chain
Chain-cons mem p ps nz c = (refl, nz, c)

-- the list of an empty chain, and of one that is not
pub Chain-cases :
    (mem : ℕ → ℕ) (h : ℕ) (ps : List ℕ)
    → Chain mem h ps
    → ((h ≡ 0) × (ps ≡ [])) ⊎ ((h ≢ 0) × (qs : List ℕ) × (ps ≡ h ∷ qs) × Chain mem (mem h) qs)
unfolding Chain
Chain-cases mem h [] c = inl (c, refl)
Chain-cases mem h (p ∷ ps) (e, nz, c) =
    inr (
      λ z. nz (sym e ∙ z),
      ps,
      ap (λ x. x ∷ ps) (sym e),
      subst (λ x. Chain mem (mem x) ps) (sym e) c,
    )
