-- ===== src/Malloc/Answers.antt =====
-- rust/crates/house-libc/src/alloc.rs: what the pool is after a call that a program makes.
use house.Prelude.{ℕ, max, ◌≡◌, sym, subst, ◌∙◌, ◌≢◌, ◌⊎◌, inl, inr, some, List, ◌∷◌, ◌++◌, arith}
use house.Malloc.{Pool, malloc, calloc, realloc}
use house.Malloc.Blocks.{IsPool, Holding, IsSound, errno-IsPool}
use house.Malloc.Carve.{grow}
use house.Malloc.Serve.{Served, refused, reused, carved, malloc_lem}
use house.Malloc.Copies.{calloc_lem, realloc_lem}

-- A call that answers `p` and leaves the pool `s`; a null answer gives no block.
abbrev pub Gives : ℕ → Pool → Holding → Holding → Type 0
Gives p s t u = ((p ≢ 0) × (u ≡ (s, p ∷ t.1))) ⊎ ((p ≡ 0) × (u ≡ (s, t.1)))

pub Served-IsSound :
    {size : ℕ → ℕ} {live freed : List ℕ} {s s' : Pool} {n p : ℕ}
    → p ≢ 0
    → Served size live freed s n p s'
    → IsSound (s', p ∷ live)
Served-IsSound nz (refused z _ _ _) = absurd (nz z)
Served-IsSound {size} nz (reused before after _ _ _ _ w _) = (size, before ++ after, w)
Served-IsSound {size} {freed = freed} {n = n} {p = p} nz (carved _ _ _ _ w _) =
    (grow size p n, freed, w)

pub Served-null :
    {size : ℕ → ℕ} {live freed : List ℕ} {s s' : Pool} {n : ℕ}
    → IsPool size live freed s
    → Served size live freed s n 0 s'
    → IsPool size live freed s'
Served-null {size} {live} {freed} v (refused _ e _ _) =
    subst (IsPool size live freed) (sym e) (errno-IsPool v 12)
Served-null v (reused _ _ _ _ _ _ w _) = absurd (omega (arith, w.layout.block 0 w.live_blocks.0.0))
Served-null v (carved _ above _ _ _ _) = absurd (omega arith)

-- The results of one call are the same.
pub Served-at :
    {size : ℕ → ℕ} {live freed : List ℕ} {s : Pool} (v : IsPool size live freed s) (n p : ℕ)
    (s' : Pool)
    → malloc n s ≡ some (p, s')
    → Served size live freed s (max n 8) p s'
Served-at {size} {live} {freed} {s} v n p s' e =
    let (p1, s1, e1, h) = malloc_lem v n in
    let ep : p1 ≡ p = cc (e, e1) in
    let es : s1 ≡ s' = cc (e, e1) in
    subst (λ q. Served size live freed s (max n 8) q s') ep
      (subst (λ w. Served size live freed s (max n 8) p1 w) es h)

-- A call that fails, or gives a block, leaves a well-formed pool.
pub Gives-IsSound :
    {size : ℕ → ℕ} {freed : List ℕ} {t u : Holding} (v : IsPool size t.1 freed t.0) (p : ℕ)
    (s' : Pool)
    → (s' ≡ record t.0 { errno = 12 }) × (p ≡ 0) ⊎ IsSound (s', p ∷ t.1)
    → Gives p s' t u
    → IsSound u
Gives-IsSound v p s' (inl (e, z)) (inl (nz, eu)) = absurd (nz z)
Gives-IsSound {size} {freed} {t} v p s' (inl (e, z)) (inr (_, eu)) =
    subst IsSound (sym eu) (size, freed, subst (IsPool size t.1 freed) (sym e) (errno-IsPool v 12))
Gives-IsSound v p s' (inr h) (inl (_, eu)) = subst IsSound (sym eu) h
Gives-IsSound v p s' (inr (size, freed, w)) (inr (z, eu)) =
    absurd (omega (arith, w.layout.block p w.live_blocks.0.0, z))

pub zeroed-at :
    {size : ℕ → ℕ} {freed : List ℕ} {t : Holding} (v : IsPool size t.1 freed t.0) (a b p : ℕ)
    (s' : Pool)
    → calloc a b t.0 ≡ some (p, s')
    → (s' ≡ record t.0 { errno = 12 }) × (p ≡ 0) ⊎ IsSound (s', p ∷ t.1)
zeroed-at {t = t} v a b p s' e =
    let (p1, s1, e1, h) = calloc_lem v a b in
    let ep : p1 ≡ p = cc (e, e1) in
    let es : s1 ≡ s' = cc (e, e1) in
    elim h [
      | inl (z, k) ↦ inl (sym es ∙ k, sym ep ∙ z)
      | inr k ↦
          inr (subst (λ q. IsSound (s', q ∷ t.1)) ep (subst (λ w. IsSound (w, p1 ∷ t.1)) es k.0))
    ]

pub copy-at :
    {size : ℕ → ℕ} {freed : List ℕ} {t : Holding} (v : IsPool size t.1 freed t.0) (before : List ℕ)
    (old : ℕ) (after : List ℕ) (n p : ℕ) (s' : Pool)
    → t.1 ≡ before ++ old ∷ after
    → realloc old n t.0 ≡ some (p, s')
    → (s' ≡ record t.0 { errno = 12 }) × (p ≡ 0) ⊎ IsSound (s', p ∷ t.1)
copy-at {t = t} v before old after n p s' l e =
    let (p1, s1, e1, h) = realloc_lem v before old after n l in
    let ep : p1 ≡ p = cc (e, e1) in
    let es : s1 ≡ s' = cc (e, e1) in
    elim h [
      | inl (z, k, _) ↦ inl (sym es ∙ k, sym ep ∙ z)
      | inr k ↦
          inr (subst (λ q. IsSound (s', q ∷ t.1)) ep (subst (λ w. IsSound (w, p1 ∷ t.1)) es k.0))
    ]
