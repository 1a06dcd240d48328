-- ===== src/Malloc/Fit.antt =====
-- rust/crates/house-libc/src/alloc.rs, `pool_alloc_locked`: the walk of the free list, and what taking
-- a block out of it leaves.
use house.Prelude.{
  ℕ, zero, suc, ◌-◌, ◌≤◌, ◌<◌, ◌≡◌, refl, sym, ap, ◌∙◌, ◌≢◌, inl, inr, Option, some, List, [], ◌∷◌,
  ◌++◌, arith, leb, leb→le, ==_ne, Bool-cases, length,
}
use house.Bytes.{load}
use house.Malloc.{Pool, follow, take_block, first_fit}
use house.Malloc.Blocks.{All, Distinct, Chain, All-left, Chain-same}

abbrev pub link_after : Option ℕ → List ℕ → Option ℕ
link_after link [] = link
link_after link (x ∷ xs) = link_after (some x) xs

abbrev pub last : ℕ → List ℕ → ℕ
last q [] = q
last q (x ∷ xs) = last x xs

pub last-link_after : (q : ℕ) (xs : List ℕ) → link_after (some q) xs ≡ some (last q xs)
last-link_after q [] = refl
last-link_after q (x ∷ xs) = last-link_after x xs

pub All-last {ℓ} : (P : ℕ → Type ℓ) (q : ℕ) (xs : List ℕ) → P q → All P xs → P (last q xs)
All-last P q [] p h = p
All-last P q (x ∷ xs) p h = All-last P x xs h.0 h.1

-- How the walk over `xs` ends: no block is large enough, or `cur` is the first that is.
pub data Walk (s : Pool) (size : ℕ → ℕ) (n : ℕ) (link : Option ℕ) (xs : List ℕ)
    (r : Option (ℕ × Pool)) : Type 0 where
  missed : r ≡ some (0, s) → All (λ x. size x < n) xs → Walk s size n link xs r
  hit :
      (before : List ℕ) (cur : ℕ) (after : List ℕ)
      → xs ≡ before ++ cur ∷ after
      → All (λ x. size x < n) before
      → n ≤ size cur
      → r ≡ some (cur, take_block (link_after link before) cur s)
      → Walk s size n link xs r

Walk-cons :
    {s : Pool} {size : ℕ → ℕ} {n : ℕ} (link : Option ℕ) (x : ℕ) {xs : List ℕ}
    {r r' : Option (ℕ × Pool)}
    → size x < n
    → r' ≡ r
    → Walk s size n (some x) xs r
    → Walk s size n link (x ∷ xs) r'
Walk-cons link x small e (missed a b) = missed (e ∙ a) (small, b)
Walk-cons link x small e (hit before cur after a b c d) =
    hit (x ∷ before) cur after (ap (λ l. x ∷ l) a) (small, b) c (e ∙ d)

-- With more fuel than free blocks, the walk ends in one of the two ways.
pub first_fit_lem :
    (s : Pool) (size : ℕ → ℕ) (n fuel : ℕ) (link : Option ℕ) (xs : List ℕ)
    → length xs < fuel
    → Chain s.mem (follow link s) xs
    → All (λ x. (x ≢ 0) × (load (x - 8) s.mem ≡ size x)) xs
    → Walk s size n link xs (first_fit fuel link n s)
unfolding first_fit follow
first_fit_lem s size n zero link xs f c h = absurd (omega arith)
first_fit_lem s size n (suc fuel) link [] f c h = missed (rw c refl) tt
first_fit_lem s size n (suc fuel) link (x ∷ xs) f c h =
    elim (Bool-cases (leb n (load (x - 8) s.mem))) [
      | inl y ↦
          hit [] x xs refl tt (rw (← h.0.1) (leb→le _ _ y)) (rw (c.0, ==_ne x 0 h.0.0, y) refl)
      | inr y ↦
          Walk-cons link x (ground (arith, h.0.1)) (rw (c.0, ==_ne x 0 h.0.0, y) refl)
            (first_fit_lem s size n fuel (some x) xs (omega arith) c.1 h.1)
    ]

All-apply :
    (mem mem' : ℕ → ℕ) (q : ℕ) (xs : List ℕ)
    → All (λ x. q ≢ x → load x mem' ≡ load x mem) xs
    → All (λ x. q ≢ x) xs
    → All (λ x. load x mem' ≡ load x mem) xs
All-apply mem mem' q [] a b = tt
All-apply mem mem' q (x ∷ xs) a b = (a.0 b.0, All-apply mem mem' q xs a.1 b.1)

-- The list behind `q` with `cur` unlinked: only the link before `cur` has changed.
pub Chain-unlink :
    (mem mem' : ℕ → ℕ) (q : ℕ) (before : List ℕ) (cur : ℕ) (after : List ℕ)
    → Chain mem (load q mem) (before ++ cur ∷ after)
    → Distinct (q ∷ before ++ cur ∷ after)
    → load (last q before) mem' ≡ load cur mem
    → All (λ x. last q before ≢ x → load x mem' ≡ load x mem) (q ∷ before ++ after)
    → Chain mem' (load q mem') (before ++ after)
Chain-unlink mem mem' q [] cur after c d e same =
    rw e (Chain-same mem mem' (load cur mem) after (All-apply mem mem' q after same.1 d.0.1) c.1)
Chain-unlink mem mem' q (x ∷ before) cur after c d e same =
    let ne : last x before ≢ q = λ k.
      All-last (λ y. q ≢ y) x before d.0.0 (All-left (λ y. q ≢ y) before (cur ∷ after) d.0.1)
        (sym k) in
    (same.0 ne ∙ c.0, Chain-unlink mem mem' x before cur after c.1 d.1 e same.1)
