-- ===== src/Malloc/Moves.antt =====
-- rust/crates/house-libc/src/alloc.rs: a program that calls `malloc`, `calloc`, `realloc` and `free` and
-- writes to its blocks, step by step.
use house.Prelude.{
  ℕ, ◌+◌, ◌-◌, ◌%◌, ◌≤◌, ◌<◌, ◌≡◌, refl, sym, subst, ◌≢◌, ◌⊎◌, inl, inr, some, List, [], ◌∷◌, ◌++◌,
  arith, ◌==◌, ==_iff, ==_ne, Bool-cases,
}
use house.Bytes.{store_byte, load}
use house.Malloc.{
  malloc_pool_bytes, malloc_magic, Pool, usize_max, pool_top, malloc, free, calloc, realloc,
}
use house.Malloc.Blocks.{
  IsLive, IsPool, All-right, All-at, Distinct-right, far, Holding, IsSound, errno-IsPool,
}
use house.Malloc.Write.{within-IsPool}
use house.Malloc.Answers.{
  Gives, Served-IsSound, Served-null, Served-at, Gives-IsSound, zeroed-at, copy-at,
}
use house.Malloc.Release.{free_ignored, IsLive-at, free_lem}

pub data Move (t u : Holding) : Type 0 where
  request :
      (n p : ℕ) (s' : Pool) → malloc n t.0 ≡ some (p, s') → p ≢ 0 → u ≡ (s', p ∷ t.1) → Move t u
  refuse : (n : ℕ) (s' : Pool) → malloc n t.0 ≡ some (0, s') → u ≡ (s', t.1) → Move t u
  give_back :
      (before : List ℕ) (p : ℕ) (after : List ℕ)
      → t.1 ≡ before ++ p ∷ after
      → u ≡ (free p t.0, before ++ after)
      → Move t u
  request_zeroed :
      (a b p : ℕ) (s' : Pool) → calloc a b t.0 ≡ some (p, s') → Gives p s' t u → Move t u
  -- The old block stays held, as `realloc` does not release it.
  request_copy :
      (before : List ℕ) (old : ℕ) (after : List ℕ) (n p : ℕ) (s' : Pool)
      → t.1 ≡ before ++ old ∷ after
      → realloc old n t.0 ≡ some (p, s')
      → Gives p s' t u
      → Move t u
  -- `free` of a pointer that is outside the pool or has no magic before it
  wild_free :
      (p : ℕ)
      → (p < t.0.heap_base + 16) ⊎ (pool_top t.0 ≤ p) ⊎ (load (p - 16) t.0.mem ≢ malloc_magic)
      → u ≡ (free p t.0, t.1)
      → Move t u
  -- a byte written to a block that is held, within the size its header records
  write :
      (before : List ℕ) (p : ℕ) (after : List ℕ) (x b : ℕ)
      → t.1 ≡ before ++ p ∷ after
      → p ≤ x
      → x < p + load (p - 8) t.0.mem
      → u ≡ (record t.0 { mem = store_byte x b t.0.mem }, t.1)
      → Move t u

pub data Reach (t : Holding) : Holding → Type 0 where
  here : Reach t t
  next : {u w : Holding} → Reach t u → Move u w → Reach t w

store_byte_other : (x b y : ℕ) (mem : ℕ → ℕ) → y ≢ x → store_byte x b mem y ≡ mem y
unfolding store_byte
store_byte_other x b y mem ne = rw (==_ne y x ne) refl

byte_outside : (p x y n : ℕ) → p ≤ x → x < p + n → (y < p) ⊎ (p + n ≤ y) → y ≢ x
byte_outside p x y n a b (inl c) e = omega arith
byte_outside p x y n a b (inr c) e = omega arith

-- Every call and every write within a held block leaves a well-formed pool.
pub Move-IsSound : {t u : Holding} → Move t u → IsSound t → IsSound u
unfolding free
Move-IsSound (request n p s' e nz eu) (size, freed, v) =
    subst IsSound (sym eu) (Served-IsSound nz (Served-at v n p s' e))
Move-IsSound (refuse n s' e eu) (size, freed, v) =
    subst IsSound (sym eu) (size, freed, Served-null v (Served-at v n 0 s' e))
Move-IsSound (give_back before p after e eu) (size, freed, v) =
    subst IsSound (sym eu) (size, p ∷ freed, (free_lem v before p after e).0)
Move-IsSound (request_zeroed a b p s' e g) (size, freed, v) =
    Gives-IsSound v p s' (zeroed-at v a b p s' e) g
Move-IsSound (request_copy before old after n p s' l e g) (size, freed, v) =
    Gives-IsSound v p s' (copy-at v before old after n p s' l e) g
Move-IsSound {t} (wild_free p out eu) (size, freed, v) =
    subst IsSound (sym eu) (elim (Bool-cases (p == 0)) [
      | inl y ↦ (size, freed, subst (IsPool size t.1 freed) (rw (free, y) refl) v)
      | inr y ↦ (
        size,
        freed,
        rw (free_ignored t.0 p (ground (arith, ==_iff p 0)) out v.top) (errno-IsPool v 22),
      )
    ])
Move-IsSound {t} (write before p after x b e x1 x2 eu) (size, freed, v) =
    let l = IsLive-at v before p after e in
    let hx : x < p + size p = omega (arith, v.headers p l.0) in
    let outside = λ (y : ℕ) (o : (y < p) ⊎ (p + size p ≤ y)). byte_outside p x y (size p) x1 hx o in
    subst IsSound (sym eu) (
      size,
      freed,
      within-IsPool v p (store_byte x b t.0.mem) l
          (λ y o. store_byte_other x b y t.0.mem (outside y o)),
    )

abbrev pub fresh : ℕ → (ℕ → ℕ) → Pool
fresh base mem = record {
  heap_base = base;
  malloc_cur = 0;
  free_head = 0;
  malloc_used = 0;
  malloc_high = 0;
  errno = 0;
  mem = mem;
}

pub fresh-IsPool :
    (base : ℕ) (mem : ℕ → ℕ)
    → 0 < base
    → base + malloc_pool_bytes ≤ usize_max
    → IsPool (λ _. 0) [] [] (fresh base mem)
fresh-IsPool base mem b t = record {
  base = b;
  top = t;
  cursor_bounds = omega arith;
  layout = record {
    block = λ p h. absurd (omega arith);
    apart = λ p q h k lt. absurd (omega arith);
  };
  headers = λ p h. absurd (omega arith);
  live_blocks = tt;
  freed_blocks = tt;
  live_once = tt;
  freed_once = tt;
  chain = refl;
  used = refl;
  high = omega arith;
  held = omega arith;
}

Reach-IsSound : {t u : Holding} → IsSound t → Reach t u → IsSound u
Reach-IsSound h here = h
Reach-IsSound h (next r m) = Move-IsSound m (Reach-IsSound h r)

-- From a fresh pool, after any sequence of calls of `malloc`, of `calloc`, of `realloc` of a held block,
-- of `free` of a held block, of `free` of a pointer that is outside of the pool or has no magic word 16
-- bytes before it, and of writes of a byte within a held block: of any two held blocks, neither overlaps
-- the other, headers included, and the first lies in the pool and is aligned to 16 bytes.
pub reached_apart :
    (base : ℕ) (mem : ℕ → ℕ) (s : Pool) (before : List ℕ) (p : ℕ) (between : List ℕ) (q : ℕ)
    (after : List ℕ)
    → 0 < base
    → base + malloc_pool_bytes ≤ usize_max
    → Reach (fresh base mem, []) (s, before ++ (p ∷ (between ++ q ∷ after)))
    → ((p + load (p - 8) s.mem + 16 ≤ q) ⊎ (q + load (q - 8) s.mem + 16 ≤ p))
      × (s.heap_base + 16 ≤ p)
      × (p + load (p - 8) s.mem ≤ pool_top s)
      × (p % 16 ≡ 0)
reached_apart base mem s before p between q after b t r =
    let (size, freed, v) = Reach-IsSound ((λ _. 0), [], fresh-IsPool base mem b t) r in
    let lv = All-right (IsLive size s) before (p ∷ (between ++ q ∷ after)) v.live_blocks in
    let lq = All-at (IsLive size s) between q after lv.1 in
    let ne : p ≢ q =
      All-at (λ x. p ≢ x) between q after
        (Distinct-right before (p ∷ (between ++ q ∷ after)) v.live_once).0 in
    let k = v.layout.block p lv.0.0 in
    (
      elim (far v.layout p q lv.0.0 lq.0 ne) [
        | inl h ↦ inl (omega (arith, v.headers p lv.0.0))
        | inr h ↦ inr (omega (arith, v.headers q lq.0))
      ],
      k.1,
      omega (arith, k, v.headers p lv.0.0, v.cursor_bounds),
      k.3,
    )
