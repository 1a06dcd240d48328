-- ===== src/Malloc/Copies.antt =====
-- rust/crates/house-libc/src/alloc.rs, `calloc` and `realloc`: what the new block holds.
use house.Prelude.{
  ℕ, ◌+◌, ◌-◌, ◌*◌, ◌≤◌, ◌<◌, min, max, ◌≡◌, refl, ap, ◌∙◌, ◌≢◌, ◌⊎◌, inl, inr, true, false, some,
  List, ◌∷◌, ◌++◌, arith, ltb, ◌==◌, if◌then◌else◌, ltb→lt, lt→ltb, le→leb, ==_refl, ==_ne,
  Bool-cases,
}
use house.Bytes.{load}
use house.Malloc.{
  malloc_pool_bytes, Pool, usize_max, pool_top, place, malloc, fill_zero, copy_bytes, on_block,
  calloc, realloc,
}
use house.Malloc.Blocks.{All, IsLive, IsPool, All-map, far, IsSound}
use house.Malloc.Alloc.{IsFreed-at}
use house.Malloc.Keep.{Kept, live-ne-freed}
use house.Malloc.Write.{within-IsPool}
use house.Malloc.Serve.{Served, refused, reused, carved, malloc_lem}
use house.Malloc.Release.{IsLive-at, header_at}
use house.Malloc.Carve.{grow}

-- A block that the pool gave out, and the other blocks as they were.
pub record Given (size : ℕ → ℕ) (live : List ℕ) (s : Pool) (n p : ℕ) (s' : Pool) : Type 1 where
  pub sizes : ℕ → ℕ
  pub list : List ℕ
  pub pool : IsPool sizes (p ∷ live) list s'
  pub enough : n ≤ sizes p
  pub clear : (q : ℕ) → IsLive size s q → (q + size q + 16 ≤ p) ⊎ (p + sizes p + 16 ≤ q)
  pub kept : Kept size s s'

-- No free block has `n` bytes, and there is no room behind the blocks.
abbrev pub NoRoom : (ℕ → ℕ) → List ℕ → Pool → ℕ → Type 0
NoRoom size freed s n = All (λ x. size x < n) freed × (pool_top s < place 16 s + n)

huge-NoRoom :
    {size : ℕ → ℕ} {live freed : List ℕ} {s : Pool} (v : IsPool size live freed s) (n : ℕ)
    → malloc_pool_bytes < n
    → NoRoom size freed s (max n 8)
huge-NoRoom {size} {freed = freed} v n h = (
  All-map (λ x k. omega (arith, v.layout.block x k.0, v.cursor_bounds)) freed v.freed_blocks,
  omega (arith, v.cursor_bounds),
)

given :
    {size : ℕ → ℕ} {live freed : List ℕ} {s s' : Pool} {n p : ℕ}
    → IsPool size live freed s
    → Served size live freed s n p s'
    → ((p ≡ 0) × (s' ≡ record s { errno = 12 }) × NoRoom size freed s n) ⊎ Given size live s n p s'
given v (refused z e small over) = inl (z, e, (small, over))
given {size} {live} {freed} {s} {s'} {n} {p} v (reused before after e _ le _ w k) = inr (record {
  sizes = size;
  list = before ++ after;
  pool = w;
  enough = le;
  clear = λ q l.
      far v.layout q p l.0 w.live_blocks.0.0
        (live-ne-freed v q p l (IsFreed-at v before p after e));
  kept = k;
})
given {size} {live} {freed} {s} {s'} {n} {p} v (carved _ above _ _ w k) =
    let new : grow size p n p ≡ n = rw (==_refl p) refl in
    inr (record {
      sizes = grow size p n;
      list = freed;
      pool = w;
      enough = omega arith;
      clear = λ q l. inl (omega (arith, v.layout.block q l.0));
      kept = k;
    })

module _ {size : ℕ → ℕ} {live freed : List ℕ} {s : Pool} (v : IsPool size live freed s) where
  -- The new block filled with `n` bytes of a choice of the code.
  filled :
      {n m p : ℕ} {s1 : Pool} (g : Given size live s m p s1) (mem' : ℕ → ℕ)
      → n ≤ m
      → ((x : ℕ) → (x < p) ⊎ (p + n ≤ x) → mem' x ≡ s1.mem x)
      → IsPool g.sizes (p ∷ live) g.list (record s1 { mem = mem' })
        × Kept size s (record s1 { mem = mem' })
  filled {n} {m} {p} {s1} g mem' le out = (
    within-IsPool g.pool p mem' g.pool.live_blocks.0 (λ x h. out x (wider x h)),
    λ q x l x1 x2. out x (elsewhere q x l x1 x2) ∙ g.kept q x l x1 x2,
  )
    where
      wider : (x : ℕ) → (x < p) ⊎ (p + g.sizes p ≤ x) → (x < p) ⊎ (p + n ≤ x)
      wider x (inl h) = inl h
      wider x (inr h) = inr (omega (arith, g.enough))

      elsewhere : (q x : ℕ) → IsLive size s q → q ≤ x → x < q + size q → (x < p) ⊎ (p + n ≤ x)
      elsewhere q x l x1 x2 = elim (g.clear q l) [
        | inl h ↦ inl (omega arith)
        | inr h ↦ inr (omega (arith, g.enough))
      ]

fill_zero_out : (p n x : ℕ) (mem : ℕ → ℕ) → (x < p) ⊎ (p + n ≤ x) → fill_zero p n mem x ≡ mem x
fill_zero_out p n x mem h = ground arith

fill_zero_in : (p n x : ℕ) (mem : ℕ → ℕ) → p ≤ x → x < p + n → fill_zero p n mem x ≡ 0
fill_zero_in p n x mem a b = ground arith

copy_bytes_out :
    (from to n x : ℕ) (mem : ℕ → ℕ) → (x < to) ⊎ (to + n ≤ x) → copy_bytes from to n mem x ≡ mem x
copy_bytes_out from to n x mem h = ground arith

copy_bytes_in :
    (from to n k : ℕ) (mem : ℕ → ℕ) → k < n → copy_bytes from to n mem (to + k) ≡ mem (from + k)
copy_bytes_in from to n k mem h =
    let e : to + k - to ≡ k = omega arith in
    rw (le→leb to (to + k) (omega arith), lt→ltb (to + k) (to + n) (omega arith), e) refl

block_null : (f : ℕ → (ℕ → ℕ) → ℕ → ℕ) (p : ℕ) (s : Pool) → p ≡ 0 → on_block f (p, s) ≡ (p, s)
block_null f p s z =
    ap (λ b. (p, if b then s else record s { mem = f p s.mem }))
      (let e : (p == 0) ≡ true = ground (arith, z) in e)

block_ok :
    (f : ℕ → (ℕ → ℕ) → ℕ → ℕ) (p : ℕ) (s : Pool)
    → p ≢ 0
    → on_block f (p, s) ≡ (p, record s { mem = f p s.mem })
block_ok f p s nz = ap (λ b. (p, if b then s else record s { mem = f p s.mem })) (==_ne p 0 nz)

Given-ne : {size : ℕ → ℕ} {live : List ℕ} {s s' : Pool} {n p : ℕ} → Given size live s n p s' → p ≢ 0
Given-ne g z = let b = g.pool.layout.block _ g.pool.live_blocks.0.0 in omega (arith, b, z)

-- `calloc` gives null with errno 12, or a block of zero bytes; the other blocks keep their bytes.
pub calloc_lem :
    {size : ℕ → ℕ} {live freed : List ℕ} {s : Pool} (v : IsPool size live freed s) (a b : ℕ)
    → (p : ℕ) × (s' : Pool) × (calloc a b s ≡ some (p, s'))
      × (((p ≡ 0) × (s' ≡ record s { errno = 12 }))
          ⊎ (IsSound (s', p ∷ live)
              × Kept size s s'
              × ((x : ℕ) → p ≤ x → x < p + a * b → s'.mem x ≡ 0)))
unfolding calloc
calloc_lem {size} {live} {freed} {s} v a b = elim (Bool-cases (ltb usize_max (a * b))) [
  | inl y ↦ (0, record s { errno = 12 }, rw y refl, inl (refl, refl))
  | inr y ↦
      let (p, s1, e, h) = malloc_lem v (a * b) in
      let f = λ (q : ℕ). fill_zero q (a * b) in
      elim (given v h) [
        | inl (z, es, _) ↦ (p, s1, rw (y, e) (ap some (block_null f p s1 z)), inl (z, es))
        | inr g ↦
            let (w, k) =
              filled v g (f p s1.mem) (omega arith) (λ x o. fill_zero_out p (a * b) x s1.mem o) in
            (
              p,
              record s1 { mem = f p s1.mem },
              rw (y, e) (ap some (block_ok f p s1 (Given-ne g))),
              inr ((g.sizes, g.list, w), k, λ x x1 x2. fill_zero_in p (a * b) x s1.mem x1 x2),
            )
      ]
]

-- `realloc` of a live block to `n` bytes gives null with errno 12, and only when no free block has `n`
-- bytes, 8 at least, and there is no room for them behind the blocks; or a new live block of at least `n` bytes that holds
-- the bytes of the old one that fit, while the old one and the other live blocks stay and keep their
-- bytes.
pub realloc_lem :
    {size : ℕ → ℕ} {live freed : List ℕ} {s : Pool} (v : IsPool size live freed s) (before : List ℕ)
    (old : ℕ) (after : List ℕ) (n : ℕ)
    → live ≡ before ++ old ∷ after
    → (p : ℕ) × (s' : Pool) × (realloc old n s ≡ some (p, s'))
      × (((p ≡ 0) × (s' ≡ record s { errno = 12 }) × NoRoom size freed s (max n 8))
          ⊎ (IsSound (s', p ∷ live)
              × (n ≤ load (p - 8) s'.mem)
              × Kept size s s'
              × ((k : ℕ) → k < min (size old) n → s'.mem (p + k) ≡ s.mem (old + k))))
unfolding realloc malloc
realloc_lem {size} {live} {freed} {s} v before old after n e =
    let l = IsLive-at v before old after e in
    let bo = v.layout.block old l.0 in
    let nz : (old == 0) ≡ false = ==_ne old 0 (omega (arith, bo)) in
    elim (Bool-cases (ltb malloc_pool_bytes n)) [
      | inl y ↦ (
        0,
        record s { errno = 12 },
        rw (nz, y) refl,
        inl (refl, refl, huge-NoRoom v n (ltb→lt malloc_pool_bytes n y)),
      )
      | inr y ↦
          let (p, s1, e1, h) = malloc_lem v n in
          let c = min (min (size old) n) (pool_top s - old) in
          let f = λ (q : ℕ). copy_bytes old q c in
          let hd = header_at v before old after e in
          elim (given v h) [
            | inl (z, es, full) ↦
                (p, s1, rw (nz, y, hd) (rw e1 (ap some (block_null f p s1 z))), inl (z, es, full))
            | inr g ↦
                let (w, k) =
                  filled v g (f p s1.mem) (omega arith)
                    (λ x o. copy_bytes_out old p c x s1.mem o) in
                (
                  p,
                  record s1 { mem = f p s1.mem },
                  rw (nz, y, hd) (rw e1 (ap some (block_ok f p s1 (Given-ne g)))),
                  inr (
                    (g.sizes, g.list, w),
                    omega (arith, g.enough, w.headers p w.live_blocks.0.0),
                    k,
                    λ i hi.
                        copy_bytes_in old p c i s1.mem (omega (arith, bo, v.cursor_bounds))
                        ∙ g.kept old (old + i) l (omega arith) (omega arith),
                  ),
                )
          ]
    ]
