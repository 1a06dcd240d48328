-- ===== src/Malloc/Serve.antt =====
-- rust/crates/house-libc/src/alloc.rs, `pool_alloc_locked` and `malloc`: a request is served from the
-- free list, from behind the blocks, or not at all.
use house.Prelude.{
  ℕ, ◌+◌, ◌-◌, ◌*◌, ◌%◌, ◌≤◌, ◌<◌, max, ◌≡◌, refl, ◌⊎◌, inl, inr, Bool, true, false, none, some,
  List, [], ◌∷◌, ◌++◌, arith, ltb, if◌then◌else◌, ltb→lt, ==_ne, length,
}
use house.Bytes.{store}
use house.Malloc.{
  malloc_magic, Pool, usize_max, pool_top, out_of_memory, count_live, follow, take_block, first_fit,
  cursor, down_to, place, carve, walk_fuel, after_walk, pool_alloc, malloc,
}
use house.Malloc.Blocks.{All, room, IsPool, All-map}
use house.Malloc.Fit.{link_after, Walk, missed, hit, first_fit_lem}
use house.Malloc.Take.{take_block-IsPool}
use house.Malloc.Alloc.{IsFreed-at}
use house.Malloc.Keep.{Kept, take_block-Kept, store-Kept}
use house.Malloc.Carve.{grow, carved-IsPool}

-- What `malloc` answers to a request of `n` bytes, 8 at least, and what it leaves.
pub data Served (size : ℕ → ℕ) (live freed : List ℕ) (s : Pool) (n p : ℕ) (s' : Pool) : Type 0 where
  refused :
      p ≡ 0
      → s' ≡ record s { errno = 12 }
      → All (λ x. size x < n) freed
      → pool_top s < place 16 s + n
      → Served size live freed s n p s'
  reused :
      (before after : List ℕ)
      → freed ≡ before ++ p ∷ after
      → All (λ x. size x < n) before
      → n ≤ size p
      → p % 16 ≡ 0
      → IsPool size (p ∷ live) (before ++ after) s'
      → Kept size s s'
      → Served size live freed s n p s'
  carved :
      All (λ x. size x < n) freed
      → cursor s + 16 ≤ p
      → p % 16 ≡ 0
      → cursor s' ≡ p + n
      → IsPool (grow size p n) (p ∷ live) freed s'
      → Kept size s s'
      → Served size live freed s n p s'

place_lem :
    (s : Pool)
    → (cursor s + 16 ≤ place 16 s)
      × (place 16 s % 16 ≡ 0)
      × (down_to 16 (cursor s + 15) + 16 ≤ place 16 s)
place_lem s = place_at (cursor s)
  where
    place_at :
        (c : ℕ)
        → let p = down_to 16 (down_to 16 (c + 15) + 16 + 15) in
          (c + 16 ≤ p) × (p % 16 ≡ 0) × (down_to 16 (c + 15) + 16 ≤ p)
    place_at c = omega arith

five_tests :
    {A : Type 0} (a b c d e : Bool) (x y : A)
    → ((if a then x else if b then x else if c then x else if d then x else if e then x else y) ≡ x)
        × (((a ≡ true) ⊎ (b ≡ true)) ⊎ ((c ≡ true) ⊎ (d ≡ true)) ⊎ (e ≡ true))
      ⊎ ((if a then x else if b then x else if c then x else if d then x else if e then x else y)
          ≡ y)
        × (e ≡ false)
five_tests true b c d e x y = inl (refl, inl (inl refl))
five_tests false true c d e x y = inl (refl, inl (inr refl))
five_tests false false true d e x y = inl (refl, inr (inl (inl refl)))
five_tests false false false true e x y = inl (refl, inr (inl (inr refl)))
five_tests false false false false true x y = inl (refl, inr (inr refl))
five_tests false false false false false x y = inr (refl, refl)

pub length-room :
    (size : ℕ → ℕ) (xs : List ℕ) → All (λ x. 8 ≤ size x) xs → 24 * length xs ≤ room size xs
length-room size [] h = omega arith
length-room size (x ∷ xs) h = omega (arith, h.0, length-room size xs h.1)

module _ {size : ℕ → ℕ} {live freed : List ℕ} {s : Pool} (v : IsPool size live freed s) (n : ℕ)
    (big : 8 ≤ n) where
  abbrev taken : ℕ × Pool
  taken = (
    place 16 s,
    count_live n (record s {
      mem = store (place 16 s - 8) n (store (place 16 s - 16) malloc_magic s.mem);
      malloc_cur = place 16 s + n;
    }),
  )

  carve_cases :
      (carve n 16 s ≡ out_of_memory s) × (pool_top s < place 16 s + n)
      ⊎ (carve n 16 s ≡ taken) × (place 16 s + n ≤ pool_top s)
  unfolding carve
  carve_cases =
      elim (five_tests (ltb usize_max (cursor s + 15))
        (ltb usize_max (down_to 16 (cursor s + 15) + 16))
        (ltb usize_max (down_to 16 (cursor s + 15) + 16 + 15)) (ltb usize_max (place 16 s + n))
        (ltb (pool_top s) (place 16 s + n)) (out_of_memory s) taken) [
          | inl (e, t) ↦ inl (e, over t)
          | inr (e, t) ↦ inr (e, ground (arith, t))
        ]
    where
      over :
          (((ltb usize_max (cursor s + 15) ≡ true)
              ⊎ (ltb usize_max (down_to 16 (cursor s + 15) + 16) ≡ true))
            ⊎ ((ltb usize_max (down_to 16 (cursor s + 15) + 16 + 15) ≡ true)
                ⊎ (ltb usize_max (place 16 s + n) ≡ true))
            ⊎ (ltb (pool_top s) (place 16 s + n) ≡ true))
          → pool_top s < place 16 s + n
      over (inl (inl h)) = omega (arith, ltb→lt _ _ h, v.top, place_lem s)
      over (inl (inr h)) = omega (arith, ltb→lt _ _ h, v.top, place_lem s)
      over (inr (inl (inl h))) = omega (arith, ltb→lt _ _ h, v.top, place_lem s)
      over (inr (inl (inr h))) = omega (arith, ltb→lt _ _ h, v.top, place_lem s)
      over (inr (inr h)) = ltb→lt _ _ h

  carve_lem :
      All (λ x. size x < n) freed → Served size live freed s n (carve n 16 s).0 (carve n 16 s).1
  carve_lem small = elim carve_cases [
    | inl (e, over) ↦ rw e (refused refl refl small over)
    | inr (e, fits) ↦
        let pl = place_lem s in
        let cur : cursor taken.1 ≡ place 16 s + n =
          rw (==_ne (place 16 s + n) 0 (omega arith)) refl in
        rw e (
          carved small pl.0 pl.1 cur (carved-IsPool v (place 16 s) n pl.0 pl.1 big fits)
            (store-Kept v (place 16 s) n malloc_magic pl.0))
  ]

  pub walk_lem : Walk s size n none freed (first_fit walk_fuel none n s)
  unfolding follow
  walk_lem =
      first_fit_lem s size n walk_fuel none freed
        (omega (
          arith,
          v.held,
          v.cursor_bounds,
          length-room size freed (All-map (λ x h. (v.layout.block x h.0).0) freed v.freed_blocks),
        ))
        v.chain
        (All-map (λ x h. ((λ e. let b = v.layout.block x h.0 in omega (arith, b)), v.headers x h.0))
          freed v.freed_blocks)

  serve_lem :
      (p : ℕ) × (s' : Pool) × (after_walk n 16 (first_fit walk_fuel none n s) ≡ some (p, s'))
      × Served size live freed s n p s'
  unfolding after_walk
  serve_lem = elim walk_lem [
    | missed e small ↦ ((carve n 16 s).0, (carve n 16 s).1, rw e refl, carve_lem small)
    | hit before cur after e small le r ↦
        let b = v.layout.block cur (IsFreed-at v before cur after e).0 in
        (
          cur,
          take_block (link_after none before) cur s,
          rw (r, ==_ne cur 0 (omega arith)) refl,
          reused before after e small le b.3 (take_block-IsPool before cur after e v)
              (take_block-Kept v before cur after e),
        )
  ]

-- Every request to a well-formed pool returns, and in one of the three ways.
pub malloc_lem :
    {size : ℕ → ℕ} {live freed : List ℕ} {s : Pool} (v : IsPool size live freed s) (n : ℕ)
    → (p : ℕ) × (s' : Pool) × (malloc n s ≡ some (p, s')) × Served size live freed s (max n 8) p s'
unfolding malloc pool_alloc
malloc_lem v n = serve_lem v (max n 8) (omega arith)
