-- ===== src/Malloc/Release.antt =====
-- rust/crates/house-libc/src/alloc.rs, `free`: a live block goes to the head of the free list, and any
-- other pointer is ignored.
use house.Prelude.{
  ℕ, ◌+◌, ◌-◌, ◌^◌, ◌≤◌, ◌<◌, ◌≡◌, refl, sym, ap, subst, ◌∙◌, ◌≢◌, ◌⊎◌, inl, inr, some, List, [],
  ◌∷◌, ◌++◌, arith, le→leb, ==_ne,
}
use house.Bytes.{load, store, load-store, load-store_apart}
use house.Malloc.{malloc_magic, Pool, usize_max, pool_top, header_for, release, free}
use house.Malloc.Blocks.{
  All, Distinct, total, room, Chain, IsLive, IsFreed, IsPool, All-without, All-at, Distinct-without,
  Distinct-absent, total-without, room-without, Chain-same, load-store_block,
}
use house.Malloc.Alloc.{load-store_head, load-store_header, load-store_magic}

-- A pointer outside the pool, or one with no magic before it, changes `errno` and nothing else.
pub free_ignored :
    (s : Pool) (p : ℕ)
    → p ≢ 0
    → (p < s.heap_base + 16) ⊎ (pool_top s ≤ p) ⊎ (load (p - 16) s.mem ≢ malloc_magic)
    → pool_top s ≤ usize_max
    → free p s ≡ record s { errno = 22 }
unfolding free header_for
free_ignored s p ne out top = ground arith

module _ {size : ℕ → ℕ} {live freed : List ℕ} {s : Pool} (v : IsPool size live freed s) where
  pub free_head-lt : s.free_head < 2 ^ 64
  free_head-lt = head_lt freed v.chain v.freed_blocks
    where
      head_lt :
          (xs : List ℕ)
          → Chain s.mem s.free_head xs
          → All (IsFreed size s) xs
          → s.free_head < 2 ^ 64
      head_lt [] c h = omega (arith, c)
      head_lt (x ∷ xs) c h = omega (arith, c.0, v.layout.block x h.0.0, v.cursor_bounds, v.top)

  module _ (before : List ℕ) (p : ℕ) (after : List ℕ) (e : live ≡ before ++ p ∷ after) where
    pub IsLive-at : IsLive size s p
    IsLive-at = All-at (IsLive size s) before p after (subst (All (IsLive size s)) e v.live_blocks)

    not_freed : (xs : List ℕ) → All (IsFreed size s) xs → All (λ x. p ≢ x) xs
    not_freed [] h = tt
    not_freed (x ∷ xs) h = (
      (λ k.
          let z : load (x - 16) s.mem ≡ malloc_magic =
            subst (λ y. load (y - 16) s.mem ≡ malloc_magic) k IsLive-at.1 in
          cc (z, h.0.1)),
      not_freed xs h.1,
    )

    pub header_at : header_for p s ≡ some (size p)
    unfolding header_for
    header_at =
        let b = v.layout.block p IsLive-at.0 in
        ground (arith, b, v.headers p IsLive-at.0, IsLive-at.1, v.cursor_bounds, v.top)

    free_at : free p s ≡ release p (size p) s
    unfolding free
    free_at =
        let b = v.layout.block p IsLive-at.0 in
        rw (==_ne p 0 (omega arith), header_at, le→leb 8 (size p) b.0) refl

    mem1 : ℕ → ℕ
    mem1 = store (p - 16) 0 s.mem

    mem2 : ℕ → ℕ
    mem2 = store p s.free_head mem1

    -- The words of the other blocks, and the sizes of all, stay.
    kept16 : (x : ℕ) → 0 < size x → p ≢ x → load (x - 16) mem2 ≡ load (x - 16) s.mem
    unfolding mem1 mem2
    kept16 x h ne =
        load-store_head v x p (x - 16) s.free_head mem1 h IsLive-at.0
          (omega (arith, v.layout.block x h)) (omega arith)
        ∙ load-store_header v x p (x - 16) 0 s.mem h IsLive-at.0 (λ k. ne (sym k)) (omega arith)
            (omega arith)

    kept8 : (x : ℕ) → 0 < size x → load (x - 8) mem2 ≡ load (x - 8) s.mem
    unfolding mem1 mem2
    kept8 x h =
        load-store_head v x p (x - 8) s.free_head mem1 h IsLive-at.0
          (omega (arith, v.layout.block x h)) (omega arith)
        ∙ load-store_magic v x p (x - 8) 0 s.mem h IsLive-at.0 (omega arith) (omega arith)

    kept0 : (x : ℕ) → 0 < size x → p ≢ x → load x mem2 ≡ load x s.mem
    unfolding mem1 mem2
    kept0 x h ne =
        load-store_block v.layout x p p x s.free_head mem1 h IsLive-at.0 (λ k. ne (sym k))
          (omega arith) (omega arith) (omega arith) (omega arith)
        ∙ load-store_magic v x p x 0 s.mem h IsLive-at.0 (omega arith) (omega arith)

    released : IsPool size (before ++ after) (p ∷ freed) (release p (size p) s)
    unfolding release mem1 mem2
    released =
        let lv = subst (All (IsLive size s)) e v.live_blocks in
        let di = subst Distinct e v.live_once in
        let ab = Distinct-absent before p after di in
        let nf = not_freed freed v.freed_blocks in
        let b = v.layout.block p IsLive-at.0 in
        record {
          base = v.base;
          top = v.top;
          cursor_bounds = v.cursor_bounds;
          layout = v.layout;
          headers = λ x h. kept8 x h ∙ v.headers x h;
          live_blocks =
              still_live (before ++ after) (All-without (IsLive size s) before p after lv) ab;
          freed_blocks = (
            (
              IsLive-at.0,
              load-store_apart p (p - 16) s.free_head mem1 (inl (omega (arith, b)))
                  ∙ load-store (p - 16) 0 s.mem (omega arith),
            ),
            still_freed freed v.freed_blocks nf,
          );
          live_once = Distinct-without before p after di;
          freed_once = (nf, v.freed_once);
          chain = (
            refl,
            rw (load-store p s.free_head mem1 free_head-lt) (
                Chain-same s.mem mem2 s.free_head freed (same_links freed v.freed_blocks nf)
                  v.chain),
          );
          used = omega (arith, v.used, ap (total size) e, total-without size before p after);
          high = omega (arith, v.high);
          held = omega (arith, v.held, ap (room size) e, room-without size before p after);
        }
      where
        still_live :
            (xs : List ℕ)
            → All (IsLive size s) xs
            → All (λ x. p ≢ x) xs
            → All (λ x. (0 < size x) × (load (x - 16) mem2 ≡ malloc_magic)) xs
        still_live [] a n = tt
        still_live (x ∷ xs) a n = ((a.0.0, kept16 x a.0.0 n.0 ∙ a.0.1), still_live xs a.1 n.1)

        still_freed :
            (xs : List ℕ)
            → All (IsFreed size s) xs
            → All (λ x. p ≢ x) xs
            → All (λ x. (0 < size x) × (load (x - 16) mem2 ≡ 0)) xs
        still_freed [] a n = tt
        still_freed (x ∷ xs) a n = ((a.0.0, kept16 x a.0.0 n.0 ∙ a.0.1), still_freed xs a.1 n.1)

        same_links :
            (xs : List ℕ)
            → All (IsFreed size s) xs
            → All (λ x. p ≢ x) xs
            → All (λ x. load x mem2 ≡ load x s.mem) xs
        same_links [] a n = tt
        same_links (x ∷ xs) a n = (kept0 x a.0.0 n.0, same_links xs a.1 n.1)

    -- `free` of a live block moves it to the free list, and a second `free` of it is ignored.
    pub free_lem :
        IsPool size (before ++ after) (p ∷ freed) (free p s)
        × (free p (free p s) ≡ record (free p s) { errno = 22 })
        × ((free p s).malloc_used + size p ≡ s.malloc_used)
    unfolding release
    free_lem =
        let w : IsPool size (before ++ after) (p ∷ freed) (free p s) = rw free_at released in
        let b = v.layout.block p IsLive-at.0 in
        (
          w,
          free_ignored (free p s) p (λ k. omega (arith, b))
              (inr (inr (λ m. let z = w.freed_blocks.0.1 in cc (z, m)))) w.top,
          rw free_at (omega (arith, v.used, ap (total size) e, total-without size before p after)),
        )
