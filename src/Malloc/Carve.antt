-- ===== src/Malloc/Carve.antt =====
-- rust/crates/house-libc/src/alloc.rs, `pool_alloc_locked`: a new block behind the blocks that are
-- there.
use house.Prelude.{
  ℕ, ◌+◌, ◌-◌, ◌%◌, ◌≤◌, ◌<◌, min, ◌≡◌, refl, sym, ◌∙◌, ◌≢◌, ◌⊎◌, inl, inr, List, ◌∷◌, arith, ◌==◌,
  if◌then◌else◌, ==_iff, ==_refl, ==_ne, Bool-cases,
}
use house.Bytes.{load, store, load-store, load-store_apart}
use house.Malloc.{malloc_magic, Pool, usize_max, pool_top, count_live, cursor}
use house.Malloc.Take.{magic_small}
use house.Malloc.Blocks.{
  All, total, IsLayout, IsPool, All-map, total-same, room-same, total-le-room, Chain-same,
}

-- the sizes with a block of `n` bytes more
abbrev pub grow : (ℕ → ℕ) → ℕ → ℕ → ℕ → ℕ
grow size p n q = if q == p then n else size q

grow_cases :
    (size : ℕ → ℕ) (p n q : ℕ)
    → ((q ≡ p) × (grow size p n q ≡ n)) ⊎ ((q ≢ p) × (grow size p n q ≡ size q))
grow_cases size p n q = elim (Bool-cases (q == p)) [
  | inl y ↦ inl ((==_iff q p).0 y, rw y refl)
  | inr y ↦ inr (ground (arith, ==_iff q p), rw y refl)
]

module _ {size : ℕ → ℕ} {live freed : List ℕ} {s : Pool} (v : IsPool size live freed s) (p n : ℕ)
    (above : cursor s + 16 ≤ p) (al : p % 16 ≡ 0) (big : 8 ≤ n) (below : p + n ≤ pool_top s) where
  old_block :
      (x : ℕ)
      → 0 < size x
      → (x + size x ≤ cursor s) × (8 ≤ size x) × (x ≢ p) × (grow size p n x ≡ size x)
  old_block x h =
      let b = v.layout.block x h in
      let ne : x ≢ p = λ e. omega arith in (b.2, b.0, ne, rw (==_ne x p ne) refl)

  grown-IsLayout : IsLayout (grow size p n) s.heap_base (p + n)
  grown-IsLayout = record {
    block = λ q h. elim (grow_cases size p n q) [
      | inl c ↦ omega (arith, v.cursor_bounds)
      | inr c ↦ let hq : 0 < size q = omega arith in omega (arith, v.layout.block q hq)
    ];
    apart = λ q r hq hr lt. elim (grow_cases size p n q) [
      | inl c ↦ elim (grow_cases size p n r) [
        | inl d ↦ absurd (omega arith)
        | inr d ↦ let h : 0 < size r = omega arith in absurd (omega (arith, old_block r h))
      ]
      | inr c ↦
          let h : 0 < size q = omega arith in
          elim (grow_cases size p n r) [
            | inl d ↦ omega (arith, old_block q h)
            | inr d ↦ let k : 0 < size r = omega arith in omega (arith, v.layout.apart q r h k lt)
          ]
    ];
  }

  abbrev mem1 : ℕ → ℕ
  mem1 = store (p - 16) malloc_magic s.mem

  abbrev mem2 : ℕ → ℕ
  mem2 = store (p - 8) n mem1

  kept : (x b : ℕ) → 0 < size x → b ≤ x → load b mem2 ≡ load b s.mem
  kept x b h le =
      load-store_apart (p - 8) b n mem1 (inl (omega (arith, old_block x h)))
      ∙ load-store_apart (p - 16) b malloc_magic s.mem (inl (omega (arith, old_block x h)))

  same_sizes : (xs : List ℕ) → All (λ x. 0 < size x) xs → All (λ x. grow size p n x ≡ size x) xs
  same_sizes xs h = All-map (λ x k. (old_block x k).3) xs h

  headers_kept : (q : ℕ) → 0 < grow size p n q → load (q - 8) mem2 ≡ grow size p n q
  headers_kept q h = elim (grow_cases size p n q) [
    | inl c ↦ rw (c.1, c.0) (load-store (p - 8) n mem1 (omega (arith, v.top)))
    | inr c ↦
        let k : 0 < size q = omega arith in kept q (q - 8) k (omega arith) ∙ v.headers q k ∙ sym c.1
  ]

  -- The block at `p` lies behind all others, and the cursor moves behind it.
  pub carved-IsPool : IsPool (grow size p n) (p ∷ live) freed (
      count_live n (record s {
        mem = store (p - 8) n (store (p - 16) malloc_magic s.mem);
        malloc_cur = p + n;
      }))
  carved-IsPool =
      let lv : All (λ x. 0 < size x) live = All-map (λ x h. h.0) live v.live_blocks in
      let fr : All (λ x. 0 < size x) freed = All-map (λ x h. h.0) freed v.freed_blocks in
      let grown = λ (x : ℕ) (h : 0 < size x).
        let e : grow size p n x ≡ size x = (old_block x h).3 in
        let q : 0 < grow size p n x = omega arith in q in
      let new : grow size p n p ≡ n = rw (==_refl p) refl in
      let cur : cursor (record s { mem = mem2; malloc_cur = p + n }) ≡ p + n =
        rw (==_ne (p + n) 0 (omega arith)) refl in
      let tot = total-same size (grow size p n) live (same_sizes live lv) in
      let rl = room-same size (grow size p n) live (same_sizes live lv) in
      let rf = room-same size (grow size p n) freed (same_sizes freed fr) in
      let sum : min (s.malloc_used + n) usize_max ≡ n + total size live =
        omega (arith, v.used, v.held, total-le-room size live, v.cursor_bounds, v.top) in
      record {
        base = v.base;
        top = v.top;
        cursor_bounds = rw cur (omega (arith, v.cursor_bounds));
        layout = rw cur grown-IsLayout;
        headers = headers_kept;
        live_blocks = (
          (
            omega arith,
            load-store_apart (p - 8) (p - 16) n mem1 (inl (omega arith))
                ∙ load-store (p - 16) malloc_magic s.mem magic_small,
          ),
          All-map (λ x h. (grown x h.0, kept x (x - 16) h.0 (omega arith) ∙ h.1)) live
              v.live_blocks,
        );
        freed_blocks =
            All-map (λ x h. (grown x h.0, kept x (x - 16) h.0 (omega arith) ∙ h.1)) freed
              v.freed_blocks;
        live_once = (All-map (λ x h e. (old_block x h).2 (sym e)) live lv, v.live_once);
        freed_once = v.freed_once;
        chain =
            Chain-same s.mem mem2 s.free_head freed
              (All-map (λ x h. kept x x h (omega arith)) freed fr) v.chain;
        used = omega (arith, sum, tot, new);
        high = omega arith;
        held = rw cur (omega (arith, v.held, v.cursor_bounds, rl, rf, new));
      }
