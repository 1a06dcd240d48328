-- ===== src/Malloc/Alloc.antt =====
-- rust/crates/house-libc/src/alloc.rs, `pool_alloc_locked`: the state after a block is taken out of the
-- free list.
use house.Prelude.{
  ℕ, ◌+◌, ◌-◌, ◌≤◌, ◌<◌, min, ◌≡◌, sym, ap, subst, ◌∙◌, ◌≢◌, inl, inr, List, [], ◌∷◌, ◌++◌, arith,
  ◌==◌, ==_iff, Bool-cases,
}
use house.Bytes.{load, store, load-store_apart}
use house.Malloc.{malloc_magic, Pool, usize_max, count_live}
use house.Malloc.Blocks.{
  All, Distinct, total, room, Chain, IsLive, IsFreed, IsPool, All-without, All-at, Distinct-without,
  Distinct-absent, room-without, total-le-room, load-store_block,
}

module _ {size : ℕ → ℕ} {live freed : List ℕ} {s : Pool} (v : IsPool size live freed s) where
  -- A header is not touched by a write to the head of a payload, whichever block it is.
  pub load-store_head :
      (x q b w : ℕ) (mem : ℕ → ℕ)
      → 0 < size x
      → 0 < size q
      → b + 8 ≤ x
      → x ≤ b + 16
      → load b (store q w mem) ≡ load b mem
  load-store_head x q b w mem hx hq b1 b2 = elim (Bool-cases (x == q)) [
    | inl y ↦ load-store_apart q b w mem (inl (let e : x ≡ q = (==_iff x q).0 y in omega arith))
    | inr y ↦
        load-store_block v.layout x q q b w mem hx hq (ground arith) (omega arith) (omega arith) b2
          (omega arith)
  ]

  -- A header written in one block leaves the words of the other blocks.
  pub load-store_header :
      (x q b w : ℕ) (mem : ℕ → ℕ)
      → 0 < size x
      → 0 < size q
      → x ≢ q
      → x ≤ b + 16
      → b ≤ x
      → load b (store (q - 16) w mem) ≡ load b mem
  load-store_header x q b w mem hx hq ne b1 b2 =
      load-store_block v.layout x q (q - 16) b w mem hx hq ne (omega arith) (omega arith) b1 b2

  -- A magic word is not in the size or in the payload of any block.
  pub load-store_magic :
      (x q b w : ℕ) (mem : ℕ → ℕ)
      → 0 < size x
      → 0 < size q
      → x ≤ b + 8
      → b ≤ x
      → load b (store (q - 16) w mem) ≡ load b mem
  load-store_magic x q b w mem hx hq b1 b2 = elim (Bool-cases (x == q)) [
    | inl y ↦
        load-store_apart (q - 16) b w mem
          (inr (let e : x ≡ q = (==_iff x q).0 y in omega (arith, v.layout.block q hq)))
    | inr y ↦ load-store_header x q b w mem hx hq (ground arith) (omega arith) b2
  ]

  module _ (before : List ℕ) (cur : ℕ) (after : List ℕ) (e : freed ≡ before ++ cur ∷ after) where
    pub IsFreed-at : IsFreed size s cur
    IsFreed-at =
        All-at (IsFreed size s) before cur after (subst (All (IsFreed size s)) e v.freed_blocks)

    not_live : (xs : List ℕ) → All (IsLive size s) xs → All (λ x. cur ≢ x) xs
    not_live [] h = tt
    not_live (x ∷ xs) h = (
      (λ k.
          let z : load (x - 16) s.mem ≡ 0 = subst (λ y. load (y - 16) s.mem ≡ 0) k IsFreed-at.1 in
          cc (z, h.0.1)),
      not_live xs h.1,
    )

    pub fits_below : s.malloc_used + size cur ≤ usize_max
    fits_below = omega (
      arith,
      v.used,
      v.held,
      v.cursor_bounds,
      v.top,
      total-le-room size live,
      ap (room size) e,
      room-without size before cur after,
    )

    -- What a change of memory has to keep for `cur` to become a live block.
    pub taken-IsPool :
        (head : ℕ) (mem' : ℕ → ℕ)
        → ((x : ℕ) → 0 < size x → x ≢ cur → load (x - 16) mem' ≡ load (x - 16) s.mem)
        → ((x : ℕ) → 0 < size x → load (x - 8) mem' ≡ load (x - 8) s.mem)
        → load (cur - 16) mem' ≡ malloc_magic
        → Chain mem' head (before ++ after)
        → IsPool size
            (cur ∷ live)
            (before ++ after)
            (count_live (load (cur - 8) s.mem) (record s { mem = mem'; free_head = head }))
    taken-IsPool head mem' keep16 keep8 now chain =
        let lv = not_live live v.live_blocks in
        let fd = subst (All (IsFreed size s)) e v.freed_blocks in
        let di = subst Distinct e v.freed_once in
        let ab = Distinct-absent before cur after di in
        let head_size : load (cur - 8) s.mem ≡ size cur = v.headers cur IsFreed-at.0 in
        let sum : min (s.malloc_used + load (cur - 8) s.mem) usize_max
            ≡ size cur + total size live =
          omega (arith, fits_below, v.used, head_size) in
        record {
          base = v.base;
          top = v.top;
          cursor_bounds = v.cursor_bounds;
          layout = v.layout;
          headers = λ p hp. keep8 p hp ∙ v.headers p hp;
          live_blocks = ((IsFreed-at.0, now), both live v.live_blocks lv);
          freed_blocks =
              both_freed (before ++ after) (All-without (IsFreed size s) before cur after fd) ab;
          live_once = (lv, v.live_once);
          freed_once = Distinct-without before cur after di;
          chain = chain;
          used = sum;
          high = omega arith;
          held = omega (arith, v.held, ap (room size) e, room-without size before cur after);
        }
      where
        both :
            (xs : List ℕ)
            → All (IsLive size s) xs
            → All (λ x. cur ≢ x) xs
            → All (λ x. (0 < size x) × (load (x - 16) mem' ≡ malloc_magic)) xs
        both [] a b = tt
        both (x ∷ xs) a b = ((a.0.0, keep16 x a.0.0 (λ k. b.0 (sym k)) ∙ a.0.1), both xs a.1 b.1)

        both_freed :
            (xs : List ℕ)
            → All (IsFreed size s) xs
            → All (λ x. cur ≢ x) xs
            → All (λ x. (0 < size x) × (load (x - 16) mem' ≡ 0)) xs
        both_freed [] a b = tt
        both_freed (x ∷ xs) a b =
            ((a.0.0, keep16 x a.0.0 (λ k. b.0 (sym k)) ∙ a.0.1), both_freed xs a.1 b.1)
