-- ===== src/Malloc/Write.antt =====
-- rust/crates/house-libc/src/alloc.rs: what the holder of a block may write.
use house.Prelude.{
  ℕ, ◌+◌, ◌-◌, ◌≤◌, ◌<◌, ◌≡◌, ◌∙◌, ◌⊎◌, inl, inr, List, arith, ◌==◌, ==_iff, Bool-cases,
}
use house.Bytes.{load, load_frame}
use house.Malloc.{Pool}
use house.Malloc.Blocks.{IsLive, IsFreed, IsPool, All-map, Chain-same, far}
use house.Malloc.Keep.{live-ne-freed}

module _ {size : ℕ → ℕ} {live freed : List ℕ} {s : Pool} (v : IsPool size live freed s) where
  -- A change of memory within the payload of a live block keeps every word of the allocator.
  pub within-IsPool :
      (p : ℕ) (mem' : ℕ → ℕ)
      → IsLive size s p
      → ((x : ℕ) → (x < p) ⊎ (p + size p ≤ x) → mem' x ≡ s.mem x)
      → IsPool size live freed (record s { mem = mem' })
  within-IsPool p mem' l out =
      let kept : (q a : ℕ) → 0 < size q → q ≤ a + 16 → a + 8 ≤ q → load a mem' ≡ load a s.mem =
        λ q a hq a1 a2.
          load_frame a s.mem mem' (λ x x1 x2. out x (header_apart q a hq a1 a2 x x1 x2)) in
      record {
        base = v.base;
        top = v.top;
        cursor_bounds = v.cursor_bounds;
        layout = v.layout;
        headers = λ q h.
            kept q (q - 8) h (omega arith) (omega (arith, v.layout.block q h)) ∙ v.headers q h;
        live_blocks =
            All-map
              (λ q h. (
                h.0,
                kept q (q - 16) h.0 (omega arith) (omega (arith, v.layout.block q h.0)) ∙ h.1,
              ))
              live v.live_blocks;
        freed_blocks =
            All-map
              (λ q h. (
                h.0,
                kept q (q - 16) h.0 (omega arith) (omega (arith, v.layout.block q h.0)) ∙ h.1,
              ))
              freed v.freed_blocks;
        live_once = v.live_once;
        freed_once = v.freed_once;
        chain =
            Chain-same s.mem mem' s.free_head freed
              (All-map (λ q h. load_frame q s.mem mem' (λ x x1 x2. out x (link_apart q h x x1 x2)))
                freed v.freed_blocks)
              v.chain;
        used = v.used;
        high = v.high;
        held = v.held;
      }
    where
      header_apart :
          (q a : ℕ)
          → 0 < size q
          → q ≤ a + 16
          → a + 8 ≤ q
          → (x : ℕ) → a ≤ x
          → x < a + 8
          → (x < p) ⊎ (p + size p ≤ x)
      header_apart q a hq a1 a2 x x1 x2 = elim (Bool-cases (p == q)) [
        | inl y ↦ inl (let e : p ≡ q = (==_iff p q).0 y in omega arith)
        | inr y ↦ elim (far v.layout p q l.0 hq (ground (arith, ==_iff p q))) [
          | inl h ↦ inr (omega arith)
          | inr h ↦ inl (omega arith)
        ]
      ]

      link_apart :
          (q : ℕ) → IsFreed size s q → (x : ℕ) → q ≤ x → x < q + 8 → (x < p) ⊎ (p + size p ≤ x)
      link_apart q f x x1 x2 = elim (far v.layout p q l.0 f.0 (live-ne-freed v p q l f)) [
        | inl h ↦ inr (omega arith)
        | inr h ↦ inl (omega (arith, v.layout.block q f.0))
      ]
