-- ===== src/Malloc/Keep.antt =====
-- rust/crates/house-libc/src/alloc.rs: the bytes of the live blocks, which the allocator leaves alone.
use house.Prelude.{
  ℕ, ◌+◌, ◌-◌, ◌≤◌, ◌<◌, ◌≡◌, sym, subst, ◌∙◌, ◌≢◌, ◌⊎◌, inl, inr, none, List, [], ◌∷◌, ◌++◌, arith,
}
use house.Bytes.{load, store, store_other}
use house.Malloc.{malloc_magic, Pool, relink, take_block, cursor}
use house.Malloc.Blocks.{All, IsLive, IsFreed, IsPool, All-left, far}
use house.Malloc.Fit.{link_after, last, last-link_after, All-last}
use house.Malloc.Alloc.{IsFreed-at}

-- The bytes of every live block are the same in both states.
abbrev pub Kept : (ℕ → ℕ) → Pool → Pool → Type 0
Kept size s s' = (q x : ℕ) → IsLive size s q → q ≤ x → x < q + size q → s'.mem x ≡ s.mem x

module _ {size : ℕ → ℕ} {live freed : List ℕ} {s : Pool} (v : IsPool size live freed s) where
  -- A word in the header or at the head of another block is not in the payload of `q`.
  pub payload_apart :
      (q c a x : ℕ)
      → 0 < size q
      → 0 < size c
      → q ≢ c
      → c ≤ a + 16
      → a ≤ c
      → q ≤ x
      → x < q + size q
      → (x < a) ⊎ (a + 8 ≤ x)
  payload_apart q c a x hq hc ne a1 a2 x1 x2 = elim (far v.layout q c hq hc ne) [
    | inl h ↦ inl (omega arith)
    | inr h ↦ inr (omega (arith, v.layout.block c hc))
  ]

  pub live-ne-freed : (q c : ℕ) → IsLive size s q → IsFreed size s c → q ≢ c
  live-ne-freed q c l f k =
      let z : load (q - 16) s.mem ≡ 0 = subst (λ y. load (y - 16) s.mem ≡ 0) (sym k) f.1 in
      cc (z, l.1)

  pub take_block-Kept :
      (before : List ℕ) (cur : ℕ) (after : List ℕ)
      → freed ≡ before ++ cur ∷ after
      → Kept size s (take_block (link_after none before) cur s)
  unfolding take_block relink
  take_block-Kept [] cur after e q x l x1 x2 =
      let f = IsFreed-at v [] cur after e in
      store_other (cur - 16) malloc_magic s.mem x (
        payload_apart q cur (cur - 16) x l.0 f.0 (live-ne-freed q cur l f) (omega arith)
          (omega arith) x1 x2)
  take_block-Kept (b ∷ before) cur after e q x l x1 x2 =
      let f = IsFreed-at v (b ∷ before) cur after e in
      let all = subst (All (IsFreed size s)) e v.freed_blocks in
      let r = last b before in
      let fr : IsFreed size s r =
        All-last (IsFreed size s) b before all.0
          (All-left (IsFreed size s) before (cur ∷ after) all.1) in
      rw (last-link_after b before) (
        store_other (cur - 16) malloc_magic (store r (load cur s.mem) s.mem) x (
          payload_apart q cur (cur - 16) x l.0 f.0 (live-ne-freed q cur l f) (omega arith)
            (omega arith) x1 x2)
        ∙ store_other r (load cur s.mem) s.mem x (
            payload_apart q r r x l.0 fr.0 (live-ne-freed q r l fr) (omega arith) (omega arith) x1
              x2))

  pub store-Kept :
      (p n m : ℕ)
      → cursor s + 16 ≤ p
      → (q x : ℕ) → IsLive size s q
      → q ≤ x
      → x < q + size q
      → store (p - 8) n (store (p - 16) m s.mem) x ≡ s.mem x
  store-Kept p n m above q x l x1 x2 =
      let b = v.layout.block q l.0 in
      store_other (p - 8) n (store (p - 16) m s.mem) x (inl (omega (arith, b)))
      ∙ store_other (p - 16) m s.mem x (inl (omega (arith, b)))
