-- ===== src/Malloc/Take.antt =====
-- rust/crates/house-libc/src/alloc.rs, `pool_alloc_locked`: a block taken out of the head or out of the
-- middle of the free list.
use house.Prelude.{
  ℕ, ◌-◌, ◌^◌, ◌<◌, ◌≡◌, refl, sym, subst, ◌∙◌, ◌≢◌, none, some, List, [], ◌∷◌, ◌++◌, arith,
}
use house.Bytes.{load, store, load-store, load-lt}
use house.Malloc.{malloc_magic, Pool, relink, take_block}
use house.Malloc.Blocks.{
  IsFreed, IsPool, All-map, All-left, All-without, All-at, Chain-same, load-store_block,
}
use house.Malloc.Fit.{link_after, last, last-link_after, All-last, Chain-unlink}
use house.Malloc.Alloc.{load-store_head, load-store_header, load-store_magic, taken-IsPool}

pub magic_small : malloc_magic < 2 ^ 64
magic_small = omega arith

module _ {size : ℕ → ℕ} {live : List ℕ} {s : Pool} (cur : ℕ) (after : List ℕ) where
  take_head :
      (v : IsPool size live (cur ∷ after) s)
      → IsPool size (cur ∷ live) after (take_block none cur s)
  unfolding take_block relink
  take_head v =
      let hc = v.freed_blocks.0.0 in
      taken-IsPool v [] cur after refl (load cur s.mem) (store (cur - 16) malloc_magic s.mem)
        (λ x hx ne.
          load-store_header v x cur (x - 16) malloc_magic s.mem hx hc ne (omega arith)
            (omega arith))
        (λ x hx.
          load-store_magic v x cur (x - 8) malloc_magic s.mem hx hc (omega arith) (omega arith))
        (load-store (cur - 16) malloc_magic s.mem magic_small)
        (Chain-same s.mem _ (load cur s.mem) after
          (All-map
            (λ x h.
              load-store_magic v x cur x malloc_magic s.mem h.0 hc (omega arith) (omega arith))
            after v.freed_blocks.1)
          v.chain.1)

  module _ (q : ℕ) (before : List ℕ) where
    take_inner :
        (v : IsPool size live (q ∷ before ++ cur ∷ after) s)
        → IsPool size (cur ∷ live) (q ∷ before ++ after) (take_block (some (last q before)) cur s)
    unfolding take_block relink
    take_inner v =
        let r = last q before in
        let hr : 0 < size r =
          All-last (λ x. 0 < size x) q before v.freed_blocks.0.0
            (All-map (λ x h. h.0) before
              (All-left (IsFreed size s) before (cur ∷ after) v.freed_blocks.1)) in
        let hc : 0 < size cur = (All-at (IsFreed size s) before cur after v.freed_blocks.1).0 in
        let w = load cur s.mem in
        let mem1 = store r w s.mem in
        let mem' = store (cur - 16) malloc_magic mem1 in
        let big = λ (x : ℕ) (h : 0 < size x). v.layout.block x h in
        let same : (x : ℕ) → 0 < size x → r ≢ x → load x mem' ≡ load x s.mem = λ x hx ne.
          load-store_magic v x cur x malloc_magic mem1 hx hc (omega arith) (omega arith)
          ∙ load-store_block v.layout x r r x w s.mem hx hr (λ k. ne (sym k)) (omega arith)
              (omega arith) (omega arith) (omega arith) in
        taken-IsPool v (q ∷ before) cur after refl s.free_head mem'
          (λ x hx ne.
            load-store_header v x cur (x - 16) malloc_magic mem1 hx hc ne (omega arith)
              (omega arith)
            ∙ load-store_head v x r (x - 16) w s.mem hx hr (omega (arith, big x hx)) (omega arith))
          (λ x hx.
            load-store_magic v x cur (x - 8) malloc_magic mem1 hx hc (omega arith) (omega arith)
            ∙ load-store_head v x r (x - 8) w s.mem hx hr (omega (arith, big x hx)) (omega arith))
          (load-store (cur - 16) malloc_magic mem1 magic_small)
          (
            v.chain.0,
            Chain-unlink s.mem mem' q before cur after v.chain.1 v.freed_once
                (load-store_magic v r cur r malloc_magic mem1 hr hc (omega arith) (omega arith)
                  ∙ load-store r w s.mem (load-lt cur s.mem))
                (All-map (λ x h. same x h.0) (q ∷ before ++ after)
                  (
                    v.freed_blocks.0,
                    All-without (IsFreed size s) before cur after v.freed_blocks.1,
                  )),
          )

-- A block taken out anywhere in the free list becomes a live one.
pub take_block-IsPool :
    {size : ℕ → ℕ} {live freed : List ℕ} {s : Pool} (before : List ℕ) (cur : ℕ) (after : List ℕ)
    → freed ≡ before ++ cur ∷ after
    → IsPool size live freed s
    → IsPool size (cur ∷ live) (before ++ after) (take_block (link_after none before) cur s)
take_block-IsPool {size} {live} {s = s} [] cur after e v =
    take_head cur after (subst (λ f. IsPool size live f s) e v)
take_block-IsPool {size} {live} {s = s} (q ∷ before) cur after e v =
    rw (last-link_after q before)
      (take_inner cur after q before (subst (λ f. IsPool size live f s) e v))
