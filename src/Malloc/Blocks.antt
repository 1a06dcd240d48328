-- ===== src/Malloc/Blocks.antt =====
-- rust/crates/house-libc/src/alloc.rs: the blocks of the pool, live and freed, and the words that the
-- allocator keeps in them.
use house.Prelude.{
  ℕ, ◌+◌, ◌-◌, ◌%◌, ◌≤◌, ◌<◌, ◌≡◌, refl, sym, ◌≢◌, ◌⊎◌, inl, inr, List, [], ◌∷◌, ◌++◌, arith, ltb,
  ltb→lt, Bool-cases,
}
use house.Bytes.{load, store, load-store_apart}
use house.Malloc.{malloc_magic, Pool, usize_max, pool_top, cursor}

abbrev pub All {ℓ κ} : {A : Type ℓ} → (A → Type κ) → List A → Type κ
All P [] = Unit
All P (x ∷ xs) = P x × All P xs

abbrev pub Distinct : List ℕ → Type 0
Distinct [] = Unit
Distinct (x ∷ xs) = All (λ y. x ≢ y) xs × Distinct xs

-- the payload bytes of the blocks at `ps`, and the same with their headers
abbrev pub total : (ℕ → ℕ) → List ℕ → ℕ
total size [] = 0
total size (p ∷ ps) = size p + total size ps

abbrev pub room : (ℕ → ℕ) → List ℕ → ℕ
room size [] = 0
room size (p ∷ ps) = size p + 16 + room size ps

-- The list that starts at `p` and goes on at the first word of each payload.
abbrev pub Chain : (ℕ → ℕ) → ℕ → List ℕ → Type 0
Chain mem p [] = p ≡ 0
Chain mem p (x ∷ xs) = (p ≡ x) × Chain mem (load x mem) xs

-- `size p` is the payload size of the block at `p`, and 0 where no block is.
pub record IsLayout (size : ℕ → ℕ) (lo hi : ℕ) : Type 0 where
  pub block : (p : ℕ) → 0 < size p → (8 ≤ size p) × (lo + 16 ≤ p) × (p + size p ≤ hi) × (p % 16 ≡ 0)
  pub apart : (p q : ℕ) → 0 < size p → 0 < size q → p < q → p + size p + 16 ≤ q

abbrev pub IsLive : (ℕ → ℕ) → Pool → ℕ → Type 0
IsLive size s p = (0 < size p) × (load (p - 16) s.mem ≡ malloc_magic)

abbrev pub IsFreed : (ℕ → ℕ) → Pool → ℕ → Type 0
IsFreed size s p = (0 < size p) × (load (p - 16) s.mem ≡ 0)

pub record IsPool (size : ℕ → ℕ) (live freed : List ℕ) (s : Pool) : Type 0 where
  pub base : 0 < s.heap_base
  pub top : pool_top s ≤ usize_max
  pub cursor_bounds : (s.heap_base ≤ cursor s) × (cursor s ≤ pool_top s)
  pub layout : IsLayout size s.heap_base (cursor s)
  pub headers : (p : ℕ) → 0 < size p → load (p - 8) s.mem ≡ size p
  pub live_blocks : All (IsLive size s) live
  pub freed_blocks : All (IsFreed size s) freed
  pub live_once : Distinct live
  pub freed_once : Distinct freed
  pub chain : Chain s.mem s.free_head freed
  pub used : s.malloc_used ≡ total size live
  pub high : s.malloc_used ≤ s.malloc_high
  pub held : room size live + room size freed + s.heap_base ≤ cursor s

pub All-map {ℓ κ μ} :
    {A : Type ℓ} {P : A → Type κ} {Q : A → Type μ} (f : (x : A) → P x → Q x) (xs : List A)
    → All P xs
    → All Q xs
All-map f [] h = tt
All-map f (x ∷ xs) h = (f x h.0, All-map f xs h.1)

pub All-append {ℓ κ} :
    {A : Type ℓ} (P : A → Type κ) (xs ys : List A) → All P xs → All P ys → All P (xs ++ ys)
All-append P [] ys a b = b
All-append P (x ∷ xs) ys a b = (a.0, All-append P xs ys a.1 b)

pub All-left {ℓ κ} : {A : Type ℓ} (P : A → Type κ) (xs ys : List A) → All P (xs ++ ys) → All P xs
All-left P [] ys a = tt
All-left P (x ∷ xs) ys a = (a.0, All-left P xs ys a.1)

pub All-right {ℓ κ} : {A : Type ℓ} (P : A → Type κ) (xs ys : List A) → All P (xs ++ ys) → All P ys
All-right P [] ys a = a
All-right P (x ∷ xs) ys a = All-right P xs ys a.1

-- One element taken out of a list.
pub All-without {ℓ κ} :
    {A : Type ℓ} (P : A → Type κ) (xs : List A) (y : A) (ys : List A)
    → All P (xs ++ y ∷ ys)
    → All P (xs ++ ys)
All-without P [] y ys a = a.1
All-without P (x ∷ xs) y ys a = (a.0, All-without P xs y ys a.1)

pub All-at {ℓ κ} :
    {A : Type ℓ} (P : A → Type κ) (xs : List A) (y : A) (ys : List A) → All P (xs ++ y ∷ ys) → P y
All-at P [] y ys a = a.0
All-at P (x ∷ xs) y ys a = All-at P xs y ys a.1

pub Distinct-without :
    (xs : List ℕ) (y : ℕ) (ys : List ℕ) → Distinct (xs ++ y ∷ ys) → Distinct (xs ++ ys)
Distinct-without [] y ys d = d.1
Distinct-without (x ∷ xs) y ys d =
    (All-without (λ z. x ≢ z) xs y ys d.0, Distinct-without xs y ys d.1)

pub Distinct-right : (xs ys : List ℕ) → Distinct (xs ++ ys) → Distinct ys
Distinct-right [] ys d = d
Distinct-right (x ∷ xs) ys d = Distinct-right xs ys d.1

pub Distinct-absent :
    (xs : List ℕ) (y : ℕ) (ys : List ℕ) → Distinct (xs ++ y ∷ ys) → All (λ z. y ≢ z) (xs ++ ys)
Distinct-absent [] y ys d = d.0
Distinct-absent (x ∷ xs) y ys d =
    (λ e. All-at (λ z. x ≢ z) xs y ys d.0 (sym e), Distinct-absent xs y ys d.1)

pub total-without :
    (size : ℕ → ℕ) (xs : List ℕ) (y : ℕ) (ys : List ℕ)
    → total size (xs ++ y ∷ ys) ≡ size y + total size (xs ++ ys)
total-without size [] y ys = refl
total-without size (x ∷ xs) y ys = omega (arith, total-without size xs y ys)

pub room-without :
    (size : ℕ → ℕ) (xs : List ℕ) (y : ℕ) (ys : List ℕ)
    → room size (xs ++ y ∷ ys) ≡ size y + 16 + room size (xs ++ ys)
room-without size [] y ys = refl
room-without size (x ∷ xs) y ys = omega (arith, room-without size xs y ys)

-- The sum depends on the sizes of the listed blocks only.
pub total-same :
    (size size' : ℕ → ℕ) (xs : List ℕ)
    → All (λ x. size' x ≡ size x) xs
    → total size' xs ≡ total size xs
total-same size size' [] h = refl
total-same size size' (x ∷ xs) h = omega (arith, h.0, total-same size size' xs h.1)

pub room-same :
    (size size' : ℕ → ℕ) (xs : List ℕ)
    → All (λ x. size' x ≡ size x) xs
    → room size' xs ≡ room size xs
room-same size size' [] h = refl
room-same size size' (x ∷ xs) h = omega (arith, h.0, room-same size size' xs h.1)

pub total-le-room : (size : ℕ → ℕ) (xs : List ℕ) → total size xs ≤ room size xs
total-le-room size [] = omega arith
total-le-room size (x ∷ xs) = omega (arith, total-le-room size xs)

pub Chain-same :
    (mem mem' : ℕ → ℕ) (p : ℕ) (xs : List ℕ)
    → All (λ x. load x mem' ≡ load x mem) xs
    → Chain mem p xs
    → Chain mem' p xs
Chain-same mem mem' p [] h c = c
Chain-same mem mem' p (x ∷ xs) h c = (c.0, rw h.0 (Chain-same mem mem' (load x mem) xs h.1 c.1))

module _ {size : ℕ → ℕ} {lo hi : ℕ} (l : IsLayout size lo hi) where
  pub far :
      (p q : ℕ) → 0 < size p → 0 < size q → p ≢ q → (p + size p + 16 ≤ q) ⊎ (q + size q + 16 ≤ p)
  far p q hp hq ne = elim (Bool-cases (ltb p q)) [
    | inl y ↦ inl (l.apart p q hp hq (ltb→lt p q y))
    | inr y ↦ inr (l.apart q p hq hp (ground arith))
  ]

  -- A word written in the header or at the head of one block's payload is not one of another's.
  pub load-store_block :
      (p q a b v : ℕ) (mem : ℕ → ℕ)
      → 0 < size p
      → 0 < size q
      → p ≢ q
      → q ≤ a + 16
      → a ≤ q
      → p ≤ b + 16
      → b ≤ p
      → load b (store a v mem) ≡ load b mem
  load-store_block p q a b v mem hp hq ne a1 a2 b1 b2 =
      load-store_apart a b v mem (elim (far p q hp hq ne) [
        | inl h ↦ inl (omega (arith, l.block p hp))
        | inr h ↦ inr (omega (arith, l.block q hq))
      ])

-- the pool, and the blocks that the program holds
abbrev pub Holding : Type 0
Holding = Pool × List ℕ

-- The pool is well formed for some sizes and some free list, with the held blocks live.
abbrev pub IsSound : Holding → Type 0
IsSound t = (size : ℕ → ℕ) × (freed : List ℕ) × IsPool size t.1 freed t.0

pub errno-IsPool :
    {size : ℕ → ℕ} {live freed : List ℕ} {s : Pool} (v : IsPool size live freed s) (e : ℕ)
    → IsPool size live freed (record s { errno = e })
errno-IsPool v e = record {
  base = v.base;
  top = v.top;
  cursor_bounds = v.cursor_bounds;
  layout = v.layout;
  headers = v.headers;
  live_blocks = v.live_blocks;
  freed_blocks = v.freed_blocks;
  live_once = v.live_once;
  freed_once = v.freed_once;
  chain = v.chain;
  used = v.used;
  high = v.high;
  held = v.held;
}
