-- ===== src/Bytes.antt =====
-- Memory as bytes, and the little-endian `u64` at an address, as the unaligned reads and writes of
-- rust/crates/house-libc/src/alloc.rs see it.
use house.Prelude.{
  ℕ, ◌+◌, ◌-◌, ◌*◌, ◌/◌, ◌%◌, ◌^◌, ◌≤◌, ◌<◌, ◌≡◌, refl, ◌⊎◌, inl, inr, ◌&&◌, arith, ltb, leb, ◌==◌,
  if◌then◌else◌, lt→ltb, le→leb,
}

unfoldable pub store_byte : ℕ → ℕ → (ℕ → ℕ) → ℕ → ℕ
store_byte a v mem x = if x == a then v % 256 else mem x

unfoldable pub load : ℕ → (ℕ → ℕ) → ℕ
load a mem =
    mem a % 256
    + mem (a + 1) % 256 * 2 ^ 8
    + mem (a + 2) % 256 * 2 ^ 16
    + mem (a + 3) % 256 * 2 ^ 24
    + mem (a + 4) % 256 * 2 ^ 32
    + mem (a + 5) % 256 * 2 ^ 40
    + mem (a + 6) % 256 * 2 ^ 48
    + mem (a + 7) % 256 * 2 ^ 56

abbrev byte_of : ℕ → ℕ → ℕ
byte_of v k =
    if k == 0
    then v % 256
    else if k == 1
    then v / 2 ^ 8 % 256
    else if k == 2
    then v / 2 ^ 16 % 256
    else if k == 3
    then v / 2 ^ 24 % 256
    else if k == 4
    then v / 2 ^ 32 % 256
    else if k == 5
    then v / 2 ^ 40 % 256
    else if k == 6
    then v / 2 ^ 48 % 256
    else v / 2 ^ 56 % 256

unfoldable pub store : ℕ → ℕ → (ℕ → ℕ) → ℕ → ℕ
store a v mem x = if leb a x && ltb x (a + 8) then byte_of v (x - a) else mem x

store_at : (a v : ℕ) (mem : ℕ → ℕ) (x k : ℕ) → x ≡ a + k → k < 8 → store a v mem x ≡ byte_of v k
unfolding store
store_at a v mem x k e h =
    let d : x - a ≡ k = omega arith in
    rw (le→leb a x (omega arith), lt→ltb x (a + 8) (omega arith), d) refl

digits :
    (v : ℕ)
    → v < 2 ^ 64
    → v % 256 % 256
        + v / 2 ^ 8 % 256 % 256 * 2 ^ 8
        + v / 2 ^ 16 % 256 % 256 * 2 ^ 16
        + v / 2 ^ 24 % 256 % 256 * 2 ^ 24
        + v / 2 ^ 32 % 256 % 256 * 2 ^ 32
        + v / 2 ^ 40 % 256 % 256 * 2 ^ 40
        + v / 2 ^ 48 % 256 % 256 * 2 ^ 48
        + v / 2 ^ 56 % 256 % 256 * 2 ^ 56
      ≡ v
digits v h = omega arith

pub load-store : (a v : ℕ) (mem : ℕ → ℕ) → v < 2 ^ 64 → load a (store a v mem) ≡ v
unfolding load
load-store a v mem h =
    let at = λ (x k : ℕ) (e : x ≡ a + k) (l : k < 8). store_at a v mem x k e l in
    rw
      (
        at a 0 (omega arith) (omega arith),
        at (a + 1) 1 refl (omega arith),
        at (a + 2) 2 refl (omega arith),
        at (a + 3) 3 refl (omega arith),
        at (a + 4) 4 refl (omega arith),
        at (a + 5) 5 refl (omega arith),
        at (a + 6) 6 refl (omega arith),
        at (a + 7) 7 refl (omega arith),
      )
      (digits v h)

pub store_other : (a v : ℕ) (mem : ℕ → ℕ) (x : ℕ) → (x < a) ⊎ (a + 8 ≤ x) → store a v mem x ≡ mem x
unfolding store
store_other a v mem x h = ground arith

-- A word depends on its eight bytes only.
pub load_frame :
    (a : ℕ) (mem mem' : ℕ → ℕ)
    → ((x : ℕ) → a ≤ x → x < a + 8 → mem' x ≡ mem x)
    → load a mem' ≡ load a mem
unfolding load
load_frame a mem mem' h =
    rw
      (
        h a (omega arith) (omega arith),
        h (a + 1) (omega arith) (omega arith),
        h (a + 2) (omega arith) (omega arith),
        h (a + 3) (omega arith) (omega arith),
        h (a + 4) (omega arith) (omega arith),
        h (a + 5) (omega arith) (omega arith),
        h (a + 6) (omega arith) (omega arith),
        h (a + 7) (omega arith) (omega arith),
      )
      refl

pub load-store_apart :
    (a b v : ℕ) (mem : ℕ → ℕ) → (b + 8 ≤ a) ⊎ (a + 8 ≤ b) → load b (store a v mem) ≡ load b mem
load-store_apart a b v mem h =
    load_frame b mem (store a v mem) (λ x p q. store_other a v mem x (split x p q))
  where
    split : (x : ℕ) → b ≤ x → x < b + 8 → (x < a) ⊎ (a + 8 ≤ x)
    split x p q = elim h [ inl k ↦ inl (omega arith) | inr k ↦ inr (omega arith) ]

pub load-lt : (a : ℕ) (mem : ℕ → ℕ) → load a mem < 2 ^ 64
unfolding load
load-lt a mem = omega arith
