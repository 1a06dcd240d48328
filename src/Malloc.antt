-- ===== src/Malloc.antt =====
-- rust/crates/house-libc/src/alloc.rs: malloc and its family. A pool of 64 MiB starts at
-- `__heap_base`; a block is a payload behind a header of sixteen bytes, the magic word and the size.
-- Freed payloads form a list through their own first word. Each call holds the lock from its first
-- read to its last write, so it is one function of the state.
pub mod Blocks
pub mod Fit
pub mod Alloc
pub mod Take
pub mod Carve
pub mod Keep
pub mod Serve
pub mod Release
pub mod Write
pub mod Answers
pub mod Moves
pub mod Copies
use house.Prelude.{
  ℕ, zero, suc, ◌+◌, ◌-◌, ◌*◌, ◌/◌, ◌%◌, ◌^◌, ◌≤◌, ◌<◌, min, max, ◌≡◌, refl, sym, ap, subst, ◌∙◌,
  ◌≢◌, ◌⊎◌, inl, inr, ◌↔◌, Bool, true, false, not, ◌&&◌, ◌||◌, Option, none, some, List, [], ◌∷◌,
  ◌++◌, map, arith, ltb, leb, ◌==◌, if◌then◌else◌, ltb→lt, lt→ltb, leb→le, le→leb, ==_iff, ==_refl,
  ==_ne, Bool-cases, Option-cases, all_below, all_below_sound, is_some, ℤ, pos, negsuc, neg, eq_ℤ,
  eq_ℤ_iff, as_u64, length, get_elem?, get_or, set, take, drop, replicate, length-append,
  length-take, length-drop, length-set, get_or-set_self, get_or-set_ne,
}
use house.Bytes.{
  store_byte, load, store, load-store, store_other, load_frame, load-store_apart, load-lt,
}
use Prim.Native.Nat.{bit_and}

abbrev pub malloc_pool_bytes : ℕ
malloc_pool_bytes = 64 * 1024 * 1024

-- "HOUSEMAL"
abbrev pub malloc_magic : ℕ
malloc_magic = 0x484F5553454D414C

abbrev pub malloc_min : ℕ
malloc_min = 8

-- The statics of the file, the caller's `errno`, and memory. 0 is the null pointer.
pub record Pool : Type 0 where
  pub heap_base : ℕ
  pub malloc_cur : ℕ
  pub free_head : ℕ
  pub malloc_used : ℕ
  pub malloc_high : ℕ
  pub errno : ℕ
  pub mem : ℕ → ℕ

abbrev pub usize_max : ℕ
usize_max = 2 ^ 64 - 1

abbrev pub saturating_add : ℕ → ℕ → ℕ
saturating_add a b = min (a + b) usize_max

abbrev pub pool_top : Pool → ℕ
pool_top s = s.heap_base + malloc_pool_bytes

-- the size that the header of the payload `p` records, after the range and the magic tests
unfoldable pub header_for : ℕ → Pool → Option ℕ
header_for p s =
    if p == 0
    then none
    else if ltb p (saturating_add s.heap_base 16)
        || leb (saturating_add s.heap_base malloc_pool_bytes) p
    then none
    else if not (load (p - 16) s.mem == malloc_magic)
    then none
    else some (load (p - 8) s.mem)

-- A request is refused with errno 12 and a null result.
abbrev pub out_of_memory : Pool → ℕ × Pool
out_of_memory s = (0, record s { errno = 12 })

-- the live payload bytes and the most there ever were, after `size` more
abbrev pub count_live : ℕ → Pool → Pool
count_live size s =
    let used = saturating_add s.malloc_used size in
    record s { malloc_used = used; malloc_high = max used s.malloc_high }

-- `*link`: the head of the free list (`none`), or the first word of the freed payload before
unfoldable pub follow : Option ℕ → Pool → ℕ
follow none s = s.free_head
follow (some q) s = load q s.mem

unfoldable pub relink : Option ℕ → ℕ → Pool → Pool
relink none p s = record s { free_head = p }
relink (some q) p s = record s { mem = store q p s.mem }

-- what the walk does at the first block that is large enough
unfoldable pub take_block : Option ℕ → ℕ → Pool → Pool
take_block link cur s =
    let s1 = relink link (load cur s.mem) s in
    count_live (load (cur - 8) s.mem) (record s1 { mem = store (cur - 16) malloc_magic s1.mem })

-- The walk `while !(*link).is_null()` of the first-fit search, on fuel. The result is `none` when the
-- fuel ran out, and a null pointer when no free block is large enough.
unfoldable pub first_fit : ℕ → Option ℕ → ℕ → Pool → Option (ℕ × Pool)
first_fit zero link n s = none
first_fit (suc fuel) link n s =
    let cur = follow link s in
    let rest = first_fit fuel (some cur) n s in
    if cur == 0
    then some (0, s)
    else if leb n (load (cur - 8) s.mem)
    then some (cur, take_block link cur s)
    else rest

-- the end of the blocks carved so far
abbrev pub cursor : Pool → ℕ
cursor s = if s.malloc_cur == 0 then s.heap_base else s.malloc_cur

-- `(x + 15) & !15`, and the same for a power of two
abbrev pub down_to : ℕ → ℕ → ℕ
down_to align x = x - x % align

abbrev pub place : ℕ → Pool → ℕ
place align s = down_to align (down_to 16 (cursor s + 15) + 16 + (align - 1))

unfoldable pub carve : ℕ → ℕ → Pool → ℕ × Pool
carve n align s =
    let h = down_to 16 (cursor s + 15) in
    let p = place align s in
    if ltb usize_max (cursor s + 15)
    then out_of_memory s
    else if ltb usize_max (h + 16)
    then out_of_memory s
    else if ltb usize_max (h + 16 + (align - 1))
    then out_of_memory s
    else if ltb usize_max (p + n)
    then out_of_memory s
    else if ltb (pool_top s) (p + n)
    then out_of_memory s
    else (
      p,
      count_live n (record s {
        mem = store (p - 8) n (store (p - 16) malloc_magic s.mem);
        malloc_cur = p + n;
      }),
    )

-- Every block takes at least 24 bytes of the pool, so the free list is never longer than this.
abbrev pub walk_fuel : ℕ
walk_fuel = suc (malloc_pool_bytes / 24)

abbrev pub pow2_or_16 : ℕ → ℕ
pow2_or_16 align = if align == 0 || not (bit_and align (align - 1) == 0) then 16 else align

unfoldable pub after_walk : ℕ → ℕ → Option (ℕ × Pool) → Option (ℕ × Pool)
unfolding carve
after_walk n align none = none
after_walk n align (some (p, s)) = if p == 0 then some (carve n align s) else some (p, s)

unfoldable pub pool_alloc : ℕ → ℕ → Pool → Option (ℕ × Pool)
unfolding after_walk
pool_alloc n align s =
    let a = pow2_or_16 align in
    let n_eff = max n malloc_min in
    after_walk n_eff a (if leb a 16 then first_fit walk_fuel none n_eff s else some (0, s))

unfoldable pub malloc : ℕ → Pool → Option (ℕ × Pool)
malloc n s = pool_alloc n 16 s

unfoldable pub release : ℕ → ℕ → Pool → Pool
release p size s = record s {
  mem = store p s.free_head (store (p - 16) 0 s.mem);
  free_head = p;
  malloc_used = s.malloc_used - size;
}

unfoldable pub free : ℕ → Pool → Pool
free p s = if p == 0 then s else elim (header_for p s) [
  | some size ↦
      if leb malloc_min size
      then release p size s
      else record s { mem = store (p - 16) 0 s.mem; errno = 22 }
  | none ↦ record s { errno = 22 }
]

-- the live bytes and the most there ever were
unfoldable pub house_malloc_stats : Pool → ℕ × ℕ
house_malloc_stats s = (s.malloc_used, s.malloc_high)

abbrev pub fill_zero : ℕ → ℕ → (ℕ → ℕ) → ℕ → ℕ
fill_zero p n mem x = if leb p x && ltb x (p + n) then 0 else mem x

abbrev pub copy_bytes : ℕ → ℕ → ℕ → (ℕ → ℕ) → ℕ → ℕ
copy_bytes from to n mem x = if leb to x && ltb x (to + n) then mem (from + (x - to)) else mem x

-- what a caller does with the memory of a block that it was given
abbrev pub on_block : (ℕ → (ℕ → ℕ) → ℕ → ℕ) → ℕ × Pool → ℕ × Pool
on_block f (p, s) = (p, if p == 0 then s else record s { mem = f p s.mem })

abbrev pub map_block : (ℕ → (ℕ → ℕ) → ℕ → ℕ) → Option (ℕ × Pool) → Option (ℕ × Pool)
map_block f none = none
map_block f (some r) = some (on_block f r)

unfoldable pub calloc : ℕ → ℕ → Pool → Option (ℕ × Pool)
calloc a b s =
    if ltb usize_max (a * b)
    then some (out_of_memory s)
    else map_block (λ p. fill_zero p (a * b)) (malloc (a * b) s)

unfoldable pub realloc : ℕ → ℕ → Pool → Option (ℕ × Pool)
realloc old n s =
    if old == 0
    then malloc n s
    else if ltb malloc_pool_bytes n
    then some (out_of_memory s)
    else elim (header_for old s) [
      | none ↦ some (0, record s { errno = 22 })
      | some oldn ↦
          map_block (λ p. copy_bytes old p (min (min oldn n) (pool_top s - old)))
            (pool_alloc n 16 s)
    ]

-- The error code, and what `*out` is set to when it is 0.
unfoldable pub memalign_code : ℕ × Pool → ℕ × Option ℕ × Pool
memalign_code (p, s) = if p == 0 then (12, none, s) else (0, some p, s)

unfoldable pub posix_memalign : Bool → ℕ → ℕ → Pool → Option (ℕ × Option ℕ × Pool)
unfolding pool_alloc memalign_code
posix_memalign out_null align n s =
    if out_null
    then some (22, none, s)
    else if align == 0 || not (bit_and align (align - 1) == 0)
    then some (22, none, s)
    else elim (pool_alloc n align s) [ none ↦ none | some r ↦ some (memalign_code r) ]
