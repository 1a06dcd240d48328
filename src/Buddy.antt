-- ===== src/Buddy.antt =====
-- rust/crates/house-hal-aarch64/src/buddy.rs: the page allocator. Free pages form a list through
-- their own first word; behind them, `cur` is the first page never handed out.
pub mod Pages
pub mod Laws
pub mod Calls
pub mod Init
use house.Prelude.{
  ℕ, zero, suc, ◌+◌, ◌-◌, ◌*◌, ◌/◌, ◌%◌, ◌^◌, ◌≤◌, ◌<◌, min, max, ◌≡◌, refl, sym, ap, subst, ◌∙◌,
  ◌≢◌, ◌⊎◌, inl, inr, ◌↔◌, Bool, true, false, not, ◌&&◌, ◌||◌, Option, none, some, List, [], ◌∷◌,
  ◌++◌, map, arith, ltb, leb, ◌==◌, if◌then◌else◌, ltb→lt, lt→ltb, leb→le, le→leb, ==_iff, ==_refl,
  ==_ne, Bool-cases, Option-cases, all_below, all_below_sound, is_some, ℤ, pos, negsuc, neg, eq_ℤ,
  eq_ℤ_iff, as_u64, length, get_elem?, get_or, set, take, drop, replicate, length-append,
  length-take, length-drop, length-set, get_or-set_self, get_or-set_ne,
}

abbrev pub page_size : ℕ
page_size = 4096

-- The statics of the file. `mem` is memory, as the `u64` word at an address that 8 divides.
pub record Buddy : Type 0 where
  pub start : ℕ
  pub stop : ℕ
  pub cur : ℕ
  pub total_pages : ℕ
  pub free_pages : ℕ
  pub free_head : ℕ
  pub mem : ℕ → ℕ

abbrev pub u64_max : ℕ
u64_max = 2 ^ 64 - 1

-- `checked_add(n).unwrap_or(u64::MAX)`
abbrev pub checked_add : ℕ → ℕ → ℕ
checked_add a n = if leb (a + n) u64_max then a + n else u64_max

abbrev pub align_down : ℕ → ℕ
align_down a = a - a % page_size

unfoldable pub buddy_init : ℕ → ℕ → Buddy → Buddy
buddy_init start stop b =
    let s = align_down (checked_add start 4095) in
    let e = align_down stop in
    if leb e s then b else if not (b.start == 0) && not (b.stop == 0) then b else record b {
      start = s;
      stop = e;
      cur = s;
      total_pages = (e - s) / page_size;
      free_pages = (e - s) / page_size;
      free_head = 0;
    }

abbrev pub one_less : ℕ → ℕ
one_less n = if ltb 0 n then n - 1 else n

-- memory with the page at `p` zeroed
abbrev pub zero_page : ℕ → (ℕ → ℕ) → ℕ → ℕ
zero_page p mem a = if leb p a && ltb a (p + page_size) then 0 else mem a

-- 0 is the null pointer.
unfoldable pub buddy_alloc_page : Buddy → ℕ × Buddy
buddy_alloc_page b =
    if not (b.free_head == 0)
    then (
      b.free_head,
      record b {
        free_head = b.mem b.free_head;
        free_pages = one_less b.free_pages;
        mem = zero_page b.free_head b.mem;
      },
    )
    else if leb (checked_add b.cur page_size) b.stop
    then (
      b.cur,
      record b {
        cur = b.cur + page_size;
        free_pages = one_less b.free_pages;
        mem = if b.cur == 0 then b.mem else zero_page b.cur b.mem;
      },
    )
    else (0, b)

abbrev pub store : ℕ → ℕ → (ℕ → ℕ) → ℕ → ℕ
store p v mem a = if p == a then v else mem a

unfoldable pub buddy_free_page : ℕ → Buddy → Buddy
buddy_free_page p b =
    if p == 0
    then b
    else if ltb p b.start || leb b.stop p
    then b
    else if not (p % page_size == 0)
    then b
    else record b {
      mem = store p b.free_head b.mem;
      free_head = p;
      free_pages = (if ltb b.free_pages b.total_pages then b.free_pages + 1 else b.free_pages);
    }

abbrev pub i32_max : ℕ
i32_max = 2 ^ 31 - 1

unfoldable pub buddy_free_count : Buddy → ℕ
buddy_free_count b = min b.free_pages i32_max

unfoldable pub buddy_total_count : Buddy → ℕ
buddy_total_count b = min b.total_pages i32_max

-- the total and the free pages
unfoldable pub house_mem_stats : Buddy → ℕ × ℕ
house_mem_stats b = (b.total_pages, b.free_pages)

unfoldable pub buddy_in_heap : ℕ → Buddy → Bool
buddy_in_heap addr b = ltb b.start b.stop && (leb b.start addr && ltb addr b.stop)

unfoldable pub buddy_contains : ℕ → Buddy → Bool
buddy_contains p b =
    if p == 0
    then false
    else if not (p % page_size == 0)
    then false
    else leb b.start p && ltb p b.stop
