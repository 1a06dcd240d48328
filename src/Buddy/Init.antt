-- ===== src/Buddy/Init.antt =====
-- The heap at boot.
use house.Buddy.{page_size, Buddy, u64_max, checked_add, align_down, buddy_init}
use house.Prelude.{ℕ, ◌-◌, ◌/◌, ◌%◌, ◌≤◌, ◌<◌, ◌≡◌, refl, false, [], arith, leb}
use house.Buddy.Pages.{has-nil, Chain-nil}
use house.Buddy.Laws.{IsHeap}

-- the heap over the pages from `s` to `e`
abbrev over : ℕ → ℕ → Buddy → Buddy
over s e b = record b {
  start = s;
  stop = e;
  cur = s;
  total_pages = (e - s) / page_size;
  free_pages = (e - s) / page_size;
  free_head = 0;
}

over-IsHeap :
    (s e : ℕ) (b : Buddy)
    → 0 < s
    → s < e
    → e ≤ u64_max
    → s % page_size ≡ 0
    → e % page_size ≡ 0
    → IsHeap (over s e b) [] []
over-IsHeap s e b nz lt fits ds de = record {
  chain = Chain-nil _ _ refl;
  frees_once = tt;
  held_once = tt;
  apart = λ a y. has-nil a;
  frees_in = λ a y. absurd (ground (arith, has-nil a, y));
  held_in = λ a y. absurd (ground (arith, has-nil a, y));
  start_pos = nz;
  stop_max = fits;
  start_page = ds;
  cur_page = ds;
  stop_page = de;
  start_cur = omega arith;
  cur_stop = omega (arith, lt);
  all = omega (arith, lt, ds, de);
  unused = omega (arith, lt, ds, de);
  used = omega arith;
}

init_over :
    (start stop : ℕ) (b : Buddy)
    → b.start ≡ 0
    → align_down (checked_add start 4095) < align_down stop
    → buddy_init start stop b ≡ over (align_down (checked_add start 4095)) (align_down stop) b
unfolding buddy_init
init_over start stop b u lt = rw (gt-leb _ _ lt, buddy_init, u) refl
  where
    gt-leb : (x y : ℕ) → x < y → leb y x ≡ false
    gt-leb x y h = ground arith

align_lem : (a : ℕ) → (align_down a % page_size ≡ 0) × (align_down a ≤ a)
align_lem a = (omega arith, omega arith)

align_pos : (a : ℕ) → 0 < a → 0 < align_down (checked_add a 4095)
align_pos a h = ground arith

-- Over a window of memory that holds a page, an allocator not set up before becomes a heap with all of
-- its pages free.
pub init-IsHeap :
    (start stop : ℕ) (b : Buddy)
    → b.start ≡ 0
    → 0 < start
    → align_down (checked_add start 4095) < align_down stop
    → stop ≤ u64_max
    → IsHeap (buddy_init start stop b) [] []
init-IsHeap start stop b u nz lt fits = rw (init_over start stop b u lt) (
    over-IsHeap _ _ b (align_pos start nz) lt (omega (arith, (align_lem stop).1, fits))
      (align_lem (checked_add start 4095)).0 (align_lem stop).0)
