-- ===== src/Buddy/Laws.antt =====
-- Every page of the heap is in one place: held, free, or not yet handed out.
use house.Buddy.{page_size, Buddy, u64_max, one_less, zero_page}
use house.Prelude.{
  ℕ, ◌+◌, ◌-◌, ◌*◌, ◌%◌, ◌≤◌, ◌<◌, ◌≡◌, refl, ap, subst, ◌≢◌, ◌⊎◌, inl, inr, true, false, List, [],
  ◌∷◌, arith, ==_refl, Bool-cases, length,
}
use house.Buddy.Pages.{has, Distinct, has-cons, has-nil, Chain, Chain-frame, Chain-nil}

-- a page that was handed out
abbrev pub InPage : Buddy → ℕ → Type 0
InPage b p = (b.start ≤ p) × (p + page_size ≤ b.cur) × (p % page_size ≡ 0)

-- The heap with `frees` on its list and `held` in its callers' hands.
pub record IsHeap (b : Buddy) (frees held : List ℕ) : Type 0 where
  pub chain : Chain b.mem b.free_head frees
  pub frees_once : Distinct frees
  pub held_once : Distinct held
  pub apart : (p : ℕ) → has p frees ≡ true → has p held ≡ false
  pub frees_in : (p : ℕ) → has p frees ≡ true → InPage b p
  pub held_in : (p : ℕ) → has p held ≡ true → InPage b p
  pub start_pos : 0 < b.start
  pub stop_max : b.stop ≤ u64_max
  pub start_page : b.start % page_size ≡ 0
  pub cur_page : b.cur % page_size ≡ 0
  pub stop_page : b.stop % page_size ≡ 0
  pub start_cur : b.start ≤ b.cur
  pub cur_stop : b.cur ≤ b.stop
  pub all : page_size * b.total_pages ≡ b.stop - b.start
  pub unused : page_size * b.free_pages ≡ (b.stop - b.cur) + page_size * length frees
  pub used : page_size * (length frees + length held) ≡ b.cur - b.start

-- A page that was not held, zeroed and inside of the heap, with no other word of memory changed;
-- or nothing, when every page is held.
abbrev pub Allocated : Buddy → List ℕ → ℕ × Buddy → Type 0
Allocated b held (p, b') =
    ((p ≡ 0) × (b' ≡ b) × (length held ≡ b.total_pages))
    ⊎ ((p ≢ 0)
        × (has p held ≡ false)
        × ((b.start ≤ p) × (p + page_size ≤ b.stop) × (p % page_size ≡ 0))
        × ((a : ℕ) → p ≤ a → a < p + page_size → b'.mem a ≡ 0)
        × ((a : ℕ) → (a < p) ⊎ (p + page_size ≤ a) → b'.mem a ≡ b.mem a)
        × (frees : List ℕ) × IsHeap b' frees (p ∷ held))

pub zero_page_in : (p : ℕ) (mem : ℕ → ℕ) (a : ℕ) → p ≤ a → a < p + page_size → zero_page p mem a ≡ 0
zero_page_in p mem a h k = ground arith

pub zero_page_out :
    (p : ℕ) (mem : ℕ → ℕ) (a : ℕ) → (a < p) ⊎ (p + page_size ≤ a) → zero_page p mem a ≡ mem a
zero_page_out p mem a h = ground arith

-- two pages do not overlap
pub pages_apart :
    (p a : ℕ) → p % page_size ≡ 0 → a % page_size ≡ 0 → p ≢ a → (a < p) ⊎ (p + page_size ≤ a)
pages_apart p a h k ne = ground arith

-- the page taken off the list
abbrev pub popped : Buddy → Buddy
popped b = record b {
  free_head = b.mem b.free_head;
  free_pages = one_less b.free_pages;
  mem = zero_page b.free_head b.mem;
}

-- how membership reads on a longer list
pub has-head : (p : ℕ) (qs : List ℕ) → has p (p ∷ qs) ≡ true
has-head p qs = rw (has-cons p p qs, ==_refl p) refl

pub has-tail : (a p : ℕ) (qs : List ℕ) → has a qs ≡ true → has a (p ∷ qs) ≡ true
has-tail a p qs y = ground (arith, has-cons a p qs, y)

pub has_ne : (a p : ℕ) (qs : List ℕ) → has p qs ≡ false → has a qs ≡ true → p ≢ a
has_ne a p qs n y e = absurd (ground (arith, ap (λ x. has x qs) e, n, y))

pub has_split : (a p : ℕ) (qs : List ℕ) → has a (p ∷ qs) ≡ true → (p ≡ a) ⊎ (has a qs ≡ true)
has_split a p qs y = ground (arith, has-cons a p qs, y)

pub absent-cons : (a p : ℕ) (qs : List ℕ) → p ≢ a → has a qs ≡ false → has a (p ∷ qs) ≡ false
absent-cons a p qs ne n = ground (arith, has-cons a p qs, ne, n)

pub cons_in :
    (b : Buddy) (p : ℕ) (held : List ℕ)
    → InPage b p
    → ((a : ℕ) → has a held ≡ true → InPage b a)
    → (a : ℕ) → has a (p ∷ held) ≡ true
    → InPage b a
cons_in b p held i f a y = elim (has_split a p held y) [
  | inl e ↦ subst (InPage b) e i
  | inr y' ↦ f a y'
]

pub popped-IsHeap :
    (b : Buddy) (qs held : List ℕ)
    → IsHeap b (b.free_head ∷ qs) held
    → Chain b.mem (b.mem b.free_head) qs
    → IsHeap (popped b) qs (b.free_head ∷ held)
popped-IsHeap b qs held h c = record {
  chain = Chain-frame b.mem (zero_page p b.mem) (b.mem p) qs c (λ a y. zero_page_out p b.mem a (
      pages_apart p a (h.frees_in p (has-head p qs)).2 (h.frees_in a (has-tail a p qs y)).2
        (has_ne a p qs h.frees_once.0 y)));
  frees_once = h.frees_once.1;
  held_once = (h.apart p (has-head p qs), h.held_once);
  apart =
      λ a y. absent-cons a p held (has_ne a p qs h.frees_once.0 y) (h.apart a (has-tail a p qs y));
  frees_in = λ a y. h.frees_in a (has-tail a p qs y);
  held_in = cons_in b p held (h.frees_in p (has-head p qs)) h.held_in;
  start_pos = h.start_pos;
  stop_max = h.stop_max;
  start_page = h.start_page;
  cur_page = h.cur_page;
  stop_page = h.stop_page;
  start_cur = h.start_cur;
  cur_stop = h.cur_stop;
  all = h.all;
  unused = ground (arith, h.unused);
  used = omega (arith, h.used);
}
  where
    p : ℕ
    p = b.free_head

-- the first page never handed out
abbrev pub bumped : Buddy → Buddy
bumped b = record b {
  cur = b.cur + page_size;
  free_pages = one_less b.free_pages;
  mem = zero_page b.cur b.mem;
}

widen : (b : Buddy) (a : ℕ) → InPage b a → InPage (bumped b) a
widen b a (x, y, z) = (x, omega (arith, y), z)

-- a page that was handed out is not the next one
below_cur : (b : Buddy) (a : ℕ) → InPage b a → b.cur ≢ a
below_cur b a i e = omega (arith, i.1, e)

pub fresh_cur :
    (b : Buddy) (held : List ℕ)
    → ((a : ℕ) → has a held ≡ true → InPage b a)
    → has b.cur held ≡ false
fresh_cur b held f = elim (Bool-cases (has b.cur held)) [
  | inl y ↦ absurd (below_cur b b.cur (f b.cur y) refl)
  | inr n ↦ n
]

pub bumped-IsHeap :
    (b : Buddy) (held : List ℕ)
    → IsHeap b [] held
    → b.free_head ≡ 0
    → b.cur + page_size ≤ b.stop
    → IsHeap (bumped b) [] (b.cur ∷ held)
bumped-IsHeap b held h z room = record {
  chain = Chain-nil _ _ z;
  frees_once = tt;
  held_once = (fresh_cur b held h.held_in, h.held_once);
  apart = λ a y. absurd (ground (arith, has-nil a, y));
  frees_in = λ a y. absurd (ground (arith, has-nil a, y));
  held_in =
      cons_in (bumped b) b.cur held (h.start_cur, omega arith, h.cur_page)
        (λ a y. widen b a (h.held_in a y));
  start_pos = h.start_pos;
  stop_max = h.stop_max;
  start_page = h.start_page;
  cur_page = omega (arith, h.cur_page);
  stop_page = h.stop_page;
  start_cur = omega (arith, h.start_cur);
  cur_stop = room;
  all = h.all;
  unused = ground (arith, h.unused, room, h.cur_stop);
  used = omega (arith, h.used, h.start_cur);
}
