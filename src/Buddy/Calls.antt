-- ===== src/Buddy/Calls.antt =====
-- Allocation and release keep the heap, and hand out every page there is.
use house.Buddy.{page_size, Buddy, u64_max, buddy_alloc_page, store, buddy_free_page}
use house.Prelude.{
  ℕ, ◌+◌, ◌%◌, ◌≤◌, ◌<◌, ◌≡◌, refl, ap, subst, ◌≢◌, inl, inr, true, false, List, [], ◌∷◌, arith,
  leb, ◌==◌, leb→le, ==_ne, Bool-cases,
}
use house.Buddy.Pages.{
  has, remove, has-remove, remove-Distinct, length-remove, Chain-frame, Chain-cons, Chain-cases,
}
use house.Buddy.Laws.{
  IsHeap, Allocated, zero_page_in, zero_page_out, popped, has-head, has_ne, has_split, cons_in,
  popped-IsHeap, bumped, fresh_cur, bumped-IsHeap,
}

alloc_popped : (b : Buddy) → b.free_head ≢ 0 → buddy_alloc_page b ≡ (b.free_head, popped b)
unfolding buddy_alloc_page
alloc_popped b nz = rw (buddy_alloc_page, ==_ne b.free_head 0 nz) refl

alloc_bumped :
    (b : Buddy)
    → b.free_head ≡ 0
    → 0 < b.cur
    → b.cur + page_size ≤ b.stop
    → b.stop ≤ u64_max
    → buddy_alloc_page b ≡ (b.cur, bumped b)
unfolding buddy_alloc_page
alloc_bumped b z nz room fits = ground arith

alloc_none :
    (b : Buddy)
    → b.free_head ≡ 0
    → b.stop < b.cur + page_size
    → b.stop ≤ u64_max
    → b.stop % page_size ≡ 0
    → buddy_alloc_page b ≡ (0, b)
unfolding buddy_alloc_page
alloc_none b z full fits al = ground arith

alloc_bump_lem :
    (b : Buddy) (held : List ℕ)
    → IsHeap b [] held
    → b.free_head ≡ 0
    → Allocated b held (buddy_alloc_page b)
alloc_bump_lem b held h z = elim (Bool-cases (leb (b.cur + page_size) b.stop)) [
  | inl y ↦
      let room : b.cur + page_size ≤ b.stop = leb→le _ _ y in
      let pos : b.cur ≢ 0 = omega (arith, h.start_pos, h.start_cur) in
      rw (alloc_bumped b z (omega (arith, h.start_pos, h.start_cur)) room h.stop_max) (
        inr (
          pos,
          fresh_cur b held h.held_in,
          (h.start_cur, room, h.cur_page),
          zero_page_in b.cur b.mem,
          zero_page_out b.cur b.mem,
          [],
          bumped-IsHeap b held h z room,
        ))
  | inr n ↦
      let full : b.stop < b.cur + page_size = ground (arith, n) in
      rw (alloc_none b z full h.stop_max h.stop_page) (
        inl (
          refl,
          refl,
          omega (arith, full, h.all, h.used, h.stop_page, h.cur_page, h.cur_stop, h.start_cur),
        ))
]

-- On a heap an allocation fails only when every page is held; otherwise the page it returns was not
-- held, lies in the heap, and is zeroed, and nothing else in memory changes.
pub alloc_page_lem :
    (b : Buddy) (frees held : List ℕ) → IsHeap b frees held → Allocated b held (buddy_alloc_page b)
alloc_page_lem b frees held h = elim (Chain-cases b.mem b.free_head frees h.chain) [
  | inl (z, e) ↦ alloc_bump_lem b held (subst (λ fs. IsHeap b fs held) e h) z
  | inr (nz, qs, e, c) ↦
      let p = b.free_head in
      let h' : IsHeap b (p ∷ qs) held = subst (λ fs. IsHeap b fs held) e h in
      let (lo, hi, al) = h'.frees_in p (has-head p qs) in
      rw (alloc_popped b nz) (
        inr (
          nz,
          h'.apart p (has-head p qs),
          (lo, omega (arith, hi, h.cur_stop), al),
          zero_page_in p b.mem,
          zero_page_out p b.mem,
          qs,
          popped-IsHeap b qs held h' c,
        ))
]

abbrev pushed : ℕ → Buddy → Buddy
pushed p b = record b {
  mem = store p b.free_head b.mem;
  free_head = p;
  free_pages = b.free_pages + 1;
}

free_pushed :
    (p : ℕ) (b : Buddy)
    → p ≢ 0
    → b.start ≤ p
    → p < b.stop
    → p % page_size ≡ 0
    → b.free_pages < b.total_pages
    → buddy_free_page p b ≡ pushed p b
unfolding buddy_free_page
free_pushed p b nz lo hi al room = ground arith

store_out : (p v : ℕ) (mem : ℕ → ℕ) (a : ℕ) → p ≢ a → store p v mem a ≡ mem a
store_out p v mem a ne = ground arith

store_in : (p v : ℕ) (mem : ℕ → ℕ) → store p v mem p ≡ v
store_in p v mem = ground arith

pushed-IsHeap :
    (p : ℕ) (b : Buddy) (frees held : List ℕ)
    → IsHeap b frees held
    → has p held ≡ true
    → p ≢ 0
    → IsHeap (pushed p b) (p ∷ frees) (remove p held)
pushed-IsHeap p b frees held h y nz = record {
  chain = Chain-cons _ p frees nz (
      rw (store_in p b.free_head b.mem) (
        Chain-frame b.mem _ b.free_head frees h.chain
          (λ a z. store_out p b.free_head b.mem a (has_ne a p frees new z))));
  frees_once = (new, h.frees_once);
  held_once = remove-Distinct p held h.held_once;
  apart = λ a z. rw (has-remove p a held h.held_once) (elim (has_split a p frees z) [
    | inl e ↦ rw (==_eq p a e) refl
    | inr z' ↦ ground (arith, h.apart a z')
  ]);
  frees_in = cons_in b p frees (h.held_in p y) h.frees_in;
  held_in = λ a z. h.held_in a (ground (arith, has-remove p a held h.held_once, z));
  start_pos = h.start_pos;
  stop_max = h.stop_max;
  start_page = h.start_page;
  cur_page = h.cur_page;
  stop_page = h.stop_page;
  start_cur = h.start_cur;
  cur_stop = h.cur_stop;
  all = h.all;
  unused = omega (arith, h.unused);
  used = omega (arith, h.used, length-remove p held y);
}
  where
    ==_eq : (p a : ℕ) → p ≡ a → (p == a) ≡ true
    ==_eq p a e = ground arith

    new : has p frees ≡ false
    new = elim (Bool-cases (has p frees)) [
      | inl z ↦ absurd (ground (arith, h.apart p z, y))
      | inr n ↦ n
    ]

-- On a heap, a held page that is freed is free again: the count of free pages grows by one, and
-- the next allocation returns this page. Only the first word of the page changes in memory.
pub free_page_lem :
    (p : ℕ) (b : Buddy) (frees held : List ℕ)
    → IsHeap b frees held
    → has p held ≡ true
    → let b' = buddy_free_page p b in
      IsHeap b' (p ∷ frees) (remove p held)
      × (b'.free_pages ≡ b.free_pages + 1)
      × ((a : ℕ) → p ≢ a → b'.mem a ≡ b.mem a)
      × ((buddy_alloc_page b').0 ≡ p)
free_page_lem p b frees held h y =
    let (lo, hi, al) = h.held_in p y in
    let nz : p ≢ 0 = omega (arith, lo, h.start_pos) in
    let room : b.free_pages < b.total_pages =
      omega (arith, length-remove p held y, h.unused, h.used, h.all, h.cur_stop, h.start_cur) in
    rw (free_pushed p b nz lo (omega (arith, hi, h.cur_stop)) al room) (
      pushed-IsHeap p b frees held h y nz,
      refl,
      λ a ne. store_out p b.free_head b.mem a ne,
      ap (λ (r : ℕ × Buddy). r.0) (alloc_popped (pushed p b) nz),
    )
