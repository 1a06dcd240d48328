-- ===== src/Tests/Pages.antt =====
-- The page allocator: a heap of four pages, of which one is held and one is free.
use house.Buddy.{Buddy, buddy_alloc_page, buddy_free_page}
use house.Vm.Tables.{vm_split_slot}
use house.Vm.Tables.Split.{Same, vm_split_slot_lem}
use house.Prelude.{ℕ, ◌≡◌, refl, ◌≢◌, ◌⊎◌, inl, true, false, [], ◌∷◌, arith, ◌==◌, if◌then◌else◌}
use house.Buddy.Pages.{has, remove, Chain-nil, Chain-cons}
use house.Buddy.Laws.{IsHeap, Allocated}
use house.Buddy.Calls.{alloc_page_lem, free_page_lem}

abbrev four_pages : Buddy
four_pages = record {
  start = 0x11000;
  stop = 0x15000;
  cur = 0x13000;
  total_pages = 4;
  free_pages = 3;
  free_head = 0x12000;
  mem = λ a. 0;
}

one_each : IsHeap four_pages (0x12000 ∷ []) (0x11000 ∷ [])
unfolding has
one_each = record {
  chain = Chain-cons _ 0x12000 [] (λ e. omega (arith, e)) (Chain-nil _ _ refl);
  frees_once = (refl, tt);
  held_once = (refl, tt);
  apart = λ p y. ground (arith, y);
  frees_in = λ p y. ground (arith, y);
  held_in = λ p y. ground (arith, y);
  start_pos = omega arith;
  stop_max = omega arith;
  start_page = refl;
  cur_page = refl;
  stop_page = refl;
  start_cur = omega arith;
  cur_stop = omega arith;
  all = refl;
  unused = refl;
  used = refl;
}

alloc_page_lem_example : Allocated four_pages (0x11000 ∷ []) (buddy_alloc_page four_pages)
alloc_page_lem_example = alloc_page_lem four_pages (0x12000 ∷ []) (0x11000 ∷ []) one_each

held_page : has 0x11000 (0x11000 ∷ []) ≡ true
unfolding has
held_page = refl

free_page_lem_example :
    let b' = buddy_free_page 0x11000 four_pages in
    IsHeap b' (0x11000 ∷ 0x12000 ∷ []) (remove 0x11000 (0x11000 ∷ []))
    × (b'.free_pages ≡ 4)
    × ((a : ℕ) → 0x11000 ≢ a → b'.mem a ≡ 0)
    × ((buddy_alloc_page b').0 ≡ 0x11000)
free_page_lem_example =
    free_page_lem 0x11000 four_pages (0x12000 ∷ []) (0x11000 ∷ []) one_each held_page

-- the same heap with a block descriptor in the held page
abbrev block_page : Buddy
block_page = record four_pages { mem = λ a. if a == 0x11008 then 0x40000401 else 0 }

block-IsHeap : IsHeap block_page (0x12000 ∷ []) (0x11000 ∷ [])
unfolding has
block-IsHeap = record {
  chain = Chain-cons _ 0x12000 [] (λ e. omega (arith, e)) (Chain-nil _ _ refl);
  frees_once = (refl, tt);
  held_once = (refl, tt);
  apart = λ p y. ground (arith, y);
  frees_in = λ p y. ground (arith, y);
  held_in = λ p y. ground (arith, y);
  start_pos = omega arith;
  stop_max = omega arith;
  start_page = refl;
  cur_page = refl;
  stop_page = refl;
  start_cur = omega arith;
  cur_stop = omega arith;
  all = refl;
  unused = refl;
  used = refl;
}

vm_split_slot_lem_example :
    let (done, b') = vm_split_slot 0x11008 1 block_page in
    ((done ≡ true) × Same 1 0x11008 block_page.mem b'.mem)
    ⊎ ((done ≡ false) × (b' ≡ block_page) × (◌≡◌ {A = ℕ} 1 4))
vm_split_slot_lem_example =
    vm_split_slot_lem 1 0x11008 0x11000 block_page (0x12000 ∷ []) (0x11000 ∷ []) (inl refl)
      block-IsHeap held_page (omega arith) (omega arith) refl refl
