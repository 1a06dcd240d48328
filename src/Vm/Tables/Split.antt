-- ===== src/Vm/Tables/Split.antt =====
-- rust/crates/house-hal-aarch64/src/mm/vm.rs, `vm_split_slot`: a block split into a table names the same
-- memory.
use house.Prelude.{
  ℕ, ◌+◌, ◌-◌, ◌*◌, ◌/◌, ◌%◌, ◌^◌, ◌≤◌, ◌<◌, ◌≡◌, refl, sym, ap, subst, ◌∙◌, ◌≢◌, ◌⊎◌, inl, inr,
  true, false, ◌||◌, List, arith, ◌==◌, if◌then◌else◌, lt→ltb, le→leb, ==_iff, ==_refl, ==_ne,
  length,
}
use house.Buddy.{Buddy, buddy_alloc_page, store}
use house.Buddy.Laws.{IsHeap}
use house.Buddy.Pages.{has}
use house.Buddy.Calls.{alloc_page_lem}
use house.Vm.Tables.{page_of, attributes, split_l1, split_l2, fill_table, vm_split_slot, slot_of}

-- the address that a block or page descriptor of a level gives to `va`
abbrev pub out : ℕ → ℕ → ℕ → ℕ
out level d va =
    if level == 1
    then d / 2 ^ 30 % 2 ^ 18 * 2 ^ 30 + va % 2 ^ 30
    else if level == 2
    then d / 2 ^ 21 % 2 ^ 27 * 2 ^ 21 + va % 2 ^ 21
    else d / 2 ^ 12 % 2 ^ 36 * 2 ^ 12 + va % 2 ^ 12

-- the entry for `va` in the table at `t` of a level
abbrev pub entry_for : (ℕ → ℕ) → ℕ → ℕ → ℕ → ℕ
entry_for mem t level va = mem (slot_of t va (if level == 2 then 21 else 12))

-- The output address is below 2^44.
abbrev pub IsLow : ℕ → Type 0
IsLow d = d / 2 ^ 44 % 2 ^ 4 ≡ 0

out-split_l1 : (d va : ℕ) → IsLow d → out 2 (split_l1 d (va / 2 ^ 21 % 512)) va ≡ out 1 d va
unfolding split_l1
out-split_l1 d va low = omega arith

out-split_l2 :
    (d va : ℕ) → IsLow d → d / 2 % 2 ≡ 0 → out 3 (split_l2 d (va / 2 ^ 12 % 512)) va ≡ out 2 d va
unfolding split_l2
out-split_l2 d va low bl = omega arith

attributes-split_l1 : (d i : ℕ) → attributes (split_l1 d i) ≡ attributes d
unfolding split_l1
attributes-split_l1 d i = omega arith

attributes-split_l2 : (d i : ℕ) → d / 2 % 2 ≡ 0 → attributes (split_l2 d i) ≡ attributes d + 2
unfolding split_l2
attributes-split_l2 d i b = omega arith

abbrev split_entry : ℕ → ℕ → ℕ → ℕ
split_entry level d i = if level == 1 then split_l1 d i else split_l2 d i

fill_at :
    (child : ℕ) (entry mem : ℕ → ℕ) (i : ℕ)
    → i < 512
    → fill_table child entry mem (child + 8 * i) ≡ entry i
fill_at child entry mem i h =
    let e : (child + 8 * i - child) / 8 ≡ i = omega arith in
    rw
      (
        le→leb child (child + 8 * i) (omega arith),
        lt→ltb (child + 8 * i) (child + 4096) (omega arith),
        e,
      )
      refl

fill_out :
    (child : ℕ) (entry mem : ℕ → ℕ) (a : ℕ)
    → (a < child) ⊎ (child + 4096 ≤ a)
    → fill_table child entry mem a ≡ mem a
fill_out child entry mem a h = ground (arith, h)

-- The slot names a table, whose entry for any address gives the same output address with the same
-- attributes (a page has the table bit beside them); no other word outside of the new page changes.
abbrev pub Same : ℕ → ℕ → (ℕ → ℕ) → (ℕ → ℕ) → Type 0
Same level slot mem mem' =
    (t : ℕ) × (mem' slot ≡ t + 3)
    × (t % 4096 ≡ 0)
    × (t ≢ 0)
    × ((va : ℕ)
        → (out (level + 1) (entry_for mem' t (level + 1) va) va ≡ out level (mem slot) va)
          × (attributes (entry_for mem' t (level + 1) va)
              ≡ (if level == 1 then attributes (mem slot) else attributes (mem slot) + 2)))
    × ((a : ℕ) → a ≢ slot → (a < t) ⊎ (t + 4096 ≤ a) → mem' a ≡ mem a)

-- the entries for `va` in the new table
abbrev SameOut : ℕ → ℕ → ℕ → ℕ → (ℕ → ℕ) → Type 0
SameOut level d child va mem3 =
    (out (level + 1) (entry_for mem3 child (level + 1) va) va ≡ out level d va)
    × (attributes (entry_for mem3 child (level + 1) va)
        ≡ (if level == 1 then attributes d else attributes d + 2))

at_level :
    (level d child va : ℕ) (mem3 : ℕ → ℕ)
    → IsLow d
    → d / 2 % 2 ≡ 0
    → (level ≡ 1) ⊎ (level ≡ 2)
    → ((i : ℕ) → i < 512 → mem3 (child + 8 * i) ≡ split_entry level d i)
    → SameOut level d child va mem3
at_level level d child va mem3 low bl (inl k) =
    subst
      (λ l.
        ((i : ℕ) → i < 512 → mem3 (child + 8 * i) ≡ split_entry l d i) → SameOut l d child va mem3)
      (sym k)
      (λ entry.
        let e = entry (va / 2 ^ 21 % 512) (omega arith) in
        (
          ap (λ x. out 2 x va) e ∙ out-split_l1 d va low,
          ap attributes e ∙ attributes-split_l1 d (va / 2 ^ 21 % 512),
        ))
at_level level d child va mem3 low bl (inr k) =
    subst
      (λ l.
        ((i : ℕ) → i < 512 → mem3 (child + 8 * i) ≡ split_entry l d i) → SameOut l d child va mem3)
      (sym k)
      (λ entry.
        let e = entry (va / 2 ^ 12 % 512) (omega arith) in
        (
          ap (λ x. out 3 x va) e ∙ out-split_l2 d va low bl,
          ap attributes e ∙ attributes-split_l2 d (va / 2 ^ 12 % 512) bl,
        ))

Same-at :
    (level slot child : ℕ) (mem mem1 : ℕ → ℕ)
    → (level ≡ 1) ⊎ (level ≡ 2)
    → child % 4096 ≡ 0
    → child ≢ 0
    → (slot < child) ⊎ (child + 4096 ≤ slot)
    → mem slot / 2 % 2 ≡ 0
    → IsLow (mem slot)
    → ((a : ℕ) → (a < child) ⊎ (child + 4096 ≤ a) → mem1 a ≡ mem a)
    → Same level slot mem
        (store slot (page_of child + 3) (fill_table child (split_entry level (mem slot)) mem1))
Same-at level slot child mem mem1 lv al nz apart bl low same =
    let mem2 = fill_table child (split_entry level (mem slot)) mem1 in
    let mem3 = store slot (page_of child + 3) mem2 in
    let entry : (i : ℕ) → i < 512 → mem3 (child + 8 * i) ≡ split_entry level (mem slot) i = λ i h.
      rw (==_ne slot (child + 8 * i) (not_slot i h))
        (fill_at child (split_entry level (mem slot)) mem1 i h) in
    (
      child,
      rw (==_refl slot) (omega (arith, al)),
      al,
      nz,
      λ va. at_level level (mem slot) child va mem3 low bl lv entry,
      λ a ne o.
          rw (==_ne slot a (λ k. ne (sym k)))
            (fill_out child (split_entry level (mem slot)) mem1 a o ∙ same a o),
    )
  where
    not_slot : (i : ℕ) → i < 512 → slot ≢ child + 8 * i
    not_slot i h e = elim apart [ inl k ↦ omega arith | inr k ↦ omega arith ]

away :
    (child page slot : ℕ)
    → child % 4096 ≡ 0
    → page % 4096 ≡ 0
    → child ≢ page
    → page ≤ slot
    → slot < page + 4096
    → (slot < child) ⊎ (child + 4096 ≤ slot)
away child page slot a b ne lo hi = ground (arith, a, b, ne)

-- On a heap whose callers hold the page of the slot: a block below 2^44 is split into a table with the
-- same output address and attributes for every address, or the heap is empty and nothing changes.
pub vm_split_slot_lem :
    (level slot page : ℕ) (b : Buddy) (frees held : List ℕ)
    → (level ≡ 1) ⊎ (level ≡ 2)
    → IsHeap b frees held
    → has page held ≡ true
    → page ≤ slot
    → slot < page + 4096
    → b.mem slot % 4 ≡ 1
    → IsLow (b.mem slot)
    → let (done, b') = vm_split_slot slot level b in
      ((done ≡ true) × Same level slot b.mem b'.mem)
      ⊎ ((done ≡ false) × (b' ≡ b) × (length held ≡ b.total_pages))
unfolding vm_split_slot
vm_split_slot_lem level slot page b frees held lv h hp lo hi blk low =
    let child = (buddy_alloc_page b).0 in
    let pl = h.held_in page hp in
    let nz : (slot == 0) ≡ false = ==_ne slot 0 (omega (arith, pl, h.start_pos)) in
    let lvl : ((level == 1) || (level == 2)) ≡ true = ground (arith, lv) in
    let valid : (b.mem slot % 2 == 0) ≡ false = ==_ne (b.mem slot % 2) 0 (omega arith) in
    let block : (b.mem slot / 2 % 2 == 0) ≡ true =
      (==_iff (b.mem slot / 2 % 2) 0).1 (omega arith) in
    rw (nz, lvl, valid, block)
      (elim (alloc_page_lem b frees held h) [
        | inl (z, e, full) ↦ rw z (inr (refl, e, full))
        | inr (cz, fresh, inside, zeroed, same, fs, more) ↦
            let ne : child ≢ page = λ k. let hc = rw k at fresh in cc (hc, hp) in
            let apart : (slot < child) ⊎ (child + 4096 ≤ slot) =
              away child page slot inside.2 pl.2 ne lo hi in
            rw (==_ne child 0 cz) (
              inl (
                refl,
                Same-at level slot child b.mem (buddy_alloc_page b).1.mem lv inside.2 cz apart
                    (omega arith) low same,
              ))
      ])
