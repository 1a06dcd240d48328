-- ===== src/Userspace/Asid/Laws.antt =====
-- The ASID cache hands out ASIDs in range, keeps a binding until it is given back, and flushes
-- before it forgets.
use house.Prelude.{
  ℕ, ◌+◌, ◌≤◌, ◌≡◌, refl, ◌≢◌, ◌⊎◌, inl, inr, ◌||◌, none, some, [], ◌∷◌, arith, ◌==◌, if◌then◌else◌,
  Option-cases, is_some, length, length-append,
}
use house.Keyed.{find, table_cap}
use house.Keyed.Laws.{
  Distinct, find-append_new, append_new-Distinct, find-swap_remove, swap_remove-Distinct,
  length-swap_remove,
}
use house.Userspace.Asid.{Asids, draw, bind_new, asid_for_pdir, evict_asid, house_asid_forget_pdir}

-- The counter stays in 1..250, and so does every ASID bound; no directory is bound twice.
pub record IsValid (s : Asids) : Type 0 where
  pub counter : (1 ≤ s.next) × (s.next ≤ 250)
  pub distinct : Distinct s.bound
  pub fits : length s.bound ≤ table_cap
  pub in_range : (p a : ℕ) → find p s.bound ≡ some a → (1 ≤ a) × (a ≤ 250)

pub draw_lem : (a : ℕ) → 1 ≤ a → a ≤ 250 → draw a ≡ (a, (if a == 250 then 1 else a + 1), (a == 250))
unfolding draw
draw_lem a l h = ground arith

pub find-bind_new :
    (p q : ℕ) (s : Asids)
    → IsValid s
    → find p s.bound ≡ none
    → find q (bind_new p s).1.bound ≡ (
        if p == q
        then some s.next
        else if length s.bound == table_cap
        then none
        else find q s.bound)
unfolding bind_new find
find-bind_new p q s v e =
    rw (draw_lem s.next v.counter.0 v.counter.1)
      (ground (arith, find-append_new q p s.next s.bound e))

pub asid-bind_new : (p : ℕ) (s : Asids) → IsValid s → (bind_new p s).0 ≡ s.next
unfolding bind_new
asid-bind_new p s v = rw (draw_lem s.next v.counter.0 v.counter.1)

bind_new-IsValid :
    (p : ℕ) (s : Asids) → IsValid s → find p s.bound ≡ none → IsValid (bind_new p s).1
unfolding bind_new find
bind_new-IsValid p s v e = record {
  counter = rw (draw_lem s.next v.counter.0 v.counter.1) (ground arith);
  distinct =
      rw (draw_lem s.next v.counter.0 v.counter.1)
        (ground (arith, append_new-Distinct p s.next s.bound e v.distinct));
  fits =
      rw (draw_lem s.next v.counter.0 v.counter.1)
        (ground (arith, length-append s.bound ((p, s.next) ∷ []), v.fits));
  in_range = λ q a h. ground (arith, find-bind_new p q s v e, v.in_range q a, v.counter, h);
}

pub asid_for-IsValid :
    (p : ℕ) (s : Asids)
    → IsValid s
    → let (a, s') = asid_for_pdir p s in (1 ≤ a) × (a ≤ 250) × IsValid s'
unfolding asid_for_pdir
asid_for-IsValid p s v = elim (Option-cases (find p s.bound)) [
  | inl e ↦
      rw (e, asid_for_pdir)
        (
          ground (arith, asid-bind_new p s v, v.counter),
          ground (arith, asid-bind_new p s v, v.counter),
          bind_new-IsValid p s v e,
        )
  | inr (a, e) ↦ rw (e, asid_for_pdir) ((v.in_range p a e).0, (v.in_range p a e).1, v)
]

pub asid_for-new : (p : ℕ) (s : Asids) → find p s.bound ≡ none → asid_for_pdir p s ≡ bind_new p s
unfolding asid_for_pdir
asid_for-new p s e = rw (e, asid_for_pdir)

asid_for-old : (p a : ℕ) (s : Asids) → find p s.bound ≡ some a → asid_for_pdir p s ≡ (a, s)
unfolding asid_for_pdir
asid_for-old p a s e = rw (e, asid_for_pdir)

asid_for-again :
    (p : ℕ) (s : Asids)
    → IsValid s
    → let (a, s') = asid_for_pdir p s in asid_for_pdir p s' ≡ (a, s')
asid_for-again p s v = elim (Option-cases (find p s.bound)) [
  | inl e ↦ rw (
    asid_for-new p s e,
    asid_for-old p s.next (bind_new p s).1 (ground (arith, find-bind_new p p s v e)),
    asid-bind_new p s v,
  )
  | inr (a, e) ↦ rw (asid_for-old p a s e) (asid_for-old p a s e)
]

flushes-bind_new :
    (p : ℕ) (s : Asids)
    → IsValid s
    → (bind_new p s).1.flushes
      ≡ (if (s.next == 250) || (length s.bound == table_cap) then s.flushes + 1 else s.flushes)
unfolding bind_new
flushes-bind_new p s v = rw (draw_lem s.next v.counter.0 v.counter.1)

asid_for_others :
    (p q : ℕ) (s : Asids)
    → IsValid s
    → p ≢ q
    → let s' = (asid_for_pdir p s).1 in
      (find q s'.bound ≡ find q s.bound)
      ⊎ ((length s.bound ≡ table_cap) × (find q s'.bound ≡ none) × (s'.flushes ≡ s.flushes + 1))
unfolding asid_for_pdir
asid_for_others p q s v ne = elim (Option-cases (find p s.bound)) [
  | inl e ↦ rw (e, asid_for_pdir) (ground (arith, find-bind_new p q s v e, flushes-bind_new p s v))
  | inr (a, e) ↦ rw (e, asid_for_pdir) (inl refl)
]

-- In a well-formed cache, an ASID handed out lies in 1..250, the cache stays well formed, the next call
-- for the same directory gives the same ASID and changes nothing, and any other directory keeps its
-- binding, except that a full map drops them all, and then flushes.
pub asid_for_lem :
    (p q : ℕ) (s : Asids)
    → IsValid s
    → p ≢ q
    → let (a, s') = asid_for_pdir p s in
      ((1 ≤ a) × (a ≤ 250) × IsValid s')
      × (asid_for_pdir p s' ≡ (a, s'))
      × ((find q s'.bound ≡ find q s.bound)
          ⊎ ((length s.bound ≡ table_cap)
              × (find q s'.bound ≡ none)
              × (s'.flushes ≡ s.flushes + 1)))
asid_for_lem p q s v ne = (asid_for-IsValid p s v, asid_for-again p s v, asid_for_others p q s v ne)

pub find-evict :
    (p q : ℕ) (s : Asids)
    → IsValid s
    → find q (evict_asid p s).1.bound ≡ (if p == q then none else find q s.bound)
unfolding evict_asid
find-evict p q s v = find-swap_remove q p s.bound v.distinct

pub flushes-evict :
    (p : ℕ) (s : Asids)
    → ((evict_asid p s).0 ≡ is_some (find p s.bound)) × ((evict_asid p s).1.flushes ≡ s.flushes)
unfolding evict_asid
flushes-evict p s = (refl, refl)

pub evict-IsValid : (p : ℕ) (s : Asids) → IsValid s → IsValid (evict_asid p s).1
unfolding evict_asid
evict-IsValid p s v = record {
  counter = v.counter;
  distinct = swap_remove-Distinct p s.bound v.distinct;
  fits = ground (arith, length-swap_remove p s.bound, v.fits);
  in_range = λ q a h. ground (arith, find-swap_remove q p s.bound v.distinct, v.in_range q a, h);
}

-- A directory that is forgotten has no binding left, the others keep theirs, and the translations
-- are flushed if there was a binding.
pub forget_pdir_lem :
    (p q : ℕ) (s : Asids)
    → IsValid s
    → p ≢ 0
    → let (held, s') = house_asid_forget_pdir p s in
      (find q s'.bound ≡ (if p == q then none else find q s.bound))
      × IsValid s'
      × (held ≡ is_some (find p s.bound))
      × (s'.flushes ≡ (if held then s.flushes + 1 else s.flushes))
unfolding house_asid_forget_pdir
forget_pdir_lem p q s v nz =
    ground (arith, evict-IsValid p s v, find-evict p q s v, flushes-evict p s)
