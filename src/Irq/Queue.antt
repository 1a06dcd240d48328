-- ===== src/Irq/Queue.antt =====
-- Pushes and pops of the ring, in any order, against a queue of at most 256 entries.
use house.Irq.{
  ring_sz, Ring, ack_source, wake, house_irq_push, as_i32, house_irq_pop, house_irq_ring_drops,
}
use house.Prelude.{
  ℕ, ◌+◌, ◌-◌, ◌%◌, ◌^◌, ◌≤◌, ◌≡◌, refl, ap, subst, ◌∙◌, ◌≢◌, inl, inr, true, false, List, [], ◌∷◌,
  arith, leb, ◌==◌, if◌then◌else◌, ==_ne, Bool-cases, ℤ, neg, length, set,
}
use house.Irq.Laws.{
  Holds, IsRing, in_ring_lem, ack_source-IsRing, wake-IsRing, offer, stored-IsRing,
}

-- a ring after a push, with its drops
abbrev pub Pushed : ℕ → List ℕ → ℕ → Ring → Type 0
Pushed v q drops r = IsRing r (offer v q drops).0 × (r.drops ≡ (offer v q drops).1)

-- the push on a ring whose source is acknowledged
abbrev pushed : ℕ → Ring → Ring
pushed v r =
    if leb ring_sz ((r.head + 2 ^ 32 - r.tail) % 2 ^ 32)
    then record r { drops = (r.drops + 1) % 2 ^ 32 }
    else wake v (record r { buf = set r.buf (r.head % ring_sz) v; head = (r.head + 1) % 2 ^ 32 })

dropped-IsRing :
    (r : Ring) (q : List ℕ) → IsRing r q → IsRing (record r { drops = (r.drops + 1) % 2 ^ 32 }) q
dropped-IsRing r q h = record {
  full_size = h.full_size;
  tail_in = h.tail_in;
  few = h.few;
  head_at = h.head_at;
  holds = h.holds;
}

count_lem : (r : Ring) (q : List ℕ) → IsRing r q → (r.head + 2 ^ 32 - r.tail) % 2 ^ 32 ≡ length q
count_lem r q h =
    ap (λ x. (x + 2 ^ 32 - r.tail) % 2 ^ 32) h.head_at
    ∙ in_ring_lem r.tail (length q) h.tail_in h.few

pushed-Pushed : (v : ℕ) (r : Ring) (q : List ℕ) → IsRing r q → Pushed v q r.drops (pushed v r)
pushed-Pushed v r q h = rw (count_lem r q h) (elim (Bool-cases (length q == ring_sz)) [
  | inl y ↦ rw (y, all_full (length q) y) (dropped-IsRing r q h, refl)
  | inr n ↦
      rw (n, some_room (length q) h.few n)
        (wake-IsRing v _ _ (stored-IsRing v r q h (differ (length q) n)))
])
  where
    all_full : (n : ℕ) → (n == ring_sz) ≡ true → leb ring_sz n ≡ true
    all_full n y = ground (arith, y)

    some_room : (n : ℕ) → n ≤ ring_sz → (n == ring_sz) ≡ false → leb ring_sz n ≡ false
    some_room n le y = ground (arith, le, y)

    differ : (n : ℕ) → (n == ring_sz) ≡ false → n ≢ ring_sz
    differ n y = ground (arith, y)

push_lem :
    (status : ℕ → ℕ) (v : ℕ) (r : Ring) (q : List ℕ)
    → IsRing r q
    → Pushed v q r.drops (house_irq_push status v r)
unfolding house_irq_push
push_lem status v r q h =
    let (h', d) = ack_source-IsRing status v r q h in
    subst (λ n. Pushed v q n (pushed v (ack_source status v r))) d
      (pushed-Pushed v (ack_source status v r) q h')

pop_empty : (r : Ring) → IsRing r [] → house_irq_pop r ≡ (neg 1, r)
unfolding house_irq_pop
pop_empty r h = rw (house_irq_pop, same r.tail r.head (omega (arith, h.head_at, h.tail_in))) refl
  where
    same : (a b : ℕ) → a ≡ b → (a == b) ≡ true
    same a b e = ground (arith, e)

abbrev popped : Ring → Ring
popped r = record r { tail = (r.tail + 1) % 2 ^ 32 }

pop_some :
    (r : Ring) (x : ℕ) (q : List ℕ)
    → IsRing r (x ∷ q)
    → (house_irq_pop r ≡ (as_i32 x, popped r)) × IsRing (popped r) q
unfolding house_irq_pop Holds
pop_some r x q h = (
  rw (house_irq_pop, ==_ne r.tail r.head apart, h.holds.0) refl,
  record {
    full_size = h.full_size;
    tail_in = omega arith;
    few = omega (arith, h.few);
    head_at = omega (arith, h.head_at);
    holds = h.holds.1;
  },
)
  where
    apart : r.tail ≢ r.head
    apart e = omega (arith, h.head_at, h.few, h.tail_in, e)

pub data RingOp : Type 0 where
  push : ℕ → RingOp
  pop : RingOp

-- what the pops return, in order, and the drops counted at the end
pub run_ring : (ℕ → ℕ) → List RingOp → Ring → List ℤ × ℕ
run_ring status [] r = ([], house_irq_ring_drops r)
run_ring status (push v ∷ ops) r = run_ring status ops (house_irq_push status v r)
run_ring status (pop ∷ ops) r =
    let (v, r') = house_irq_pop r in let (vs, d) = run_ring status ops r' in (v ∷ vs, d)

-- the same on a queue of at most 256 entries
pub run_offers : List RingOp → List ℕ → ℕ → List ℤ × ℕ
run_offers [] q d = ([], d)
run_offers (push v ∷ ops) q d = run_offers ops (offer v q d).0 (offer v q d).1
run_offers (pop ∷ ops) [] d = let (vs, d') = run_offers ops [] d in (neg 1 ∷ vs, d')
run_offers (pop ∷ ops) (x ∷ q) d = let (vs, d') = run_offers ops q d in (as_i32 x ∷ vs, d')

-- No sequence of pushes and pops tells the ring from a queue of at most 256 entries which counts, as a
-- `u32`, the entries it drops when it is full: entries come out in order, -1 on an empty ring, and the
-- counters may wrap.
pub run_ring_refines :
    (status : ℕ → ℕ) (ops : List RingOp) (r : Ring) (q : List ℕ)
    → IsRing r q
    → run_ring status ops r ≡ run_offers ops q r.drops
unfolding run_ring run_offers house_irq_ring_drops
run_ring_refines status [] r q h = refl
run_ring_refines status (push v ∷ ops) r q h =
    let (h', d) = push_lem status v r q h in
    run_ring_refines status ops (house_irq_push status v r) (offer v q r.drops).0 h'
    ∙ ap (run_offers ops (offer v q r.drops).0) d
run_ring_refines status (pop ∷ ops) r [] h =
    rw (pop_empty r h, run_ring_refines status ops r [] h) refl
run_ring_refines status (pop ∷ ops) r (x ∷ q) h =
    let (e, h') = pop_some r x q h in rw (e, run_ring_refines status ops (popped r) q h') refl
