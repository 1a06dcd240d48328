-- ===== src/Irq/Laws.antt =====
-- The ring is a bounded queue that counts what it drops.
use house.Irq.{ring_sz, Ring, is_negative, ack_source, wake}
use house.Prelude.{
  ℕ, ◌+◌, ◌-◌, ◌%◌, ◌^◌, ◌≤◌, ◌<◌, ◌≡◌, refl, sym, ap, ◌∙◌, ◌≢◌, inl, inr, ◌&&◌, List, [], ◌∷◌,
  ◌++◌, arith, ltb, leb, ◌==◌, if◌then◌else◌, Bool-cases, length, get_or, set, length-append,
  length-set, get_or-set_self, get_or-set_ne,
}

-- the entries from `t` on are those of the queue
unfoldable pub Holds : List ℕ → ℕ → List ℕ → Type 0
Holds buf t [] = Unit {0}
Holds buf t (x ∷ q) = (get_or buf (t % ring_sz) 0 ≡ x) × Holds buf ((t + 1) % 2 ^ 32) q

-- the ring and its contents
pub record IsRing (r : Ring) (q : List ℕ) : Type 0 where
  pub full_size : length r.buf ≡ ring_sz
  pub tail_in : r.tail < 2 ^ 32
  pub few : length q ≤ ring_sz
  pub head_at : r.head ≡ (r.tail + length q) % 2 ^ 32
  pub holds : Holds r.buf r.tail q

Holds-set :
    (q buf : List ℕ) (t m k v : ℕ)
    → Holds buf t q
    → length q ≤ m
    → m < ring_sz
    → k ≡ (t + m) % ring_sz
    → Holds (set buf k v) t q
unfolding Holds
Holds-set [] buf t m k v h le lt e = tt
Holds-set (x ∷ q) buf t m k v (a, h) le lt e =
    let apart : k ≢ t % ring_sz = λ z. omega (arith, le, lt, e, z) in
    (
      get_or-set_ne buf v 0 apart ∙ a,
      Holds-set q buf ((t + 1) % 2 ^ 32) (m - 1) k v h (omega (arith, le)) (omega (arith, lt))
          (omega (arith, le, e)),
    )

Holds-append :
    (q buf : List ℕ) (t v : ℕ)
    → Holds buf t q
    → get_or buf ((t + length q) % ring_sz) 0 ≡ v
    → Holds buf t (q ++ (v ∷ []))
unfolding Holds
Holds-append [] buf t v h e = (ap (λ i. get_or buf i 0) (omega arith) ∙ e, tt)
Holds-append (x ∷ q) buf t v (a, h) e =
    (a, Holds-append q buf ((t + 1) % 2 ^ 32) v h (ap (λ i. get_or buf i 0) (omega arith) ∙ e))

pub in_ring_lem :
    (t n : ℕ) → t < 2 ^ 32 → n ≤ ring_sz → (((t + n) % 2 ^ 32) + 2 ^ 32 - t) % 2 ^ 32 ≡ n
in_ring_lem t n h le = omega (arith, h, le)

-- what a push leaves alone
pub ack_source-IsRing :
    (status : ℕ → ℕ) (v : ℕ) (r : Ring) (q : List ℕ)
    → IsRing r q
    → IsRing (ack_source status v r) q × ((ack_source status v r).drops ≡ r.drops)
unfolding ack_source
ack_source-IsRing status v r q h =
    elim (Bool-cases ((leb 48 v && ltb v 80) && (status (v - 48) % 2 == 1))) [
      | inl y ↦
          rw (y, ack_source)
            (
              record {
                full_size = h.full_size;
                tail_in = h.tail_in;
                few = h.few;
                head_at = h.head_at;
                holds = h.holds;
              },
              refl,
            )
      | inr n ↦ rw (n, ack_source) (h, refl)
    ]

pub wake-IsRing :
    (v : ℕ) (r : Ring) (q : List ℕ)
    → IsRing r q
    → IsRing (wake v r) q × ((wake v r).drops ≡ r.drops)
unfolding wake
wake-IsRing v r q h = elim (Bool-cases (is_negative r.pipe_w)) [
  | inl y ↦ rw (y, wake) (h, refl)
  | inr n ↦
      rw (n, wake)
        (
          record {
            full_size = h.full_size;
            tail_in = h.tail_in;
            few = h.few;
            head_at = h.head_at;
            holds = h.holds;
          },
          refl,
        )
]

-- the queue and its count of drops after a push
abbrev pub offer : ℕ → List ℕ → ℕ → List ℕ × ℕ
offer v q drops = if length q == ring_sz then (q, (drops + 1) % 2 ^ 32) else (q ++ (v ∷ []), drops)

pub stored-IsRing :
    (v : ℕ) (r : Ring) (q : List ℕ)
    → IsRing r q
    → length q ≢ ring_sz
    → IsRing
        (record r { buf = set r.buf (r.head % ring_sz) v; head = (r.head + 1) % 2 ^ 32 })
        (q ++ (v ∷ []))
stored-IsRing v r q h ne = record {
  full_size = length-set r.buf (r.head % ring_sz) v ∙ h.full_size;
  tail_in = h.tail_in;
  few = omega (arith, length-append q (v ∷ []), h.few, ne);
  head_at = omega (arith, length-append q (v ∷ []), h.head_at);
  holds =
      Holds-append q _ r.tail v
        (Holds-set q r.buf r.tail (length q) (r.head % ring_sz) v h.holds (omega arith)
          (omega (arith, h.few, ne)) same)
        (ap (λ i. get_or (set r.buf (r.head % ring_sz) v) i 0) (sym same)
          ∙ get_or-set_self r.buf (r.head % ring_sz) v 0 (omega (arith, h.full_size)));
}
  where
    same : r.head % ring_sz ≡ (r.tail + length q) % ring_sz
    same = omega (arith, h.head_at)
