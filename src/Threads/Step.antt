-- ===== src/Threads/Step.antt =====
-- rust/crates/house-libc/src/threads/threads.rs: what a new last and a removed first thread do to the
-- links of its queue and of the others.
use house.Prelude.{
  ℕ, zero, suc, ◌+◌, ◌≤◌, ◌<◌, ◌≡◌, refl, sym, subst, ◌≢◌, inl, inr, true, false, List, [], ◌∷◌,
  ◌++◌, arith, ◌==◌, if◌then◌else◌, ==_iff, ==_ne, Bool-cases,
}
use house.Threads.{max_threads, max_smp, Runs, put, queued_below}
use house.Threads.Queue.{
  has, Unique, Bounded, last, Queues, anywhere_below, append-Unique, append-Bounded, last-has,
  last-append, pigeonhole,
}
use house.Threads.Links.{IsRun, put_self, put-IsRun, append-IsRun, found_from-has}

-- the head, the tail and the links of one queue
abbrev pub IsQueue : (ℕ → ℕ) → ℕ → ℕ → List ℕ → Type 0
IsQueue next h t xs = IsRun next h xs × (t ≡ last 0 xs) × Unique xs × Bounded max_threads xs

abbrev pub IsQueues : Runs → Queues → Type 0
IsQueues s qs =
    ((c : ℕ) → c < max_smp → IsQueue s.next (s.head c) (s.tail c) (qs c))
    × ((u c d : ℕ) → c < max_smp → d < max_smp → c ≢ d → has u (qs c) ≡ true → has u (qs d) ≡ false)

zero_not_has : (xs : List ℕ) → Bounded max_threads xs → has 0 xs ≢ true
unfolding has
zero_not_has [] b h = ground arith
zero_not_has (x ∷ xs) b h = ground (arith, zero_not_has xs b.2)

pub link_self :
    (next : ℕ → ℕ) (h t : ℕ) (xs : List ℕ) (thr : ℕ)
    → IsQueue next h t xs
    → thr ≢ 0
    → thr ≤ max_threads
    → has thr xs ≡ false
    → IsQueue
        (if t == 0 then put next thr 0 else put (put next thr 0) t thr)
        (if t == 0 then thr else h)
        thr
        (xs ++ thr ∷ [])
unfolding last has
link_self next h t [] thr q nz le n =
    rw q.1 ((refl, nz, put_self next thr 0), refl, (refl, tt), (omega arith, le, tt))
link_self next h t (x ∷ xs) thr q nz le n =
    let there : last x xs ≢ 0 =
      λ e. zero_not_has (x ∷ xs) q.3 (subst (λ k. has k (x ∷ xs) ≡ true) e (last-has x xs)) in
    let at_end : t ≡ last x xs = q.1 in
    let flag : (t == 0) ≡ false = rw at_end (==_ne (last x xs) 0 there) in
    let joined : IsQueue (put (put next thr 0) (last x xs) thr) h thr (x ∷ xs ++ thr ∷ []) = (
      append-IsRun next h x xs thr q.0 q.2 nz n,
      sym (last-append x xs thr),
      append-Unique (x ∷ xs) thr q.2 n,
      append-Bounded max_threads (x ∷ xs) thr q.3 (omega arith) le,
    ) in
    subst
      (λ b.
        IsQueue (if b then put next thr 0 else put (put next thr 0) t thr) (if b then thr else h)
          thr (x ∷ xs ++ thr ∷ []))
      (sym flag)
      (subst (λ v. IsQueue (put (put next thr 0) v thr) h thr (x ∷ xs ++ thr ∷ [])) (sym at_end)
        joined)

pub link_other :
    (next : ℕ → ℕ) (h h' : ℕ) (t t' : ℕ) (ys : List ℕ) (thr : ℕ)
    → IsQueue next h' t' ys
    → has thr ys ≡ false
    → (t ≢ 0 → has t ys ≡ false)
    → IsQueue (if t == 0 then put next thr 0 else put (put next thr 0) t thr) h' t' ys
link_other next h h' t t' ys thr q n o =
    let cleared = put-IsRun next h' ys thr 0 n q.0 in
    elim (Bool-cases (t == 0)) [
      | inl y ↦ rw y (cleared, q.1, q.2, q.3)
      | inr y ↦ rw y (
        put-IsRun (put next thr 0) h' ys t thr (o (λ e. ground (arith, y, e))) cleared,
        q.1,
        q.2,
        q.3,
      )
    ]

-- One queue changes, and its members stand in no other.
pub change :
    (s s' : Runs) (qs : Queues) (c : ℕ) (xs : List ℕ)
    → IsQueues s qs
    → c < max_smp
    → IsQueue s'.next (s'.head c) (s'.tail c) xs
    → ((d : ℕ) → d < max_smp → d ≢ c → IsQueue s'.next (s'.head d) (s'.tail d) (qs d))
    → ((u d : ℕ) → d < max_smp → d ≢ c → has u xs ≡ true → has u (qs d) ≡ false)
    → IsQueues s' (put qs c xs)
change s s' qs c xs i lt here other away = (
  (λ d k. elim (Bool-cases (d == c)) [
    | inl y ↦
        rw y (subst (λ m. IsQueue s'.next (s'.head m) (s'.tail m) xs) (sym ((==_iff d c).0 y)) here)
    | inr y ↦ rw y (other d k (λ e. ground (arith, y, e)))
  ]),
  λ u a b ka kb ne. elim (Bool-cases (a == c)) [
    | inl y ↦ ground (arith, away u b kb, ==_iff a c, ==_iff b c)
    | inr y ↦ elim (Bool-cases (b == c)) [
      | inl z ↦
          rw (y, z)
            (λ e. elim (Bool-cases (has u xs)) [
              | inl w ↦ ground (arith, away u a ka (λ k. ground (arith, y, k)) w)
              | inr w ↦ w
            ])
      | inr z ↦ rw (y, z) (i.1 u a b ka kb ne)
    ]
  ],
)

pub unlink_self :
    (next : ℕ → ℕ) (h t x : ℕ) (xs : List ℕ)
    → IsQueue next h t (x ∷ xs)
    → IsQueue (put next x 0) (next x) (if next x == 0 then 0 else t) xs
unfolding last
unlink_self next h t x [] q = rw q.0.2 (refl, refl, tt, tt)
unlink_self next h t x (y ∷ ys) q =
    let more : (next x == 0) ≡ false = rw q.0.2.0 (==_ne y 0 q.0.2.1) in
    rw more (put-IsRun next (next x) (y ∷ ys) x 0 q.2.0 q.0.2, q.1, q.2.1, q.3.2)

pub queued_below-anywhere :
    (s : Runs) (qs : Queues) (n t : ℕ)
    → IsQueues s qs
    → n ≤ max_smp
    → queued_below n t s ≡ anywhere_below n t qs
unfolding queued_below anywhere_below
queued_below-anywhere s qs zero t i le = refl
queued_below-anywhere s qs (suc n) t i le =
    let q = i.0 n (omega arith) in
    rw
      (
        queued_below-anywhere s qs n t i (omega arith),
        found_from-has (max_threads + 1) (s.head n) t s.next (qs n) q.0
            (omega (arith, pigeonhole max_threads (qs n) q.3 q.2)),
      )
      refl
