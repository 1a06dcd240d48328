-- ===== src/Threads/Keep.antt =====
-- rust/crates/house-libc/src/threads/threads.rs: the queues of all cores, when one of them changes.
use house.Prelude.{
  ℕ, ◌≤◌, ◌<◌, ◌≡◌, refl, sym, subst, ◌≢◌, inl, inr, Bool, true, false, List, [], ◌∷◌, ◌++◌, arith,
  ◌==◌, if◌then◌else◌, ==_iff, ==_refl, Bool-cases,
}
use house.Threads.{max_threads, max_smp, Runs, put, link_last, unlink_first}
use house.Threads.Queue.{has, last, Queues, has-append, last-has}
use house.Threads.Links.{put_self, put_ne, put-IsRun}
use house.Threads.Step.{IsQueue, IsQueues, link_self, link_other, change, unlink_self}

put_if {ℓ} :
    {A : Type ℓ} (b : Bool) (f : ℕ → A) (c : ℕ) (v : A)
    → (if b then put f c v else f) c ≡ (if b then v else f c)
put_if true f c v = put_self f c v
put_if false f c v = refl

put_if_ne {ℓ} :
    {A : Type ℓ} (b : Bool) (f : ℕ → A) (c : ℕ) (v : A) (d : ℕ)
    → d ≢ c
    → (if b then put f c v else f) d ≡ f d
put_if_ne true f c v d ne = put_ne f c v d ne
put_if_ne false f c v d ne = refl

tail-has : (next : ℕ → ℕ) (h t : ℕ) (xs : List ℕ) → IsQueue next h t xs → t ≢ 0 → has t xs ≡ true
unfolding last
tail-has next h t [] q nz = absurd (nz q.1)
tail-has next h t (x ∷ xs) q nz = subst (λ k. has k (x ∷ xs) ≡ true) (sym q.1) (last-has x xs)

pub link_last-IsQueues :
    (s : Runs) (qs : Queues) (c t : ℕ)
    → IsQueues s qs
    → c < max_smp
    → t ≢ 0
    → t ≤ max_threads
    → ((d : ℕ) → d < max_smp → has t (qs d) ≡ false)
    → IsQueues (link_last c t s) (put qs c (qs c ++ t ∷ []))
unfolding link_last
link_last-IsQueues s qs c t i lt nz le free =
    let own = i.0 c lt in
    change s (link_last c t s) qs c (qs c ++ t ∷ []) i lt
      (rw (put_if (s.tail c == 0) s.head c t, put_self s.tail c t)
        (link_self s.next (s.head c) (s.tail c) (qs c) t own nz le (free c lt)))
      (λ d k ne.
        rw (put_if_ne (s.tail c == 0) s.head c t d ne, put_ne s.tail c t d ne)
          (link_other s.next (s.head d) (s.head d) (s.tail c) (s.tail d) (qs d) t (i.0 d k)
            (free d k)
            (λ some_tail.
              i.1 (s.tail c) c d lt k (λ e. ne (sym e))
                (tail-has (s.next) (s.head c) (s.tail c) (qs c) own some_tail))))
      (λ u d k ne e. elim (Bool-cases (t == u)) [
        | inl y ↦ subst (λ v. has v (qs d) ≡ false) ((==_iff t u).0 y) (free d k)
        | inr y ↦ i.1 u c d lt k (λ f. ne (sym f)) (ground (arith, has-append u (qs c) t))
      ])

pub unlink_first-IsQueues :
    (s : Runs) (qs : Queues) (c x : ℕ) (xs : List ℕ)
    → IsQueues s qs
    → c < max_smp
    → qs c ≡ x ∷ xs
    → IsQueues (unlink_first c x s) (put qs c xs)
unfolding unlink_first has
unlink_first-IsQueues s qs c x xs i lt e =
    let own : IsQueue s.next (s.head c) (s.tail c) (x ∷ xs) =
      subst (λ l. IsQueue s.next (s.head c) (s.tail c) l) e (i.0 c lt) in
    let alone : (u d : ℕ) → d < max_smp → d ≢ c → has u (x ∷ xs) ≡ true → has u (qs d) ≡ false =
      λ u d k ne f. i.1 u c d lt k (λ g. ne (sym g)) (subst (λ l. has u l ≡ true) (sym e) f) in
    change s (unlink_first c x s) qs c xs i lt
      (rw (put_self s.head c (s.next x), put_if (s.next x == 0) s.tail c 0)
        (unlink_self s.next (s.head c) (s.tail c) x xs own))
      (λ d k ne.
        rw (put_ne s.head c (s.next x) d ne, put_if_ne (s.next x == 0) s.tail c 0 d ne)
          (let other = i.0 d k in
            (
              put-IsRun s.next (s.head d) (qs d) x 0 (alone x d k ne (rw (==_refl x) refl)) other.0,
              other.1,
              other.2,
              other.3,
            )))
      (λ u d k ne f. alone u d k ne (ground arith))
