-- ===== src/Threads/Links.antt =====
-- rust/crates/house-libc/src/threads/threads.rs: the links of a run queue, against its list.
use house.Prelude.{
  ℕ, zero, suc, ◌≤◌, ◌≡◌, refl, sym, subst, ◌∙◌, ◌≢◌, true, false, List, [], ◌∷◌, ◌++◌, arith,
  ==_iff, ==_refl, ==_ne, length,
}
use house.Threads.{put, found_from}
use house.Threads.Queue.{has, Unique, last, last-has}

-- From `h` the links pass the threads of the list and end at 0.
abbrev pub IsRun : (ℕ → ℕ) → ℕ → List ℕ → Type 0
IsRun next h [] = h ≡ 0
IsRun next h (x ∷ xs) = (h ≡ x) × (x ≢ 0) × IsRun next (next x) xs

pub put_self {ℓ} : {A : Type ℓ} (f : ℕ → A) (k : ℕ) (v : A) → put f k v k ≡ v
put_self f k v = rw (==_refl k) refl

pub put_ne {ℓ} : {A : Type ℓ} (f : ℕ → A) (k : ℕ) (v : A) (x : ℕ) → x ≢ k → put f k v x ≡ f x
put_ne f k v x h = rw (==_ne x k h) refl

-- A link outside of the queue does not matter.
pub put-IsRun :
    (next : ℕ → ℕ) (h : ℕ) (xs : List ℕ) (k v : ℕ)
    → has k xs ≡ false
    → IsRun next h xs
    → IsRun (put next k v) h xs
unfolding has
put-IsRun next h [] k v n r = r
put-IsRun next h (x ∷ xs) k v n r =
    let off : x ≢ k = λ e. ground (arith, n, ==_iff x k) in
    (r.0, r.1, rw (put_ne next k v x off) (put-IsRun next (next x) xs k v (ground (arith, n)) r.2))

pub append-IsRun :
    (next : ℕ → ℕ) (h x : ℕ) (xs : List ℕ) (t : ℕ)
    → IsRun next h (x ∷ xs)
    → Unique (x ∷ xs)
    → t ≢ 0
    → has t (x ∷ xs) ≡ false
    → IsRun (put (put next t 0) (last x xs) t) h (x ∷ xs ++ t ∷ [])
unfolding has last
append-IsRun next h x [] t r d nz n =
    let off : t ≢ x = λ e. ground (arith, n, ==_iff x t) in
    (
      r.0,
      r.1,
      (put_self (put next t 0) x t, nz, put_ne (put next t 0) x t t off ∙ put_self next t 0),
    )
append-IsRun next h x (y ∷ ys) t r d nz n =
    let off : x ≢ t = λ e. ground (arith, n, ==_iff x t) in
    let on : x ≢ last y ys = λ e.
      ground
        (arith, d.0, last-has y ys, subst (λ k. has k (y ∷ ys) ≡ true) (sym e) (last-has y ys)) in
    (
      r.0,
      r.1,
      rw (put_ne (put next t 0) (last y ys) t x on, put_ne next t 0 x off)
          (append-IsRun next (next x) y ys t r.2 d.1 nz (ground (arith, n))),
    )

pub found_from-has :
    (fuel h t : ℕ) (next : ℕ → ℕ) (xs : List ℕ)
    → IsRun next h xs
    → length xs ≤ fuel
    → found_from fuel h t next ≡ has t xs
unfolding found_from has
found_from-has zero h t next [] r f = refl
found_from-has zero h t next (x ∷ xs) r f = absurd (omega arith)
found_from-has (suc fuel) h t next [] r f = rw r refl
found_from-has (suc fuel) h t next (x ∷ xs) r f =
    rw (r.0, ==_ne x 0 r.1, found_from-has fuel (next x) t next xs r.2 (omega arith)) (ground arith)
